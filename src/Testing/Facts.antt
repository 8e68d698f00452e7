-- ===== src/Testing/Facts.antt =====
-- workers/test/classifier.py, provisioning.py, report.py and application/ports/test_isolation.py: the
-- facts that the classifier may observe, its verdict, and the tables that it reads.
use ant_orchestrator.Prelude.{Bool, true, false, Option, none, some, List, String}
use ant_orchestrator.Prelude.Int.{ℤ}
use ant_orchestrator.Testing.Failure.{FailureCategory, TestReasonCode, FailureClassification}

pub data PreflightStatus : Type 0 where
  passed identity_mismatch context_unavailable scope_violation : PreflightStatus
  command_policy_denied invalid_command budget_exhausted cancelled : PreflightStatus

pub data IsolatedRunStatus : Type 0 where
  completed timeout cancelled launch_failed : IsolatedRunStatus
  isolation_unavailable isolation_setup_failed : IsolatedRunStatus

pub data BackendReason : Type 0 where
  executable_missing permission_denied adapter_config_invalid : BackendReason
  resource_temporarily_unavailable process_interruption isolation_violation : BackendReason

pub data SnapshotProvisionStatus : Type 0 where
  built_verified integrity_mismatch setup_failed : SnapshotProvisionStatus

pub data CleanupStatus : Type 0 where
  clean failed failed_security_impact : CleanupStatus

pub data TestProcessStatus : Type 0 where
  completed timeout interrupted cancelled launch_failed : TestProcessStatus
  isolation_unavailable isolation_setup_failed : TestProcessStatus

pub data TestResult : Type 0 where
  passed failed error no_tests : TestResult

pub record TestExecutionFacts : Type 0 where
  pub preflight : PreflightStatus
  pub capability_available : Bool
  pub snapshot : SnapshotProvisionStatus
  pub run_status : Option IsolatedRunStatus
  pub exit_code : Option ℤ
  pub backend_reason : Option BackendReason
  pub cleanup : CleanupStatus
  pub evidence_refs : List String
  pub detail_code : Option String

pub record ClassifiedExecution : Type 0 where
  pub test_result : TestResult
  pub process_status : TestProcessStatus
  pub classification : Option FailureClassification
  pub diagnostic_hint : String

-- `is_success`
unfoldable pub is_success : ClassifiedExecution → Bool
is_success v = elim v.classification [ none ↦ true | some c ↦ false ]

-- `_BACKEND_CATEGORY`
unfoldable pub backend_category : BackendReason → FailureCategory
backend_category BackendReason.executable_missing = FailureCategory.executable_missing
backend_category BackendReason.permission_denied = FailureCategory.permission_denied
backend_category BackendReason.adapter_config_invalid = FailureCategory.adapter_config_invalid
backend_category BackendReason.resource_temporarily_unavailable = FailureCategory.adapter_transient
backend_category BackendReason.process_interruption = FailureCategory.transient_interruption
backend_category BackendReason.isolation_violation = FailureCategory.isolation_violation

-- `_HINTS`
unfoldable pub hint : TestReasonCode → String
hint TestReasonCode.deterministic_test_failure =
    "Acceptance suite reported deterministic test failures; Queen review is required."
hint TestReasonCode.test_deadline_exceeded =
    "Execution exceeded the approved deadline; same-strategy retry is not permitted without transient evidence."
hint TestReasonCode.execution_isolation_unavailable =
    "Isolation backend is unavailable; execution was not started on the host."
hint TestReasonCode.isolation_setup_failed =
    "Isolation setup failed; execution was not started and no host fallback is used."
hint TestReasonCode.isolation_violation =
    "An execution-isolation invariant was violated; the result is fail-closed."
hint TestReasonCode.execution_boundary_denied =
    "Execution boundary or identity check failed; the run was denied before launch."
hint TestReasonCode.command_policy_denied =
    "The requested command was denied by policy; the backend was not invoked."
hint TestReasonCode.invalid_command =
    "The requested command is invalid; the backend was not invoked."
hint TestReasonCode.executable_missing =
    "The test executable was missing; this is a permanent failure."
hint TestReasonCode.permission_denied =
    "Permission was denied launching the run; this is permanent."
hint TestReasonCode.invalid_adapter_configuration =
    "The isolation adapter configuration is invalid; this is a permanent failure."
hint TestReasonCode.transient_interruption_audited =
    "An audited process interruption occurred; a bounded same-worker retry is permitted."
hint TestReasonCode.adapter_temporarily_unavailable =
    "The adapter was temporarily unavailable (allowlisted); a bounded retry is permitted."
hint TestReasonCode.budget_exhausted = "The execution budget is exhausted; escalation is required."
hint TestReasonCode.execution_cancelled =
    "Execution was cancelled; no retry or regroup is performed."
hint TestReasonCode.unknown_failure =
    "An unrecognized failure occurred; safe escalation is required."
