-- ===== src/Testing/Classifier.antt =====
-- workers/test/classifier.py and pytest_outcome.py: the verdict of a run, of typed facts alone.
use ant_orchestrator.Prelude.{Bool, true, false, Option, none, some, String, ℕ, ◌==◌, if◌then◌else◌}
use ant_orchestrator.Prelude.Int.{ℤ, pos, negsuc}
use ant_orchestrator.Prelude.Text.{is_blank}
use ant_orchestrator.Domain.Result.{Result, ok, err, invariant_violation, ◌>>=◌}
use ant_orchestrator.Testing.Failure.{FailureCategory, FailureClassification}
use ant_orchestrator.Testing.Facts.{
  PreflightStatus, IsolatedRunStatus, BackendReason, SnapshotProvisionStatus, CleanupStatus,
  TestProcessStatus, TestResult, TestExecutionFacts, ClassifiedExecution, is_success,
  backend_category, hint,
}
use ant_orchestrator.Testing.Policy.{default_classification, cancellation_classification}

-- `result_for_exit_code`: pytest's 0, 1 and 5.
unfoldable pub result_for_exit_code : Option ℤ → TestResult
result_for_exit_code none = TestResult.error
result_for_exit_code (some (negsuc n)) = TestResult.error
result_for_exit_code (some (pos n)) =
    if n == 0
    then TestResult.passed
    else if n == 1
    then TestResult.failed
    else if n == 5
    then TestResult.no_tests
    else TestResult.error

abbrev pub is_code : ℕ → Option ℤ → Bool
is_code k none = false
is_code k (some (negsuc n)) = false
is_code k (some (pos n)) = n == k

-- `detail or facts.detail_code`
unfoldable pub detail_or : Option String → Option String → Option String
detail_or none given = given
detail_or (some detail) given = if is_blank detail then given else some detail

-- The verdict that carries a classification.
unfoldable pub verdict :
    TestResult → TestProcessStatus → FailureClassification → ClassifiedExecution
unfolding hint
verdict result process classification = record {
  test_result = result;
  process_status = process;
  classification = some classification;
  diagnostic_hint = hint classification.reason_code;
}

unfoldable pub failure :
    FailureCategory
    → TestProcessStatus
    → TestExecutionFacts
    → TestResult
    → Option String
    → Result ClassifiedExecution
failure category process facts result detail = do
  classification ←
      default_classification category facts.evidence_refs (detail_or detail facts.detail_code)
  ok (verdict result process classification)

unfoldable pub cancelled_verdict :
    TestExecutionFacts → TestProcessStatus → Result ClassifiedExecution
cancelled_verdict facts process = do
  classification ← cancellation_classification facts.evidence_refs facts.detail_code
  ok (verdict TestResult.error process classification)

-- `_preflight`, with `_PREFLIGHT_CATEGORY`; a gate that passed does not come here.
unfoldable pub preflight_category : PreflightStatus → FailureCategory
preflight_category PreflightStatus.command_policy_denied = FailureCategory.policy_violation
preflight_category PreflightStatus.invalid_command = FailureCategory.invalid_command
preflight_category PreflightStatus.budget_exhausted = FailureCategory.budget_exhausted
preflight_category _ = FailureCategory.execution_boundary_failure

unfoldable pub refine : Option BackendReason → FailureCategory → FailureCategory
unfolding backend_category
refine none default = default
refine (some reason) default = backend_category reason

unfoldable pub completed_as : TestExecutionFacts → TestResult → Result ClassifiedExecution
completed_as facts TestResult.passed = ok (record {
  test_result = TestResult.passed;
  process_status = TestProcessStatus.completed;
  classification = none;
  diagnostic_hint = "Acceptance suite passed; no Queen review is required.";
})
completed_as facts TestResult.failed =
    failure FailureCategory.deterministic_test_failure TestProcessStatus.completed facts
      TestResult.failed none
completed_as facts TestResult.no_tests =
    failure FailureCategory.unknown TestProcessStatus.completed facts TestResult.no_tests
      (some "no_tests_collected")
completed_as facts TestResult.error =
    failure
      (if is_code 4 facts.exit_code
        then FailureCategory.adapter_config_invalid
        else FailureCategory.unknown)
      (if is_code 2 facts.exit_code
        then TestProcessStatus.interrupted
        else TestProcessStatus.completed)
      facts TestResult.error none

-- `_classify_run`; no status is a programmer's error.
unfoldable pub classify_run :
    TestExecutionFacts → Option IsolatedRunStatus → Result ClassifiedExecution
classify_run facts none = err invariant_violation
classify_run facts (some IsolatedRunStatus.completed) =
    completed_as facts (result_for_exit_code facts.exit_code)
classify_run facts (some IsolatedRunStatus.timeout) =
    failure FailureCategory.test_deadline_exceeded TestProcessStatus.timeout facts TestResult.error
      none
classify_run facts (some IsolatedRunStatus.cancelled) =
    cancelled_verdict facts TestProcessStatus.cancelled
classify_run facts (some IsolatedRunStatus.isolation_unavailable) =
    failure FailureCategory.execution_isolation_unavailable TestProcessStatus.isolation_unavailable
      facts TestResult.error none
classify_run facts (some IsolatedRunStatus.isolation_setup_failed) =
    failure (refine facts.backend_reason FailureCategory.isolation_setup_failure)
      TestProcessStatus.isolation_setup_failed facts TestResult.error none
classify_run facts (some IsolatedRunStatus.launch_failed) =
    failure (refine facts.backend_reason FailureCategory.isolation_setup_failure)
      TestProcessStatus.launch_failed facts TestResult.error none

unfoldable pub classify_snapshot :
    TestExecutionFacts → SnapshotProvisionStatus → Result ClassifiedExecution
classify_snapshot facts SnapshotProvisionStatus.integrity_mismatch =
    failure FailureCategory.isolation_violation TestProcessStatus.isolation_setup_failed facts
      TestResult.error none
classify_snapshot facts SnapshotProvisionStatus.setup_failed =
    failure FailureCategory.isolation_setup_failure TestProcessStatus.isolation_setup_failed facts
      TestResult.error none
classify_snapshot facts SnapshotProvisionStatus.built_verified = classify_run facts facts.run_status

unfoldable pub classify_capable : TestExecutionFacts → Bool → Result ClassifiedExecution
classify_capable facts false =
    failure FailureCategory.execution_isolation_unavailable TestProcessStatus.isolation_unavailable
      facts TestResult.error none
classify_capable facts true = classify_snapshot facts facts.snapshot

-- `_decide`
unfoldable pub decide : TestExecutionFacts → PreflightStatus → Result ClassifiedExecution
unfolding preflight_category
decide facts PreflightStatus.passed = classify_capable facts facts.capability_available
decide facts PreflightStatus.cancelled = cancelled_verdict facts TestProcessStatus.cancelled
decide facts gate =
    failure (preflight_category gate) TestProcessStatus.launch_failed facts TestResult.error none

-- A leak of the isolation can never be a success.
unfoldable pub after_cleanup :
    TestExecutionFacts → CleanupStatus → ClassifiedExecution → Result ClassifiedExecution
after_cleanup facts CleanupStatus.failed_security_impact found =
    if is_success found
    then failure FailureCategory.isolation_violation TestProcessStatus.completed facts
        TestResult.error none
    else ok found
after_cleanup facts _ found = ok found

unfoldable pub classify : TestExecutionFacts → Result ClassifiedExecution
classify facts = do found ← decide facts facts.preflight; after_cleanup facts facts.cleanup found
