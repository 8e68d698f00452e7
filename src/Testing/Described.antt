-- ===== src/Testing/Described.antt =====
-- workers/test/classifier.py: the facts of a clean run and of a failure in passing.
use ant_orchestrator.Prelude.{Bool, true, false, ◌&&◌, Option, some}
use ant_orchestrator.Prelude.Int.{ℤ}
use ant_orchestrator.Testing.Facts.{
  PreflightStatus, IsolatedRunStatus, BackendReason, SnapshotProvisionStatus, CleanupStatus,
  TestExecutionFacts,
}
use ant_orchestrator.Testing.Classifier.{is_code}

-- The run completed with pytest's exit code 0.
unfoldable pub ran_clean : Option IsolatedRunStatus → Option ℤ → Bool
ran_clean (some IsolatedRunStatus.completed) code = is_code 0 code
ran_clean _ code = false

-- The backend gave one of the two transient reasons.
unfoldable pub is_passing_reason : Option BackendReason → Bool
is_passing_reason (some BackendReason.resource_temporarily_unavailable) = true
is_passing_reason (some BackendReason.process_interruption) = true
is_passing_reason _ = false

-- The isolation could not be set up, or the run not be launched, for a transient reason.
unfoldable pub failed_in_passing : Option IsolatedRunStatus → Option BackendReason → Bool
unfolding is_passing_reason
failed_in_passing (some IsolatedRunStatus.launch_failed) reason = is_passing_reason reason
failed_in_passing (some IsolatedRunStatus.isolation_setup_failed) reason = is_passing_reason reason
failed_in_passing _ reason = false

-- Every gate before the run is open.
abbrev pub is_open : PreflightStatus → Bool
is_open PreflightStatus.passed = true
is_open _ = false

abbrev pub is_built : SnapshotProvisionStatus → Bool
is_built SnapshotProvisionStatus.built_verified = true
is_built _ = false

unfoldable pub reaches_run : TestExecutionFacts → Bool
reaches_run facts =
    is_open facts.preflight && (facts.capability_available && is_built facts.snapshot)

unfoldable pub leaks : CleanupStatus → Bool
leaks CleanupStatus.failed_security_impact = true
leaks _ = false
