-- ===== src/Testing/Tests.antt =====
-- A verdict on concrete facts.
use ant_orchestrator.Prelude.{refl, true, not, ◌&&◌, none, some, [], ◌∷◌}
use ant_orchestrator.Testing.Failure.{any_unsafe, is_unsafe, unsafe_detail}
use ant_orchestrator.Testing.Facts.{
  PreflightStatus, IsolatedRunStatus, BackendReason, SnapshotProvisionStatus, CleanupStatus,
  TestExecutionFacts,
}
use ant_orchestrator.Testing.Classifier.{classify}
use ant_orchestrator.Testing.Verdicts.{IsSafe, Says}
use ant_orchestrator.Testing.Described.{reaches_run, ran_clean, failed_in_passing, leaks}
use ant_orchestrator.Testing.Decision.{classify_lem}

-- The run could not be launched for want of a resource.
abbrev busy : TestExecutionFacts
busy = record {
  preflight = PreflightStatus.passed;
  capability_available = true;
  snapshot = SnapshotProvisionStatus.built_verified;
  run_status = some IsolatedRunStatus.launch_failed;
  exit_code = none;
  backend_reason = some BackendReason.resource_temporarily_unavailable;
  cleanup = CleanupStatus.clean;
  evidence_refs = "audit" ∷ [];
  detail_code = none;
}

busy-IsSafe : IsSafe busy.evidence_refs busy.detail_code
unfolding any_unsafe is_unsafe unsafe_detail
busy-IsSafe = refl

classify_lem_example :
    Says
      (reaches_run busy && ran_clean busy.run_status busy.exit_code && not (leaks busy.cleanup))
      (reaches_run busy && failed_in_passing busy.run_status busy.backend_reason)
      (classify busy)
classify_lem_example = classify_lem busy busy-IsSafe IsolatedRunStatus.launch_failed refl
