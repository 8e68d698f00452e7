-- ===== src/Testing/Decision.antt =====
-- workers/test/classifier.py, classify: which facts make a success, and which allow a retry.
use ant_orchestrator.Prelude.{
  ◌≡◌, refl, sym, ap, ◌∙◌, Bool, true, false, not, ◌&&◌, Option, none, some, arith, if◌then◌else◌,
}
use mathlib.Core.Path.{subst}
use ant_orchestrator.Prelude.Int.{ℤ}
use ant_orchestrator.Domain.Result.{ok, ◌>>=◌}
use ant_orchestrator.Testing.Failure.{FailureCategory, unsafe_detail, is_unsafe}
use ant_orchestrator.Testing.Facts.{
  PreflightStatus, IsolatedRunStatus, BackendReason, SnapshotProvisionStatus, CleanupStatus,
  TestProcessStatus, TestResult, TestExecutionFacts, ClassifiedExecution, is_success,
  backend_category,
}
use ant_orchestrator.Testing.Classifier.{
  is_code, result_for_exit_code, detail_or, failure, preflight_category, refine, completed_as,
  classify_run, classify_snapshot, classify_capable, decide, after_cleanup, classify,
}
use ant_orchestrator.Testing.Described.{
  ran_clean, is_passing_reason, failed_in_passing, is_open, is_built, reaches_run, leaks,
}
use ant_orchestrator.Testing.Verdicts.{
  asks_retry, IsSafe, Says, is_passing, failure-Says, cancelled-Says,
}

refine_lem :
    (reason : Option BackendReason)
    → is_passing (refine reason FailureCategory.isolation_setup_failure) ≡ is_passing_reason reason
unfolding refine backend_category is_passing_reason
refine_lem reason = ground arith

result_lem :
    (code : Option ℤ)
    → elim (result_for_exit_code code) [ TestResult.passed ↦ true | _ ↦ false ] ≡ is_code 0 code
unfolding result_for_exit_code
result_lem code = ground arith

-- The detail of a run that collected no test is safe itself.
collected_safe : unsafe_detail (some "no_tests_collected") ≡ false
unfolding unsafe_detail is_unsafe
collected_safe = refl

module _ (facts : TestExecutionFacts) (safe : IsSafe facts.evidence_refs facts.detail_code) where
  fails :
      (category : FailureCategory) (process : TestProcessStatus) (result : TestResult)
      → Says false (is_passing category) (failure category process facts result none)
  unfolding detail_or
  fails category process result = failure-Says category process facts result none safe

  fails_uncollected : Says false false (
      failure FailureCategory.unknown TestProcessStatus.completed facts TestResult.no_tests
        (some "no_tests_collected"))
  unfolding detail_or
  fails_uncollected =
      failure-Says FailureCategory.unknown TestProcessStatus.completed facts TestResult.no_tests
        (some "no_tests_collected") (ground (arith, safe, collected_safe))

  completed-Says :
      (result : TestResult)
      → Says
          (elim result [ TestResult.passed ↦ true | _ ↦ false ])
          false
          (completed_as facts result)
  unfolding completed_as is_success asks_retry
  completed-Says TestResult.passed = (_, refl, refl, refl)
  completed-Says TestResult.failed =
      fails FailureCategory.deterministic_test_failure TestProcessStatus.completed TestResult.failed
  completed-Says TestResult.no_tests = fails_uncollected
  completed-Says TestResult.error =
      let process =
        if is_code 2 facts.exit_code
        then TestProcessStatus.interrupted
        else TestProcessStatus.completed in
      elim (is_code 4 facts.exit_code)
        as (λ b. Says false false (
          failure (if b then FailureCategory.adapter_config_invalid else FailureCategory.unknown)
            process facts TestResult.error none)) [
              | true ↦ fails FailureCategory.adapter_config_invalid process TestResult.error
              | false ↦ fails FailureCategory.unknown process TestResult.error
            ]

  success_asks_nothing : (v : ClassifiedExecution) → is_success v ≡ true → asks_retry v ≡ false
  unfolding is_success asks_retry
  success_asks_nothing v h = ground arith

  cleanup-Says :
      (cleanup : CleanupStatus) (v : ClassifiedExecution)
      → Says (is_success v && not (leaks cleanup)) (asks_retry v) (after_cleanup facts cleanup v)
  unfolding after_cleanup leaks
  cleanup-Says CleanupStatus.clean v = (v, refl, ground arith, refl)
  cleanup-Says CleanupStatus.failed v = (v, refl, ground arith, refl)
  cleanup-Says CleanupStatus.failed_security_impact v =
      let (w, e, s, a) =
        fails FailureCategory.isolation_violation TestProcessStatus.completed TestResult.error in
      elim (is_success v)
          as (λ b.
            (is_success v ≡ b)
            → Says (b && false) (asks_retry v) (
                if b
                then failure FailureCategory.isolation_violation TestProcessStatus.completed facts
                    TestResult.error none
                else ok v)) [
                  | true ↦ λ q. (w, e, s, a ∙ sym (success_asks_nothing v q))
                  | false ↦ λ q. (v, refl, q, refl)
                ]
        refl

  -- A backend's failure, refined by its reason.
  refined-Says :
      (process : TestProcessStatus)
      → Says false (is_passing_reason facts.backend_reason) (
          failure
            (refine facts.backend_reason FailureCategory.isolation_setup_failure)
            process
            facts
            TestResult.error
            none)
  refined-Says process =
      subst
        (λ b. Says false b (
          failure (refine facts.backend_reason FailureCategory.isolation_setup_failure) process
            facts TestResult.error none))
        (refine_lem facts.backend_reason) (fails _ process TestResult.error)

  run-Says :
      (status : IsolatedRunStatus)
      → Says
          (ran_clean (some status) facts.exit_code)
          (failed_in_passing (some status) facts.backend_reason)
          (classify_run facts (some status))
  unfolding classify_run ran_clean failed_in_passing
  run-Says IsolatedRunStatus.completed =
      subst (λ b. Says b false (completed_as facts (result_for_exit_code facts.exit_code)))
        (result_lem facts.exit_code) (completed-Says (result_for_exit_code facts.exit_code))
  run-Says IsolatedRunStatus.timeout =
      fails FailureCategory.test_deadline_exceeded TestProcessStatus.timeout TestResult.error
  run-Says IsolatedRunStatus.cancelled = cancelled-Says facts TestProcessStatus.cancelled safe
  run-Says IsolatedRunStatus.isolation_unavailable =
      fails FailureCategory.execution_isolation_unavailable TestProcessStatus.isolation_unavailable
        TestResult.error
  run-Says IsolatedRunStatus.isolation_setup_failed =
      refined-Says TestProcessStatus.isolation_setup_failed
  run-Says IsolatedRunStatus.launch_failed = refined-Says TestProcessStatus.launch_failed

  module _ (status : IsolatedRunStatus) (ran : facts.run_status ≡ some status) where
    abbrev clean : Bool
    clean = ran_clean facts.run_status facts.exit_code

    abbrev again : Bool
    again = failed_in_passing facts.run_status facts.backend_reason

    snapshot-Says :
        (snapshot : SnapshotProvisionStatus)
        → Says
            (is_built snapshot && clean)
            (is_built snapshot && again)
            (classify_snapshot facts snapshot)
    unfolding classify_snapshot
    snapshot-Says SnapshotProvisionStatus.integrity_mismatch =
        fails FailureCategory.isolation_violation TestProcessStatus.isolation_setup_failed
          TestResult.error
    snapshot-Says SnapshotProvisionStatus.setup_failed =
        fails FailureCategory.isolation_setup_failure TestProcessStatus.isolation_setup_failed
          TestResult.error
    snapshot-Says SnapshotProvisionStatus.built_verified =
        subst
          (λ o.
            Says (ran_clean o facts.exit_code) (failed_in_passing o facts.backend_reason)
              (classify_run facts o))
          (sym ran) (run-Says status)

    capable-Says :
        (capable : Bool)
        → Says
            ((capable && is_built facts.snapshot) && clean)
            ((capable && is_built facts.snapshot) && again)
            (classify_capable facts capable)
    unfolding classify_capable
    capable-Says false =
        fails FailureCategory.execution_isolation_unavailable
          TestProcessStatus.isolation_unavailable TestResult.error
    capable-Says true = snapshot-Says facts.snapshot

    decide-Says :
        (gate : PreflightStatus)
        → Says
            ((is_open gate && (facts.capability_available && is_built facts.snapshot)) && clean)
            ((is_open gate && (facts.capability_available && is_built facts.snapshot)) && again)
            (decide facts gate)
    unfolding decide preflight_category
    decide-Says PreflightStatus.passed = capable-Says facts.capability_available
    decide-Says PreflightStatus.cancelled = cancelled-Says facts TestProcessStatus.cancelled safe
    decide-Says PreflightStatus.identity_mismatch =
        fails FailureCategory.execution_boundary_failure TestProcessStatus.launch_failed
          TestResult.error
    decide-Says PreflightStatus.context_unavailable =
        fails FailureCategory.execution_boundary_failure TestProcessStatus.launch_failed
          TestResult.error
    decide-Says PreflightStatus.scope_violation =
        fails FailureCategory.execution_boundary_failure TestProcessStatus.launch_failed
          TestResult.error
    decide-Says PreflightStatus.command_policy_denied =
        fails FailureCategory.policy_violation TestProcessStatus.launch_failed TestResult.error
    decide-Says PreflightStatus.invalid_command =
        fails FailureCategory.invalid_command TestProcessStatus.launch_failed TestResult.error
    decide-Says PreflightStatus.budget_exhausted =
        fails FailureCategory.budget_exhausted TestProcessStatus.launch_failed TestResult.error

    -- On facts whose evidence is safe and that name a status of the run, the classifier raises nothing.
    -- Its verdict is a success exactly if every gate is open, the run completed with exit code 0 and the
    -- cleanup leaks nothing; it asks for a retry exactly if every gate is open and the isolation could
    -- not be set up, or the run not be launched, for one of the two transient reasons.
    pub classify_lem :
        Says
          (reaches_run facts
            && ran_clean facts.run_status facts.exit_code
            && not (leaks facts.cleanup))
          (reaches_run facts && failed_in_passing facts.run_status facts.backend_reason)
          (classify facts)
    unfolding classify reaches_run
    classify_lem =
        let (v, e, success, again_lem) = decide-Says facts.preflight in
        let (w, f, s, a) = cleanup-Says facts.cleanup v in
        (
          w,
          ap (λ r. r >>= after_cleanup facts facts.cleanup) e ∙ f,
          ground (arith, s, success),
          a ∙ again_lem,
        )
