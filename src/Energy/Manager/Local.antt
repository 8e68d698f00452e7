-- ===== src/Energy/Manager/Local.antt =====
-- energy/manager.py, `_execute_local`: reserve, audit, run, settle.
use ant_orchestrator.Prelude.{
  Bool, true, false, not, Option, none, some, [], ◌∷◌, ◌++◌, if◌then◌else◌,
}
use ant_orchestrator.Prelude.Int.{pos, ltb_ℤ}
use ant_orchestrator.Energy.Port.{
  kind_is_eq, Amounts, Result, ok, raise, EnergyDecision, RoutingReason, EnforcementReason,
  ApprovalReason, EnergyActionPlan, EnergyActionResult, allow, route_local, pending_approval,
  reject, stop,
}
use ant_orchestrator.Energy.Ledger.{EnergyReservation, ConsumptionOutcome, reserve, consume}
use ant_orchestrator.Energy.Enforcement.{is_allow, check_budget_coverage, check_consumption}
use ant_orchestrator.Energy.Audit.{model, ran, Services, at_reserve, pre_execute, post_execute}
use ant_orchestrator.Energy.Manager.Parts.{
  routing, enforcement, ActionRun, gives, throws, Outcome, returned, raised_error, World, plain,
  build_approval, safe_release,
}

abbrev pub is_stop : EnergyDecision → Bool
is_stop stop = true
is_stop _ = false

-- `{k: v for k, v in outcome.excess.items() if v > 0}`
unfoldable pub positive_only : Amounts → Amounts
positive_only [] = []
positive_only ((kind, v) ∷ rest) =
    let tail = positive_only rest in if ltb_ℤ (pos 0) v then (kind, v) ∷ tail else tail

-- The end of `_execute_local`, once consumption is settled.
unfoldable pub finish :
    Services
    → EnergyActionPlan
    → EnergyReservation
    → EnergyActionResult
    → ConsumptionOutcome
    → World
    → Outcome × World
finish env plan res result outcome w =
    let verdict = check_consumption plan outcome in
    let (good, effects) = post_execute env plan res result verdict w.effects in
    let w' : World = record w { effects = effects } in
    if is_stop verdict.decision
    then (
      returned (record {
        decision = stop;
        reason = enforcement EnforcementReason.runtime_budget_exceeded;
        approval_request = some (
            build_approval env plan w.ledger ApprovalReason.runtime_budget_exceeded
              (positive_only outcome.excess) route_local);
        action_result = some result;
        reservation_id = some res.id;
        audit_failure = not good;
      }),
      w',
    )
    else (
      returned (record {
        decision = allow;
        reason = routing RoutingReason.local_capable;
        approval_request = none;
        action_result = some result;
        reservation_id = some res.id;
        audit_failure = not good;
      }),
      w',
    )

-- The settlement of an action that gave a result.
unfoldable pub settle :
    Services → EnergyActionPlan → EnergyReservation → EnergyActionResult → World → Outcome × World
settle env plan res result w =
    let (r, l) = consume res.id result.actual w.ledger in
    let w' : World = record w { ledger = l } in
    elim r [ raise e ↦ (raised_error e, w') | ok outcome ↦ finish env plan res result outcome w' ]

-- The audited reservation stands: run the action, if there is one.
unfoldable pub run_model :
    Services → EnergyActionPlan → EnergyReservation → Option ActionRun → World → Outcome × World
run_model env plan res none w = (
  returned
      (record (plain allow (routing RoutingReason.local_capable)) { reservation_id = some res.id }),
  safe_release res.id w,
)
run_model env plan res (some throws) w = (
  returned (record (plain reject (enforcement EnforcementReason.reservation_rejected)) {
    reservation_id = some res.id;
  }),
  safe_release res.id (record w { effects = w.effects ++ ran model w.ledger ∷ [] }),
)
run_model env plan res (some (gives result)) w =
    settle env plan res result (record w { effects = w.effects ++ ran model w.ledger ∷ [] })

-- The reservation is made: audit it, then run.
unfoldable pub audit_and_run :
    Services → EnergyActionPlan → EnergyReservation → Option ActionRun → World → Outcome × World
audit_and_run env plan res action w =
    let (good, effects) = pre_execute env plan res w.effects in
    let w' : World = record w { effects = effects } in
    if good then run_model env plan res action w' else (
      returned (record (plain reject (enforcement EnforcementReason.reservation_rejected)) {
        reservation_id = some res.id;
        audit_failure = true;
      }),
      safe_release res.id w',
    )

-- `enforcement.approval_reason or ApprovalReason.BUDGET_INSUFFICIENT`
abbrev pub reason_or_insufficient : Option ApprovalReason → ApprovalReason
reason_or_insufficient none = ApprovalReason.budget_insufficient
reason_or_insufficient (some r) = r

-- `_execute_local` from the answer of `reserve`, any exception of which is caught.
unfoldable pub after_reserve :
    Services
    → EnergyActionPlan
    → Option ActionRun
    → Result EnergyReservation
    → World
    → Outcome × World
after_reserve env plan action (raise e) w = (
  returned (record (plain pending_approval (enforcement EnforcementReason.reservation_rejected)) {
    approval_request =
        some (build_approval env plan w.ledger ApprovalReason.budget_insufficient [] route_local);
  }),
  w,
)
after_reserve env plan action (ok res) w = audit_and_run env plan res action w

-- `_execute_local`
unfoldable pub execute_local :
    Services → EnergyActionPlan → Option ActionRun → World → Outcome × World
execute_local env plan action w =
    let coverage = check_budget_coverage plan w.ledger.budget in
    if is_allow coverage.decision
    then (let (r, l) = reserve env.new_id (env.now at_reserve) plan.estimated_resources w.ledger in
        after_reserve env plan action r (record w { ledger = l }))
    else (
      returned (record (plain coverage.decision (enforcement coverage.reason)) {
        approval_request = some (
            build_approval env plan w.ledger (reason_or_insufficient coverage.approval_reason) []
              route_local);
      }),
      w,
    )
