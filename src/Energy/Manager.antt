-- ===== src/Energy/Manager.antt =====
-- energy/manager.py: the facade that gates, routes, reserves, audits, runs and settles one action.
pub mod Parts
pub mod Local
pub mod Guards
pub mod Charges
pub mod Accounts
use ant_orchestrator.Prelude.{
  ℕ, Bool, true, false, not, Option, none, some, List, [], ◌∷◌, ◌++◌, String, if◌then◌else◌,
}
use ant_orchestrator.Prelude.Int.{ℤ, pos, ltb_ℤ, ◌-ℤ◌}
use ant_orchestrator.Prelude.Dict.{Dict, put}
use ant_orchestrator.Energy.Port.{
  ResourceKind, kind_is_eq, Amounts, Result, ok, raise, EnergyError, EnergyDecision, RoutingReason,
  EnforcementReason, ApprovalReason, EnergyActionPlan, EnergyActionResult, ApprovalRequest,
  with_estimated_resources, allow, use_deterministic_tool, use_cache, route_local, escalate_cloud,
  downgrade, pending_approval, reject, stop, action_rejected,
}
use ant_orchestrator.Energy.Ledger.{
  EnergyReservation, ConsumptionOutcome, ReservationLedger, amount_of, reserve, consume, release,
  available,
}
use ant_orchestrator.Energy.Enforcement.{
  EnforcementDecision, is_allow, check_budget_coverage, check_consumption,
  check_context_disposition, check_retry_limit,
}
use ant_orchestrator.Energy.Routing.{RoutingDecision, Snapshot, available_in, route}
use ant_orchestrator.Energy.Audit.{
  Route, model, deterministic, cache, Effect, ran, Services, at_reserve, at_approval, pre_execute,
  post_execute,
}
use ant_orchestrator.Energy.Manager.Parts.{
  Reason, routing, enforcement, EnergyManagerResult, ActionRun, gives, throws, Outcome, returned,
  raised_error, action_raised, World, plain, build_approval, build_approval_from_routing,
  available_snapshot,
}
use ant_orchestrator.Energy.Manager.Local.{execute_local}

-- `EnergyActionResult(actual={}, side_effect_started=False)`
abbrev pub nothing_run : EnergyActionResult
nothing_run = record { actual = []; side_effect_started = false }

-- A route that runs no model: the action runs with no reservation, and its exception passes.
unfoldable pub run_other :
    Route → EnergyDecision → RoutingReason → Option ActionRun → World → Outcome × World
run_other which decision reason none w =
    (returned (record (plain decision (routing reason)) { action_result = some nothing_run }), w)
run_other which decision reason (some throws) w =
    (action_raised, record w { effects = w.effects ++ ran which w.ledger ∷ [] })
run_other which decision reason (some (gives result)) w = (
  returned (record (plain decision (routing reason)) { action_result = some result }),
  record w { effects = w.effects ++ ran which w.ledger ∷ [] },
)

-- The three actions that a caller may hand over.
pub record Actions : Type 0 where
  pub model_action : Option ActionRun
  pub deterministic_action : Option ActionRun
  pub cache_action : Option ActionRun

-- Steps 5 and 6 of `execute`, by the decision of the route.
unfoldable pub follow_route :
    EnergyDecision
    → RoutingDecision
    → Services
    → EnergyActionPlan
    → Snapshot
    → Actions
    → World
    → Outcome × World
follow_route use_deterministic_tool r env plan snapshot actions w =
    run_other deterministic use_deterministic_tool RoutingReason.deterministic_available
      actions.deterministic_action w
follow_route use_cache r env plan snapshot actions w =
    run_other cache use_cache RoutingReason.cache_hit actions.cache_action w
follow_route pending_approval r env plan snapshot actions w = (
  returned (record (plain pending_approval (routing r.reason)) {
    approval_request = some (build_approval_from_routing env plan w.ledger r snapshot);
  }),
  w,
)
follow_route reject r env plan snapshot actions w = (returned (plain reject (routing r.reason)), w)
follow_route route_local r env plan snapshot actions w =
    execute_local env plan actions.model_action w
follow_route _ r env plan snapshot actions w =
    (returned (plain reject (routing RoutingReason.route_not_eligible)), w)

abbrev pub is_downgrade : EnergyDecision → Bool
is_downgrade downgrade = true
is_downgrade _ = false

-- Step 4: one downgrade, and the route of the plan that it gives. The approval of a later step
-- still reads the first snapshot.
unfoldable pub downgrade_then_follow :
    Option Amounts
    → Services
    → EnergyActionPlan
    → RoutingDecision
    → Snapshot
    → Actions
    → World
    → Outcome × World
downgrade_then_follow none env plan r snapshot actions w =
    follow_route r.decision r env plan snapshot actions w
downgrade_then_follow (some amounts) env plan r snapshot actions w =
    elim (with_estimated_resources plan amounts) [
      | raise e ↦ (raised_error e, w)
      | ok lighter ↦
          let again = route lighter w.ledger.budget (available_snapshot lighter w.ledger) in
          follow_route again.decision again env lighter snapshot actions w
    ]

-- Steps 3 to 6.
unfoldable pub route_and_run : Services → EnergyActionPlan → Actions → World → Outcome × World
route_and_run env plan actions w =
    let snapshot = available_snapshot plan w.ledger in
    let r = route plan w.ledger.budget snapshot in
    if is_downgrade r.decision
    then downgrade_then_follow r.downgrade_resources env plan r snapshot actions w
    else follow_route r.decision r env plan snapshot actions w

-- What a failed check of steps 1 and 2 answers: an approval where the check names a reason for one.
unfoldable pub blocked : Services → EnergyActionPlan → EnforcementDecision → World → Outcome × World
blocked env plan check w = (
  returned (record (plain check.decision (enforcement check.reason)) {
    approval_request = elim check.approval_reason [
      | none ↦ none
      | some reason ↦ some (build_approval env plan w.ledger reason [] route_local)
    ];
  }),
  w,
)

-- Step 2, then the rest.
unfoldable pub after_context : Services → EnergyActionPlan → Actions → World → Outcome × World
after_context env plan actions w =
    let retry = check_retry_limit plan in
    if is_allow retry.decision then route_and_run env plan actions w else blocked env plan retry w

-- `execute`. A context check that asks for approval always names its reason, so that step 1 answers
-- as step 2 does.
unfoldable pub execute : Services → EnergyActionPlan → Actions → World → Outcome × World
execute env plan actions w = elim plan.context_disposition [
  | none ↦ after_context env plan actions w
  | some disposition ↦
      let context = check_context_disposition disposition in
      if is_allow context.decision
      then after_context env plan actions w
      else blocked env plan context w
]
