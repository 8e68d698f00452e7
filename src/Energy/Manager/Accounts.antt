-- ===== src/Energy/Manager/Accounts.antt =====
-- The books after `EnergyManager.execute` (energy/manager.py): what a returned result has charged.
use ant_orchestrator.Prelude.{
  ◌≡◌, ◌⊎◌, refl, Option, none, some, List, inl, inr, arith, Bool-cases, Option-cases,
}
use ant_orchestrator.Prelude.Equality.{string_eq}
use ant_orchestrator.Prelude.Dict.{NodupKeys}
use ant_orchestrator.Energy.Port.{
  kind_is_eq, Amounts, Result, ok, raise, EnergyError, EnergyDecision, EnergyBudget, RoutingReason,
  EnergyActionPlan, EnergyActionResult, use_deterministic_tool, use_cache, route_local, allow, stop,
  with_estimated_resources,
}
use ant_orchestrator.Energy.Ledger.{ReservationLedger}
use ant_orchestrator.Energy.Ledger.Rules.{reserve_rule}
use ant_orchestrator.Energy.Ledger.Invariant.{IsValid}
use ant_orchestrator.Energy.Enforcement.{
  uncovered, EnforcementDecision, is_allow, check_budget_coverage, check_retry_limit,
  check_context_disposition,
}
use ant_orchestrator.Energy.Routing.{RoutingDecision, Snapshot, route}
use ant_orchestrator.Energy.Routing.Laws.{route_downgrade}
use ant_orchestrator.Energy.Audit.{Route, Effect, Services, at_reserve}
use ant_orchestrator.Energy.Manager.Parts.{ActionRun, gives, throws, World, available_snapshot}
use ant_orchestrator.Energy.Manager.Local.{after_reserve, execute_local}
use ant_orchestrator.Energy.Manager.{
  nothing_run, is_downgrade, Actions, run_other, follow_route, downgrade_then_follow, route_and_run,
  blocked, after_context, execute,
}
use ant_orchestrator.Energy.Manager.Charges.{
  amounts_or_nothing, charge, Accounted, uncharged, audit_and_run-Accounted,
}

charge-none : (d : EnergyDecision) → charge d none ≡ none
charge-none allow = refl
charge-none stop = refl
charge-none _ = refl

lighter_estimates :
    (plan q : EnergyActionPlan) (xs : Amounts)
    → with_estimated_resources plan xs ≡ ok q
    → q.estimated_resources ≡ xs
unfolding with_estimated_resources
lighter_estimates plan q xs h = ground arith

pub Result-cases {ℓ} :
    {A : Type ℓ} (r : Result A) → ((e : EnergyError) × (r ≡ raise e)) ⊎ ((a : A) × (r ≡ ok a))
Result-cases (ok a) = inr (a, refl)
Result-cases (raise e) = inl (e, refl)

-- What the caller hands over: dicts, one after a downgrade.
abbrev pub HasDicts : EnergyActionPlan → Type 0
HasDicts plan =
    NodupKeys plan.estimated_resources × NodupKeys (amounts_or_nothing plan.downgrade_resources)

module _ (env : Services) (l : ReservationLedger) (v : IsValid l) (es : List Effect) where
  abbrev start : World
  start = record { ledger = l; effects = es }

  execute_local-Accounted :
      (plan : EnergyActionPlan) (action : Option ActionRun)
      → NodupKeys plan.estimated_resources
      → Accounted l (execute_local env plan action start)
  unfolding execute_local after_reserve check_budget_coverage
  execute_local-Accounted plan action u =
      elim (Bool-cases (uncovered plan.required_resources l.budget)) [
        | inl e ↦ rw e (uncharged l v)
        | inr e ↦ rw e (
            reserve_rule
              (λ p.
                Accounted l
                  (after_reserve env plan action p.0 (record { ledger = p.1; effects = es })))
              env.new_id (env.now at_reserve) plan.estimated_resources l (λ x. uncharged l v)
              (λ fresh _ fine. audit_and_run-Accounted env plan l v u fresh fine action es))
      ]

  run_other-Accounted :
      (which : Route) (d : EnergyDecision) (reason : RoutingReason) (action : Option ActionRun)
      → ((x : EnergyActionResult) → charge d (some x) ≡ none)
      → Accounted l (run_other which d reason action start)
  unfolding run_other
  run_other-Accounted which d reason none free = rw (free nothing_run) (uncharged l v)
  run_other-Accounted which d reason (some throws) free = uncharged l v
  run_other-Accounted which d reason (some (gives x)) free = rw (free x) (uncharged l v)

  follow_route-Accounted :
      (d : EnergyDecision) (r : RoutingDecision) (plan : EnergyActionPlan) (s : Snapshot)
      (actions : Actions)
      → NodupKeys plan.estimated_resources
      → Accounted l (follow_route d r env plan s actions start)
  unfolding follow_route
  follow_route-Accounted use_deterministic_tool r plan s actions u =
      run_other-Accounted _ _ _ actions.deterministic_action (λ x. refl)
  follow_route-Accounted use_cache r plan s actions u =
      run_other-Accounted _ _ _ actions.cache_action (λ x. refl)
  follow_route-Accounted route_local r plan s actions u =
      execute_local-Accounted plan actions.model_action u
  follow_route-Accounted _ r plan s actions u = uncharged l v

  blocked-Accounted :
      (plan : EnergyActionPlan) (check : EnforcementDecision)
      → Accounted l (blocked env plan check start)
  unfolding blocked
  blocked-Accounted plan check = rw (charge-none check.decision) (uncharged l v)

  downgraded-Accounted :
      (o : Option Amounts) (plan : EnergyActionPlan) (r : RoutingDecision) (s : Snapshot)
      (actions : Actions)
      → NodupKeys plan.estimated_resources
      → NodupKeys (amounts_or_nothing o)
      → Accounted l (downgrade_then_follow o env plan r s actions start)
  unfolding downgrade_then_follow
  downgraded-Accounted none plan r s actions u w =
      follow_route-Accounted r.decision r plan s actions u
  downgraded-Accounted (some xs) plan r s actions u w =
      elim (Result-cases (with_estimated_resources plan xs)) [
        | inl (e, h) ↦ rw (downgrade_then_follow, h) tt
        | inr (q, h) ↦
            let again : RoutingDecision = route q l.budget (available_snapshot q l) in
            rw (downgrade_then_follow, h)
              (follow_route-Accounted again.decision again q s actions
                (rw (lighter_estimates plan q xs h) w))
      ]

  downgrade_dict :
      (plan : EnergyActionPlan) (b : EnergyBudget) (s : Snapshot)
      → NodupKeys (amounts_or_nothing plan.downgrade_resources)
      → NodupKeys (amounts_or_nothing (route plan b s).downgrade_resources)
  downgrade_dict plan b s w = elim (route_downgrade plan b s) [ inl e ↦ rw e tt | inr e ↦ rw e w ]

  route_and_run-Accounted :
      (plan : EnergyActionPlan) (actions : Actions)
      → HasDicts plan
      → Accounted l (route_and_run env plan actions start)
  unfolding route_and_run
  route_and_run-Accounted plan actions u =
      let s : Snapshot = available_snapshot plan l in
      let r : RoutingDecision = route plan l.budget s in
      elim (Bool-cases (is_downgrade r.decision)) [
        | inl e ↦ rw e (
            downgraded-Accounted r.downgrade_resources plan r s actions u.0
              (downgrade_dict plan l.budget s u.1))
        | inr e ↦ rw e (follow_route-Accounted r.decision r plan s actions u.0)
      ]

  after_context-Accounted :
      (plan : EnergyActionPlan) (actions : Actions)
      → HasDicts plan
      → Accounted l (after_context env plan actions start)
  unfolding after_context
  after_context-Accounted plan actions u =
      elim (Bool-cases (is_allow (check_retry_limit plan).decision)) [
        | inl e ↦ rw e (route_and_run-Accounted plan actions u)
        | inr e ↦ rw e (blocked-Accounted plan (check_retry_limit plan))
      ]

-- On a valid ledger, for a plan whose amounts are dicts, `execute` keeps the books exact: where it
-- returns a result, or a tool or cache action throws, the ledger is valid and holds of each kind what
-- it held before plus what the result reports as used by a model action, which is nothing unless the
-- decision is ALLOW or STOP with an action result. It says nothing of an exception of the component.
pub execute-Accounted :
    (env : Services) (plan : EnergyActionPlan) (actions : Actions) (w : World)
    → IsValid w.ledger
    → HasDicts plan
    → Accounted w.ledger (execute env plan actions w)
unfolding execute
execute-Accounted env plan actions w v u = elim (Option-cases plan.context_disposition) [
  | inl e ↦ rw (execute, e) (after_context-Accounted env w.ledger v w.effects plan actions u)
  | inr (d, e) ↦ elim (Bool-cases (is_allow (check_context_disposition d).decision)) [
    | inl a ↦ rw (execute, e, a) (after_context-Accounted env w.ledger v w.effects plan actions u)
    | inr a ↦
        rw (execute, e, a)
          (blocked-Accounted env w.ledger v w.effects plan (check_context_disposition d))
  ]
]
