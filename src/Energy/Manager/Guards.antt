-- ===== src/Energy/Manager/Guards.antt =====
-- The order of effects in `EnergyManager.execute` (energy/manager.py), and a settlement that raises.
use mathlib.Core.List.{append-nil, append_assoc}
use ant_orchestrator.Prelude.{
  ℕ, suc, ◌≤◌, ◌≡◌, refl, sym, ap, ◌∙◌, true, false, Option, none, some, List, [], ◌∷◌, ◌++◌,
  String, inl, inr, arith, Bool-cases, Option-cases, map,
}
use ant_orchestrator.Prelude.Equality.{string_eq}
use ant_orchestrator.Prelude.Dict.{get, get-put_self}
use ant_orchestrator.Energy.Port.{
  Amounts, any_negative, ok, raise, invariant_violation, EnergyDecision, EnergyActionPlan,
  EnergyActionResult, RoutingReason, reserved, route_local, use_deterministic_tool, use_cache,
  with_estimated_resources,
}
use ant_orchestrator.Energy.Ledger.{
  EnergyReservation, ConsumptionOutcome, ReservationLedger, consume, consume_active,
}
use ant_orchestrator.Energy.Ledger.Rules.{made, reserve_rule, get_active_of_reserved}
use ant_orchestrator.Energy.Enforcement.{
  is_allow, check_budget_coverage, uncovered, check_consumption, check_retry_limit,
  check_context_disposition,
}
use ant_orchestrator.Energy.Routing.{RoutingDecision, Snapshot, route}
use ant_orchestrator.Energy.Audit.{
  Route, model, deterministic, cache, AuditEvent, Effect, audited, ran, Services, at_reserve,
  write_all, pre_events, pre_execute, post_execute,
}
use ant_orchestrator.Energy.Manager.Parts.{
  ActionRun, gives, throws, Outcome, raised_error, World, safe_release, available_snapshot,
}
use ant_orchestrator.Energy.Manager.Local.{
  is_stop, finish, settle, run_model, audit_and_run, after_reserve, execute_local,
}
use ant_orchestrator.Energy.Manager.Accounts.{Result-cases}
use ant_orchestrator.Energy.Manager.{
  Actions, run_other, follow_route, downgrade_then_follow, is_downgrade, route_and_run, blocked,
  after_context, execute,
}

-- The ledger has an active reservation under the identifier.
abbrev pub HasActive : String → ReservationLedger → Type 0
HasActive rid l =
    (r : EnergyReservation) × (get rid l.reservations ≡ some r) × (r.status ≡ reserved)

-- Read from the left, with `n` events audited so far: a model action starts only once three events
-- are audited, over a ledger in which the reservation of this run is active.
abbrev pub Guarded : String → ℕ → List Effect → Type 0
Guarded rid n [] = Unit
Guarded rid n (audited e ∷ rest) = Guarded rid (suc n) rest
Guarded rid n (ran model l ∷ rest) = (3 ≤ n) × HasActive rid l × Guarded rid n rest
Guarded rid n (ran deterministic l ∷ rest) = Guarded rid n rest
Guarded rid n (ran cache l ∷ rest) = Guarded rid n rest

Guarded-audited :
    (rid : String) (n : ℕ) (es : List Effect) (e : AuditEvent)
    → Guarded rid n es
    → Guarded rid n (es ++ audited e ∷ [])
Guarded-audited rid n [] e g = tt
Guarded-audited rid n (audited a ∷ rest) e g = Guarded-audited rid (suc n) rest e g
Guarded-audited rid n (ran model l ∷ rest) e g = (g.0, g.1, Guarded-audited rid n rest e g.2)
Guarded-audited rid n (ran deterministic l ∷ rest) e g = Guarded-audited rid n rest e g
Guarded-audited rid n (ran cache l ∷ rest) e g = Guarded-audited rid n rest e g

Guarded-write_all :
    (rid : String) (env : Services) (events : List AuditEvent) (es : List Effect)
    → Guarded rid 0 es
    → Guarded rid 0 (write_all env events es).1
unfolding write_all
Guarded-write_all rid env [] es g = g
Guarded-write_all rid env (e ∷ events) es g = elim (Bool-cases (env.sink e)) [
  | inl h ↦
      rw (write_all, h)
        (Guarded-write_all rid env events (es ++ audited e ∷ []) (Guarded-audited rid 0 es e g))
  | inr h ↦ rw (write_all, h) g
]

-- A write that succeeds has put every event on record.
write_all_good :
    (env : Services) (events : List AuditEvent) (es : List Effect)
    → (write_all env events es).0 ≡ true
    → (write_all env events es).1 ≡ es ++ map audited events
unfolding write_all
write_all_good env [] es h = sym (append-nil es)
write_all_good env (e ∷ events) es h = elim (Bool-cases (env.sink e)) [
  | inl t ↦
      let rest : (write_all env events (es ++ audited e ∷ [])).0 ≡ true = rw (write_all, t) at h in
      rw (write_all, t)
        (write_all_good env events (es ++ audited e ∷ []) rest
          ∙ append_assoc es (audited e ∷ []) (map audited events))
  | inr f ↦ let q : false ≡ true = rw (write_all, f) at h in cc
]

abbrev Kept : String → Outcome × World → Type 0
Kept rid p = Guarded rid 0 p.1.effects

module _ (env : Services) (plan : EnergyActionPlan) (res : EnergyReservation) (rid : String) where
  finish-Kept :
      (result : EnergyActionResult) (outcome : ConsumptionOutcome) (w : World)
      → Guarded rid 0 w.effects
      → Kept rid (finish env plan res result outcome w)
  unfolding finish post_execute
  finish-Kept result outcome w g =
      let written : Guarded rid 0
          (post_execute env plan res result (check_consumption plan outcome) w.effects).1 =
        Guarded-write_all rid env _ w.effects g in
      elim (Bool-cases (is_stop (check_consumption plan outcome).decision)) [
        | inl e ↦ rw e written
        | inr e ↦ rw e written
      ]

  settle-Kept :
      (result : EnergyActionResult) (w : World)
      → Guarded rid 0 w.effects
      → Kept rid (settle env plan res result w)
  unfolding settle
  settle-Kept result w g =
      let l : ReservationLedger = (consume res.id result.actual w.ledger).1 in
      elim (consume res.id result.actual w.ledger).0
        as (λ r. Kept rid (elim r [
          | raise e ↦ (raised_error e, record w { ledger = l })
          | ok o ↦ finish env plan res result o (record w { ledger = l })
        ])) [ raise e ↦ g | ok o ↦ finish-Kept result o (record w { ledger = l }) g ]

  -- The three events are on record and the reservation is active.
  run_model-Kept :
      (action : Option ActionRun) (w : World)
      → Guarded rid 0 w.effects
      → Guarded rid 0 (w.effects ++ ran model w.ledger ∷ [])
      → Kept rid (run_model env plan res action w)
  unfolding run_model safe_release
  run_model-Kept none w g run = g
  run_model-Kept (some throws) w g run = run
  run_model-Kept (some (gives result)) w g run =
      settle-Kept result (record w { effects = w.effects ++ ran model w.ledger ∷ [] }) run

  audit_and_run-Kept :
      (action : Option ActionRun) (l : ReservationLedger)
      → HasActive rid l
      → Kept rid (audit_and_run env plan res action (record { ledger = l; effects = [] }))
  unfolding audit_and_run safe_release pre_execute
  audit_and_run-Kept action l active =
      let written : Guarded rid 0 (pre_execute env plan res []).1 =
        Guarded-write_all rid env (pre_events env plan res) [] tt in
      elim (Bool-cases (pre_execute env plan res []).0) [
        | inl e ↦
            let all : (pre_execute env plan res []).1 ≡ map audited (pre_events env plan res) =
              write_all_good env (pre_events env plan res) [] e in
            rw e (
              run_model-Kept action
                (record { ledger = l; effects = (pre_execute env plan res []).1 }) written
                (rw all (unfold pre_events in (omega arith, active, tt))))
        | inr e ↦ rw e written
      ]

module _ (env : Services) (l : ReservationLedger) where
  abbrev fresh_start : World
  fresh_start = record { ledger = l; effects = [] }

  execute_local-Kept :
      (plan : EnergyActionPlan) (action : Option ActionRun)
      → Kept env.new_id (execute_local env plan action fresh_start)
  unfolding execute_local after_reserve check_budget_coverage
  execute_local-Kept plan action = elim (Bool-cases (uncovered plan.required_resources l.budget)) [
    | inl e ↦ rw e tt
    | inr e ↦ rw e (
        reserve_rule
          (λ p.
            Kept env.new_id
              (after_reserve env plan action p.0 (record { ledger = p.1; effects = [] })))
          env.new_id (env.now at_reserve) plan.estimated_resources l (λ x. tt)
          λ fresh _ fine.
            let res : EnergyReservation =
              made env.new_id (env.now at_reserve) plan.estimated_resources in
            audit_and_run-Kept env plan res env.new_id action _
              (res, get-put_self env.new_id res l.reservations, refl))
  ]

  run_other-Kept :
      (which : Route) (d : EnergyDecision) (reason : RoutingReason) (action : Option ActionRun)
      → ((m : ReservationLedger) → Guarded env.new_id 0 (ran which m ∷ []))
      → Kept env.new_id (run_other which d reason action fresh_start)
  unfolding run_other
  run_other-Kept which d reason none free = tt
  run_other-Kept which d reason (some throws) free = free l
  run_other-Kept which d reason (some (gives x)) free = free l

  follow_route-Kept :
      (d : EnergyDecision) (r : RoutingDecision) (plan : EnergyActionPlan) (s : Snapshot)
      (actions : Actions)
      → Kept env.new_id (follow_route d r env plan s actions fresh_start)
  unfolding follow_route
  follow_route-Kept use_deterministic_tool r plan s actions =
      run_other-Kept deterministic _ _ actions.deterministic_action (λ m. tt)
  follow_route-Kept use_cache r plan s actions =
      run_other-Kept cache _ _ actions.cache_action (λ m. tt)
  follow_route-Kept route_local r plan s actions = execute_local-Kept plan actions.model_action
  follow_route-Kept _ r plan s actions = tt

  downgraded-Kept :
      (o : Option Amounts) (plan : EnergyActionPlan) (r : RoutingDecision) (s : Snapshot)
      (actions : Actions)
      → Kept env.new_id (downgrade_then_follow o env plan r s actions fresh_start)
  unfolding downgrade_then_follow
  downgraded-Kept none plan r s actions = follow_route-Kept r.decision r plan s actions
  downgraded-Kept (some xs) plan r s actions =
      elim (Result-cases (with_estimated_resources plan xs)) [
        | inl (e, h) ↦ rw (downgrade_then_follow, h) tt
        | inr (q, h) ↦
            let again : RoutingDecision = route q l.budget (available_snapshot q l) in
            rw (downgrade_then_follow, h) (follow_route-Kept again.decision again q s actions)
      ]

  route_and_run-Kept :
      (plan : EnergyActionPlan) (actions : Actions)
      → Kept env.new_id (route_and_run env plan actions fresh_start)
  unfolding route_and_run
  route_and_run-Kept plan actions =
      let s : Snapshot = available_snapshot plan l in
      let r : RoutingDecision = route plan l.budget s in
      elim (Bool-cases (is_downgrade r.decision)) [
        | inl e ↦ rw e (downgraded-Kept r.downgrade_resources plan r s actions)
        | inr e ↦ rw e (follow_route-Kept r.decision r plan s actions)
      ]

  after_context-Kept :
      (plan : EnergyActionPlan) (actions : Actions)
      → Kept env.new_id (after_context env plan actions fresh_start)
  unfolding after_context blocked
  after_context-Kept plan actions = elim (Bool-cases (is_allow (check_retry_limit plan).decision)) [
    | inl e ↦ rw e (route_and_run-Kept plan actions)
    | inr e ↦ rw e tt
  ]

-- On any ledger and from an empty record of effects: whatever `execute` does, and however it ends, a
-- model action is started only once the reservation of this run is active in the ledger and three
-- events are on record.
pub model_runs-Guarded :
    (env : Services) (plan : EnergyActionPlan) (actions : Actions) (l : ReservationLedger)
    → Guarded env.new_id 0
        (execute env plan actions (record { ledger = l; effects = [] })).1.effects
unfolding execute blocked
model_runs-Guarded env plan actions l = elim (Option-cases plan.context_disposition) [
  | inl e ↦ rw (execute, e) (after_context-Kept env l plan actions)
  | inr (d, e) ↦ elim (Bool-cases (is_allow (check_context_disposition d).decision)) [
    | inl a ↦ rw (execute, e, a) (after_context-Kept env l plan actions)
    | inr a ↦ rw (execute, e, a) tt
  ]
]

consume_of_negative :
    (rid : String) (ys : Amounts) (l : ReservationLedger) (r : EnergyReservation)
    → get rid l.reservations ≡ some r
    → r.status ≡ reserved
    → any_negative ys ≡ true
    → consume rid ys l ≡ (raise invariant_violation, l)
unfolding consume consume_active
consume_of_negative rid ys l r there active bad =
    rw (consume, get_active_of_reserved rid l r there active, consume_active, bad) refl

-- For an active reservation, a model action whose result has a negative actual amount makes the
-- settlement raise, and leaves the world as it is: nothing releases the reservation.
pub negative_actual_leaks :
    (env : Services) (plan : EnergyActionPlan) (res : EnergyReservation)
    (result : EnergyActionResult) (w : World)
    → get res.id w.ledger.reservations ≡ some res
    → res.status ≡ reserved
    → any_negative result.actual ≡ true
    → settle env plan res result w ≡ (raised_error invariant_violation, w)
unfolding settle
negative_actual_leaks env plan res result w there active bad =
    ap
      (λ p. elim p.0 [
        | raise e ↦ (raised_error e, record w { ledger = p.1 })
        | ok o ↦ finish env plan res result o (record w { ledger = p.1 })
      ])
      (consume_of_negative res.id result.actual w.ledger res there active bad)
