-- ===== src/Energy/Settlement/Once.antt =====
-- Sequences of calls on the lifecycle of energy/worker_lifecycle.py, and its fallback charge.
use ant_orchestrator.Prelude.{
  ◌≡◌, refl, sym, ap, ◌∙◌, Bool, ◌||◌, true, false, Option, none, some, List, [], ◌∷◌, String, inl,
  inr, arith, Bool-cases, if◌then◌else◌,
}
use mathlib.Core.Option.{some-injective}
use ant_orchestrator.Prelude.Text.{is_blank}
use ant_orchestrator.Prelude.Equality.{string_eq, ◌≟◌}
use ant_orchestrator.Prelude.Int.{ℤ, ltb_ℤ}
use ant_orchestrator.Prelude.Dict.{get, put, get-put, get-put_self}
use ant_orchestrator.Energy.Settlement.{
  ModelUsage, unavailable, ReservationState, tokens_or_zero, compute_consumption, EnergySettlement,
  SettlementOutcome, EnergyLifecycle, reserve, invalidate, reserved_tokens_of, settlement_of,
  new_settlement, settle_from, settle,
}

pub data LifecycleCall : Type 0 where
  reserve_call : String → ℤ → LifecycleCall
  invalidate_call : String → LifecycleCall
  settle_call : String → String → ModelUsage → LifecycleCall

abbrev pub call : LifecycleCall → EnergyLifecycle → EnergyLifecycle
call (reserve_call ref tokens) l = (reserve ref tokens l).1
call (invalidate_call ref) l = invalidate ref l
call (settle_call ref invocation usage) l = (settle ref invocation usage l).1

abbrev pub run_calls : List LifecycleCall → EnergyLifecycle → EnergyLifecycle
run_calls [] l = l
run_calls (c ∷ cs) l = run_calls cs (call c l)

settle_from_keeps :
    (o : Option EnergySettlement) (ref invocation : String) (usage : ModelUsage)
    (l : EnergyLifecycle) (id : String) (x : EnergySettlement)
    → get invocation l.settled ≡ o
    → get id l.settled ≡ some x
    → get id (settle_from o ref invocation usage l).1.settled ≡ some x
unfolding settle_from
settle_from_keeps (some y) ref invocation usage l id x e h = h
settle_from_keeps none ref invocation usage l id x e h = elim (Bool-cases (id ≟ invocation)) [
  | inl q ↦
      let clash : none ≡ some x =
        sym e ∙ ap (λ k. get k l.settled) (sym ((string_eq.beq_iff id invocation).0 q)) ∙ h in
      absurd cc
  | inr q ↦ get-put invocation id _ l.settled ∙ (rw q h)
]

settle_keeps :
    (ref invocation : String) (usage : ModelUsage) (l : EnergyLifecycle) (id : String)
    (x : EnergySettlement)
    → get id l.settled ≡ some x
    → get id (settle ref invocation usage l).1.settled ≡ some x
unfolding settle
settle_keeps ref invocation usage l id x h =
    elim (is_blank invocation)
      as (λ b.
        get id
          (if b
            then (none, l)
            else settle_from (get invocation l.settled) ref invocation usage l).1.settled
        ≡ some x) [
          | true ↦ h
          | false ↦ settle_from_keeps (get invocation l.settled) ref invocation usage l id x refl h
        ]

call_keeps :
    (c : LifecycleCall) (l : EnergyLifecycle) (id : String) (x : EnergySettlement)
    → get id l.settled ≡ some x
    → get id (call c l).settled ≡ some x
unfolding reserve invalidate
call_keeps (reserve_call ref tokens) l id x h = ground arith
call_keeps (invalidate_call ref) l id x h = ground arith
call_keeps (settle_call ref invocation usage) l id x h = settle_keeps ref invocation usage l id x h

run_calls_keep :
    (cs : List LifecycleCall) (l : EnergyLifecycle) (id : String) (x : EnergySettlement)
    → get id l.settled ≡ some x
    → get id (run_calls cs l).settled ≡ some x
run_calls_keep [] l id x h = h
run_calls_keep (c ∷ cs) l id x h = run_calls_keep cs (call c l) id x (call_keeps c l id x h)

-- Once an invocation is settled, then after any further calls, to settle it again answers the same
-- settlement and changes nothing, whatever usage is reported.
pub settled_for_good :
    (cs : List LifecycleCall) (l : EnergyLifecycle) (ref id : String) (usage : ModelUsage)
    (x : EnergySettlement)
    → get id l.settled ≡ some x
    → is_blank id ≡ false
    → settle ref id usage (run_calls cs l) ≡ (some x, run_calls cs l)
unfolding settle settle_from
settled_for_good cs l ref id usage x h b =
    rw b (ap (λ o. settle_from o ref id usage (run_calls cs l)) (run_calls_keep cs l id x h))

falls_back :
    (usage : ModelUsage) (r : ℤ)
    → usage.status ≡ unavailable
    → compute_consumption usage r ≡ (r, true)
unfolding compute_consumption
falls_back usage r s = rw s refl

not_over : (r : ℤ) → ltb_ℤ r r ≡ false
unfolding ltb_ℤ
not_over r = ground arith

exactly_reserved :
    (id : String) (r : ℤ)
    → settlement_of id r (r, true) ≡ record {
      outcome = SettlementOutcome.settled;
      actual_tokens = r;
      fallback_used = true;
      reason = "conservative fallback";
      settlement_ref = id;
    }
unfolding settlement_of
exactly_reserved id r = rw (not_over r) refl

-- The reservation that a call makes.
abbrev pub reserves : String → LifecycleCall → Bool
reserves ref (reserve_call other tokens) = ref ≟ other
reserves ref (invalidate_call other) = false
reserves ref (settle_call other invocation usage) = false

abbrev pub reserves_again : String → List LifecycleCall → Bool
reserves_again ref [] = false
reserves_again ref (c ∷ cs) = reserves ref c || reserves_again ref cs

-- A reservation of so many tokens, valid or not.
abbrev Holds : String → ℤ → EnergyLifecycle → Type 0
Holds ref tokens l =
    (s : ReservationState) × (get ref l.reservations ≡ some s) × (s.reserved_tokens ≡ tokens)

reserve_stores :
    (ref : String) (tokens : ℤ) (l : EnergyLifecycle)
    → (reserve ref tokens l).0 ≡ true
    → get ref (reserve ref tokens l).1.reservations
      ≡ some (record { reserved_tokens = tokens; valid = true })
unfolding reserve
reserve_stores ref tokens l h =
    ground
      (arith, get-put_self ref (record { reserved_tokens = tokens; valid = true }) l.reservations)

reserve_keeps :
    (ref other : String) (more : ℤ) (l : EnergyLifecycle)
    → (ref ≟ other) ≡ false
    → get ref (reserve other more l).1.reservations ≡ get ref l.reservations
unfolding reserve
reserve_keeps ref other more l apart =
    ground
      (arith, get-put other ref (record { reserved_tokens = more; valid = true }) l.reservations)

invalidate-Holds :
    (ref other : String) (tokens : ℤ) (l : EnergyLifecycle)
    → Holds ref tokens l
    → Holds ref tokens (invalidate other l)
unfolding invalidate
invalidate-Holds ref other tokens l (s, found, same) =
    elim (get other l.reservations)
        as (λ o.
          (get other l.reservations ≡ o)
          → Holds ref tokens (elim o [
            | none ↦ l
            | some r ↦ record l {
              reservations = put other (record r { valid = false }) l.reservations;
            }
          ])) [
            | none ↦ λ e. (s, found, same)
            | some r ↦ λ e.
                let put_lem = get-put other ref (record r { valid = false }) l.reservations in
                elim (Bool-cases (ref ≟ other)) [
                  | inl q ↦ (
                    record r { valid = false },
                    put_lem ∙ (rw q refl),
                    ap (λ (x : ReservationState). x.reserved_tokens)
                          (some-injective r s (
                            sym e
                            ∙ ap (λ k. get k l.reservations)
                                (sym ((string_eq.beq_iff ref other).0 q))
                            ∙ found))
                        ∙ same,
                  )
                  | inr q ↦ (s, put_lem ∙ (rw q found), same)
                ]
          ]
      refl

settle_reservations :
    (ref invocation : String) (usage : ModelUsage) (l : EnergyLifecycle)
    → (settle ref invocation usage l).1.reservations ≡ l.reservations
unfolding settle settle_from
settle_reservations ref invocation usage l = ground arith

call-Holds :
    (c : LifecycleCall) (ref : String) (tokens : ℤ) (l : EnergyLifecycle)
    → reserves ref c ≡ false
    → Holds ref tokens l
    → Holds ref tokens (call c l)
call-Holds (reserve_call other more) ref tokens l apart h =
    let (s, found, same) = h in (s, reserve_keeps ref other more l apart ∙ found, same)
call-Holds (invalidate_call other) ref tokens l apart h = invalidate-Holds ref other tokens l h
call-Holds (settle_call other id usage) ref tokens l apart (s, found, same) =
    (s, ap (get ref) (settle_reservations other id usage l) ∙ found, same)

or_false : (a b : Bool) → (a || b) ≡ false → (a ≡ false) × (b ≡ false)
or_false a b h = ground arith

run_calls-Holds :
    (cs : List LifecycleCall) (ref : String) (tokens : ℤ) (l : EnergyLifecycle)
    → reserves_again ref cs ≡ false
    → Holds ref tokens l
    → Holds ref tokens (run_calls cs l)
run_calls-Holds [] ref tokens l apart h = h
run_calls-Holds (c ∷ cs) ref tokens l apart h =
    let (here, later) = or_false (reserves ref c) (reserves_again ref cs) apart in
    run_calls-Holds cs ref tokens (call c l) later (call-Holds c ref tokens l here h)

-- Once a reservation has been made, then after any further calls that do not make it anew, be it
-- invalidated or charged by other invocations, an invocation that is not settled yet and whose usage
-- is unavailable is charged exactly the tokens that were reserved, as settled and not over budget.
pub fallback_charge :
    (cs : List LifecycleCall) (l : EnergyLifecycle) (ref id : String) (tokens : ℤ)
    (usage : ModelUsage)
    → (reserve ref tokens l).0 ≡ true
    → reserves_again ref cs ≡ false
    → usage.status ≡ unavailable
    → is_blank id ≡ false
    → get id (run_calls cs (reserve ref tokens l).1).settled ≡ none
    → (settle ref id usage (run_calls cs (reserve ref tokens l).1)).0
      ≡ some (record {
        outcome = SettlementOutcome.settled;
        actual_tokens = tokens;
        fallback_used = true;
        reason = "conservative fallback";
        settlement_ref = id;
      })
unfolding settle settle_from new_settlement reserved_tokens_of
fallback_charge cs l ref id tokens usage made apart u b h =
    let last : EnergyLifecycle = run_calls cs (reserve ref tokens l).1 in
    let (s, found, same) =
      run_calls-Holds cs ref tokens (reserve ref tokens l).1 apart (
        record { reserved_tokens = tokens; valid = true },
        reserve_stores ref tokens l made,
        refl,
      ) in
    rw b (
      ap (λ o. (settle_from o ref id usage last).0) h
      ∙ ap (λ o. some (new_settlement id usage (tokens_or_zero o))) found
      ∙ ap (λ r. some (new_settlement id usage r)) same
      ∙ ap (λ c. some (settlement_of id tokens c)) (falls_back usage tokens u)
      ∙ ap some (exactly_reserved id tokens))
