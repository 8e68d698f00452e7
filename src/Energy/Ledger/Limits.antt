-- ===== src/Energy/Ledger/Limits.antt =====
-- The limits of a budget and the runs of the ledger (energy/reservation.py).
use ant_orchestrator.Prelude.{
  ℕ, ◌≡◌, ◌⊎◌, refl, ◌∙◌, true, false, none, some, List, [], ◌∷◌, String, inl, inr, arith,
  Bool-cases, All,
}
use ant_orchestrator.Prelude.Equality.{string_eq, contains}
use ant_orchestrator.Prelude.Int.{ℤ, pos, ◌-ℤ◌, ◌≤ℤ◌, ltb_ℤ, int_laws, parts_of}
use ant_orchestrator.Prelude.Dict.{get, All-get}
use ant_orchestrator.Energy.Port.{
  ResourceKind, kind_eq, kind_eq_iff, kind_is_eq, all_kinds, Amounts, EnergyBudget, new_budget,
  limit_for, ok, reserved,
}
use ant_orchestrator.Energy.Ledger.{
  EnergyReservation, ReservationLedger, new_ledger, amount_of, check_amount, check_amounts,
}
use ant_orchestrator.Energy.Ledger.Loops.{
  overrun-settle_kinds, Covered, amount_of_absent, amount_of-cons,
}
use ant_orchestrator.Energy.Ledger.Balance.{
  IsSound, total, total-nonneg, total-put_new, total-put, any_negative_sound,
}
use ant_orchestrator.Energy.Ledger.Rules.{
  made, booked, used_up, given_back, settled, charged_to, freed, reserve_rule, consume_rule,
  release_rule,
}
use ant_orchestrator.Energy.Ledger.Invariant.{
  IsValid, contains-all_kinds, held-made, held-used_up, held-given_back, held-active,
}
use ant_orchestrator.Energy.Ledger.Runs.{
  LedgerCall, reserve_call, consume_call, release_call, IsCall, call, overran, run_calls,
  run_calls-IsValid, new_ledger-IsValid, call-IsValid,
}

-- What the reservations hold stays within every limit.
abbrev pub IsWithin : ReservationLedger → Type 0
IsWithin l =
    (k : ResourceKind) (limit : ℤ)
    → limit_for l.budget k ≡ some limit
    → total k l.reservations ≤ℤ limit

-- A request that passes the loop fits, at each kind, in what is left of the limit.
check_amounts-fits :
    (l : ReservationLedger) (k : ResourceKind) (limit : ℤ) (xs : Amounts)
    → get k l.budget.limits ≡ some limit
    → check_amounts l xs ≡ none
    → (amount_of k xs ≤ℤ pos 0) ⊎ (amount_of k xs ≤ℤ limit -ℤ amount_of k l.committed)
unfolding check_amounts check_amount ltb_ℤ
check_amounts-fits l k limit [] g h =
    inl (rw (amount_of_absent k [] (unfold get in refl)) (omega arith))
check_amounts-fits l k limit ((j, v) ∷ xs) g h =
    ground (arith, check_amounts-fits l k limit xs g, amount_of-cons k j v xs, kind_eq_iff k j)

Covered-at :
    (xs ys : Amounts) (ks : List ResourceKind) (k : ResourceKind)
    → Covered xs ys ks
    → contains k ks ≡ true
    → amount_of k ys ≤ℤ amount_of k xs
Covered-at xs ys [] k c h = cc
Covered-at xs ys (j ∷ ks) k c h = elim (Bool-cases (kind_eq k j)) [
  | inl e ↦ rw ((kind_eq_iff k j).0 e) c.0
  | inr e ↦ Covered-at xs ys ks k c.1 (rw e at h)
]

-- The committed amount of a governed kind is what the reservations hold.
pub committed-total :
    (l : ReservationLedger) (k : ResourceKind) {limit : ℤ}
    → IsValid l
    → limit_for l.budget k ≡ some limit
    → amount_of k l.committed ≡ total k l.reservations
unfolding amount_of
committed-total l k v g = rw (v.balanced k, g, amount_of) refl

module _ (l : ReservationLedger) (v : IsValid l) (w : IsWithin l) (rid : String) where
  booked-IsWithin :
      (now : ℕ) (xs : Amounts)
      → get rid l.reservations ≡ none
      → check_amounts l xs ≡ none
      → IsWithin (booked rid now xs l)
  booked-IsWithin now xs fresh fits k limit g = omega (
    int_laws,
    w k limit g,
    check_amounts-fits l k limit xs (unfold limit_for in g) fits,
    parts_of (committed-total l k v g),
    parts_of (held-made k rid now xs),
    parts_of (total-put_new k rid (made rid now xs) l.reservations fresh),
  )

  module _ (r : EnergyReservation) (found : get rid l.reservations ≡ some r)
      (active : r.status ≡ reserved) where
    charged_to-IsWithin :
        (ys : Amounts) → (settled l r ys).has_overrun ≡ false → IsWithin (charged_to rid r ys l)
    charged_to-IsWithin ys calm k limit g =
        let (_, covered) =
          overrun-settle_kinds r.amounts ys all_kinds
            (record { committed = l.committed; excess = []; has_overrun = false }) calm in
        omega (
          int_laws,
          w k limit g,
          Covered-at r.amounts ys all_kinds k covered (contains-all_kinds k),
          parts_of (total-put k rid (used_up r ys) r l.reservations found),
          parts_of (held-active k r active),
          parts_of (held-used_up k r ys),
        )

    freed-IsWithin : IsWithin (freed rid r l)
    freed-IsWithin k limit g = omega (
      int_laws,
      w k limit g,
      parts_of (total-put k rid (given_back r) r l.reservations found),
      parts_of (held-active k r active),
      parts_of (held-given_back k r),
      any_negative_sound r.amounts k (All-get IsSound rid l.reservations r found v.sound).asked,
    )

call-IsWithin :
    (c : LedgerCall) (l : ReservationLedger)
    → IsValid l
    → IsWithin l
    → (call c l).0 ≡ false
    → IsWithin (call c l).1
unfolding call
call-IsWithin (reserve_call rid now xs) l v w = λ _.
    reserve_rule (λ p. IsWithin p.1) rid now xs l (λ e. w)
      λ fresh fits _. booked-IsWithin l v w rid now xs fresh fits
call-IsWithin (consume_call rid ys) l v w =
    consume_rule (λ p. overran p.0 ≡ false → IsWithin p.1) rid ys l v.sound (λ e _. w)
      λ r found active _ calm. charged_to-IsWithin l v w rid r found active ys calm
call-IsWithin (release_call rid) l v w = λ _.
    release_rule (λ p. IsWithin p.1) rid l v.sound (λ e. w)
      λ r found active. freed-IsWithin l v w rid r found active

run_calls-IsWithin :
    (cs : List LedgerCall) (l : ReservationLedger)
    → All IsCall cs
    → IsValid l
    → IsWithin l
    → (run_calls cs l).0 ≡ false
    → IsWithin (run_calls cs l).1
unfolding run_calls
run_calls-IsWithin [] l u v w calm = w
run_calls-IsWithin (c ∷ cs) l u v w calm =
    run_calls-IsWithin cs (call c l).1 u.1 (call-IsValid c l u.0 v)
      (call-IsWithin c l v w (ground arith)) (ground arith)

budget-call : (c : LedgerCall) (l : ReservationLedger) → IsValid l → (call c l).1.budget ≡ l.budget
unfolding call
budget-call (reserve_call rid now xs) l v =
    reserve_rule (λ p. p.1.budget ≡ l.budget) rid now xs l (λ e. refl) (λ _ _ _. refl)
budget-call (consume_call rid ys) l v =
    consume_rule (λ p. p.1.budget ≡ l.budget) rid ys l v.sound (λ e. refl) (λ _ _ _ _. refl)
budget-call (release_call rid) l v =
    release_rule (λ p. p.1.budget ≡ l.budget) rid l v.sound (λ e. refl) (λ _ _ _. refl)

budget-run_calls :
    (cs : List LedgerCall) (l : ReservationLedger)
    → All IsCall cs
    → IsValid l
    → (run_calls cs l).1.budget ≡ l.budget
unfolding run_calls
budget-run_calls [] l u v = refl
budget-run_calls (c ∷ cs) l u v =
    budget-run_calls cs (call c l).1 u.1 (call-IsValid c l u.0 v) ∙ budget-call c l v

limit-nonneg :
    (limits : Amounts) (b : EnergyBudget) (k : ResourceKind) (limit : ℤ)
    → new_budget limits ≡ ok b
    → limit_for b k ≡ some limit
    → pos 0 ≤ℤ limit
unfolding new_budget limit_for amount_of
limit-nonneg limits b k limit made_ok g = ground (arith, any_negative_sound limits k)

-- For a ledger over a budget that the constructor accepts, after any calls, whose requests are dicts
-- and of which no consumption reported an overrun, the committed amount of every governed kind lies
-- between zero and its limit.
pub committed_within_limits :
    (limits : Amounts) (b : EnergyBudget) (cs : List LedgerCall) (k : ResourceKind) (limit : ℤ)
    → new_budget limits ≡ ok b
    → All IsCall cs
    → (run_calls cs (new_ledger b)).0 ≡ false
    → limit_for b k ≡ some limit
    → (pos 0 ≤ℤ amount_of k (run_calls cs (new_ledger b)).1.committed)
      × (amount_of k (run_calls cs (new_ledger b)).1.committed ≤ℤ limit)
unfolding new_ledger total
committed_within_limits limits b cs k limit made_ok pc calm g =
    let l : ReservationLedger = (run_calls cs (new_ledger b)).1 in
    let v : IsValid l = run_calls-IsValid cs (new_ledger b) pc (new_ledger-IsValid b) in
    let start : IsWithin (new_ledger b) = λ j top h. limit-nonneg limits b j top made_ok h in
    let w : IsWithin l =
      run_calls-IsWithin cs (new_ledger b) pc (new_ledger-IsValid b) start calm in
    let same : l.budget ≡ b = budget-run_calls cs (new_ledger b) pc (new_ledger-IsValid b) in
    let still : limit_for l.budget k ≡ some limit = rw same g in
    rw (committed-total l k v still) (total-nonneg k l.reservations v.sound, w k limit still)
