-- ===== src/Energy/Ledger/Rules.antt =====
-- The three methods of `ReservationLedger` (energy/reservation.py) as rules: what has to be shown of
-- the exception, and of the one way in which the method succeeds.
use ant_orchestrator.Prelude.{
  ℕ, ◌≡◌, refl, false, Option, none, some, [], ◌∷◌, String, inl, inr, arith, Bool-cases,
  Option-cases, All,
}
use ant_orchestrator.Prelude.Equality.{string_eq}
use ant_orchestrator.Prelude.Dict.{get, has, put, All-get}
use ant_orchestrator.Energy.Port.{
  kind_is_eq, all_kinds, Amounts, any_negative, Result, ok, raise, EnergyError, invariant_violation,
  energy_reservation, ReservationStatus, reserved, consumed, released,
}
use ant_orchestrator.Energy.Ledger.{
  EnergyReservation, ConsumptionOutcome, ReservationLedger, negative_option, new_reservation,
  check_amounts, commit_amounts, release_amounts, store, reserve, is_empty, check_amount,
  get_active, is_reserved, Settling, settle_kinds, consume_active, consume, release_active, release,
}
use ant_orchestrator.Energy.Ledger.Balance.{IsSound}

new_reservation_fields :
    (rid : String) (xs : Amounts) (st : ReservationStatus) (n : ℕ) (o : Option Amounts)
    → any_negative xs ≡ false
    → negative_option o ≡ false
    → new_reservation rid xs st n o
      ≡ ok (record { id = rid; amounts = xs; status = st; created_at = n; consumed_amounts = o })
unfolding new_reservation
new_reservation_fields rid xs st n o h k = rw (h, k)

-- A request that passes the loop has no negative amount.
check_amounts-any_negative :
    (l : ReservationLedger) (xs : Amounts) → check_amounts l xs ≡ none → any_negative xs ≡ false
unfolding check_amounts any_negative check_amount
check_amounts-any_negative l [] h = refl
check_amounts-any_negative l ((k, v) ∷ xs) h = ground (arith, check_amounts-any_negative l xs)

abbrev pub made : String → ℕ → Amounts → EnergyReservation
made rid now xs = record {
  id = rid;
  amounts = xs;
  status = reserved;
  created_at = now;
  consumed_amounts = none;
}

abbrev pub booked : String → ℕ → Amounts → ReservationLedger → ReservationLedger
booked rid now xs l = record l {
  committed = commit_amounts xs l.committed;
  reservations = put rid (made rid now xs) l.reservations;
}

-- `reserve` raises and leaves the ledger, or books the whole request under a new identifier.
pub reserve_rule :
    (P : Result EnergyReservation × ReservationLedger → Type 0) (rid : String) (now : ℕ)
    (xs : Amounts) (l : ReservationLedger)
    → ((e : EnergyError) → P (raise e, l))
    → (get rid l.reservations ≡ none
        → check_amounts l xs ≡ none
        → any_negative xs ≡ false
        → P (ok (made rid now xs), booked rid now xs l))
    → P (reserve rid now xs l)
unfolding reserve store has negative_option
reserve_rule P rid now xs l bad good = elim (Bool-cases (is_empty xs)) [
  | inl e ↦ rw e (bad invariant_violation)
  | inr e ↦ elim (Option-cases (check_amounts l xs)) [
    | inr (x, f) ↦ rw (e, f) (bad x)
    | inl f ↦ elim (Option-cases (get rid l.reservations)) [
      | inr (r, g) ↦ rw (e, f, g, has) (bad invariant_violation)
      | inl g ↦
          let fine : any_negative xs ≡ false = check_amounts-any_negative l xs f in
          rw (e, f, g, has, new_reservation_fields rid xs reserved now none fine refl)
            (good g f fine)
    ]
  ]
]

abbrev pub used_up : EnergyReservation → Amounts → EnergyReservation
used_up r ys = record {
  id = r.id;
  amounts = r.amounts;
  status = consumed;
  created_at = r.created_at;
  consumed_amounts = some ys;
}

abbrev pub given_back : EnergyReservation → EnergyReservation
given_back r = record {
  id = r.id;
  amounts = r.amounts;
  status = released;
  created_at = r.created_at;
  consumed_amounts = none;
}

abbrev pub settled : ReservationLedger → EnergyReservation → Amounts → Settling
settled l r ys =
    settle_kinds r.amounts ys all_kinds
      (record { committed = l.committed; excess = []; has_overrun = false })

abbrev pub charged_to : String → EnergyReservation → Amounts → ReservationLedger → ReservationLedger
charged_to rid r ys l = record l {
  committed = (settled l r ys).committed;
  reservations = put rid (used_up r ys) l.reservations;
}

abbrev pub freed : String → EnergyReservation → ReservationLedger → ReservationLedger
freed rid r l = record l {
  committed = release_amounts r.amounts l.committed;
  reservations = put rid (given_back r) l.reservations;
}

pub get_active_rule :
    {A : Type 0} (P : A → Type 0) (rid : String) (l : ReservationLedger) (bad : EnergyError → A)
    (good : EnergyReservation → A)
    → ((e : EnergyError) → P (bad e))
    → ((r : EnergyReservation) → get rid l.reservations ≡ some r → r.status ≡ reserved → P (good r))
    → P (elim (get_active rid l) [ raise e ↦ bad e | ok r ↦ good r ])
unfolding get_active
get_active_rule P rid l bad good onbad ongood = elim (Option-cases (get rid l.reservations)) [
  | inl e ↦ rw e (onbad energy_reservation)
  | inr (r, e) ↦ elim (Bool-cases (is_reserved r.status)) [
    | inl s ↦ rw (e, s) (ongood r e (ground arith))
    | inr s ↦ rw (e, s) (onbad energy_reservation)
  ]
]

-- `consume` raises and leaves the ledger, or charges what was used to an active reservation. A
-- sound reservation cannot fail the checks of its constructor.
pub consume_rule :
    (P : Result ConsumptionOutcome × ReservationLedger → Type 0) (rid : String) (ys : Amounts)
    (l : ReservationLedger)
    → All (λ e. IsSound e.1) l.reservations
    → ((e : EnergyError) → P (raise e, l))
    → ((r : EnergyReservation)
        → get rid l.reservations ≡ some r
        → r.status ≡ reserved
        → any_negative ys ≡ false
        → P (
          ok (record {
            reservation_id = rid;
            overrun = (settled l r ys).has_overrun;
            excess = (settled l r ys).excess;
          }),
          charged_to rid r ys l,
        ))
    → P (consume rid ys l)
unfolding consume consume_active store negative_option
consume_rule P rid ys l fine bad good =
    get_active_rule P rid l (λ e. (raise e, l)) (λ r. consume_active rid ys r l) bad
      λ r found active. elim (Bool-cases (any_negative ys)) [
        | inl e ↦ rw e (bad invariant_violation)
        | inr e ↦
            let s : IsSound r = All-get IsSound rid l.reservations r found fine in
            rw (e, new_reservation_fields r.id r.amounts consumed r.created_at (some ys) s.asked e)
              (good r found active e)
      ]

-- `release` raises and leaves the ledger, or frees what an active reservation holds.
pub release_rule :
    (P : Result EnergyReservation × ReservationLedger → Type 0) (rid : String)
    (l : ReservationLedger)
    → All (λ e. IsSound e.1) l.reservations
    → ((e : EnergyError) → P (raise e, l))
    → ((r : EnergyReservation)
        → get rid l.reservations ≡ some r
        → r.status ≡ reserved
        → P (ok (given_back r), freed rid r l))
    → P (release rid l)
unfolding release release_active store negative_option
release_rule P rid l fine bad good =
    get_active_rule P rid l (λ e. (raise e, l)) (λ r. release_active rid r l) bad
      λ r found active.
        let s : IsSound r = All-get IsSound rid l.reservations r found fine in
        rw (new_reservation_fields r.id r.amounts released r.created_at none s.asked refl)
          (good r found active)

-- What a sound active reservation gives, read from the ledger.
pub get_active_of_reserved :
    (rid : String) (l : ReservationLedger) (r : EnergyReservation)
    → get rid l.reservations ≡ some r
    → r.status ≡ reserved
    → get_active rid l ≡ ok r
unfolding get_active
get_active_of_reserved rid l r found active = rw (get_active, found, active) refl

pub release_of_reserved :
    (rid : String) (l : ReservationLedger) (r : EnergyReservation)
    → get rid l.reservations ≡ some r
    → r.status ≡ reserved
    → IsSound r
    → release rid l ≡ (ok (given_back r), freed rid r l)
unfolding release release_active store negative_option
release_of_reserved rid l r found active s =
    rw
      (
        release,
        get_active_of_reserved rid l r found active,
        new_reservation_fields r.id r.amounts released r.created_at none s.asked refl,
      )
      refl
