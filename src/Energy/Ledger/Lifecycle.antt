-- ===== src/Energy/Ledger/Lifecycle.antt =====
-- The life of one reservation in energy/reservation.py: calls that raise, settlements, releases.
use ant_orchestrator.Prelude.{ℕ, ◌≡◌, refl, Bool, true, false, Option, none, some, String, arith}
use ant_orchestrator.Prelude.Equality.{string_eq}
use ant_orchestrator.Prelude.Int.{ℤ, max_ℤ, pos, ◌-ℤ◌, int_laws, parts_of}
use ant_orchestrator.Prelude.Dict.{get, get-put_self, NodupKeys, All-get}
use ant_orchestrator.Energy.Port.{
  ResourceKind, kind_is_eq, Amounts, limit_for, Result, ok, raise, EnergyError, energy_reservation,
}
use ant_orchestrator.Energy.Ledger.{
  EnergyReservation, ReservationLedger, amount_of, get_active, is_reserved, reserve, consume,
  release, available,
}
use ant_orchestrator.Energy.Ledger.Balance.{IsSound, total, total-put_new, total-put}
use ant_orchestrator.Energy.Ledger.Rules.{
  made, booked, used_up, given_back, freed, reserve_rule, consume_rule, release_rule,
  release_of_reserved,
}
use ant_orchestrator.Energy.Ledger.Invariant.{
  IsValid, booked-IsValid, freed-IsValid, held-made, held-given_back,
}
use ant_orchestrator.Energy.Ledger.Runs.{LedgerCall, reserve_call, consume_call, release_call, call}

-- Whether the call raised.
abbrev pub raised {ℓ} : {A : Type ℓ} → Result A → Bool
raised (ok a) = false
raised (raise e) = true

-- Whether a call of the ledger raises.
abbrev pub raises : LedgerCall → ReservationLedger → Bool
raises (reserve_call rid now xs) l = raised (reserve rid now xs l).0
raises (consume_call rid ys) l = raised (consume rid ys l).0
raises (release_call rid) l = raised (release rid l).0

-- On a valid ledger a call of `reserve`, `consume` or `release` that raises leaves the whole ledger
-- as it was.
pub raising_changes_nothing :
    (c : LedgerCall) (l : ReservationLedger) → IsValid l → raises c l ≡ true → (call c l).1 ≡ l
unfolding call
raising_changes_nothing (reserve_call rid now xs) l v =
    reserve_rule (λ p. raised p.0 ≡ true → p.1 ≡ l) rid now xs l (λ e _. refl) (λ _ _ _ h. cc)
raising_changes_nothing (consume_call rid ys) l v =
    consume_rule (λ p. raised p.0 ≡ true → p.1 ≡ l) rid ys l v.sound (λ e _. refl) (λ _ _ _ _ h. cc)
raising_changes_nothing (release_call rid) l v =
    release_rule (λ p. raised p.0 ≡ true → p.1 ≡ l) rid l v.sound (λ e _. refl) (λ _ _ _ h. cc)

-- A reservation that is there and no longer active.
abbrev pub IsSettled : String → ReservationLedger → Type 0
IsSettled rid l =
    (r : EnergyReservation) × (get rid l.reservations ≡ some r) × (is_reserved r.status ≡ false)

refused :
    (rid : String) (l : ReservationLedger)
    → IsSettled rid l
    → get_active rid l ≡ raise energy_reservation
unfolding get_active
refused rid l (r, found, spent) = rw (get_active, found, spent) refl

-- The two ways to settle a reservation.
pub data Settlement : Type 0 where
  by_consume : Amounts → Settlement
  by_release : Settlement

abbrev error_of {ℓ} : {A : Type ℓ} → Result A → Option EnergyError
error_of (ok a) = none
error_of (raise e) = some e

-- What a settlement raises, and the ledger that it leaves.
abbrev pub settle : Settlement → String → ReservationLedger → Option EnergyError × ReservationLedger
settle (by_consume ys) rid l = (error_of (consume rid ys l).0, (consume rid ys l).1)
settle by_release rid l = (error_of (release rid l).0, (release rid l).1)

settled_refuses :
    (s : Settlement) (rid : String) (l : ReservationLedger)
    → IsSettled rid l
    → settle s rid l ≡ (some energy_reservation, l)
unfolding consume release
settled_refuses (by_consume ys) rid l s = rw (consume, refused rid l s) refl
settled_refuses by_release rid l s = rw (release, refused rid l s) refl

settles :
    (s : Settlement) (rid : String) (l : ReservationLedger)
    → IsValid l
    → (settle s rid l).0 ≡ none
    → IsSettled rid (settle s rid l).1
settles (by_consume ys) rid l v =
    consume_rule (λ p. error_of p.0 ≡ none → IsSettled rid p.1) rid ys l v.sound (λ e h. cc)
      (λ r _ _ _ _. (used_up r ys, get-put_self rid (used_up r ys) l.reservations, refl))
settles by_release rid l v =
    release_rule (λ p. error_of p.0 ≡ none → IsSettled rid p.1) rid l v.sound (λ e h. cc)
      (λ r _ _ _. (given_back r, get-put_self rid (given_back r) l.reservations, refl))

-- On a valid ledger, once a `consume` or a `release` of a reservation has not raised, every further
-- `consume` and `release` of it raises the reservation error and changes nothing.
pub settled_once :
    (first second : Settlement) (rid : String) (l : ReservationLedger)
    → IsValid l
    → (settle first rid l).0 ≡ none
    → settle second rid (settle first rid l).1 ≡ (some energy_reservation, (settle first rid l).1)
settled_once first second rid l v h =
    settled_refuses second rid (settle first rid l).1 (settles first rid l v h)

abbrev spare : Option ℤ → Option ℤ → Option ℤ
spare none c = none
spare (some limit) none = some (max_ℤ (pos 0) (limit -ℤ pos 0))
spare (some limit) (some c) = some (max_ℤ (pos 0) (limit -ℤ c))

available-spare :
    (k : ResourceKind) (l : ReservationLedger)
    → available k l ≡ spare (limit_for l.budget k) (get k l.committed)
unfolding available amount_of
available-spare k l = ground arith

-- Two valid ledgers over one budget, whose reservations hold the same, have the same available.
available_of_total :
    (l l' : ReservationLedger) (k : ResourceKind)
    → IsValid l
    → IsValid l'
    → l'.budget ≡ l.budget
    → total k l'.reservations ≡ total k l.reservations
    → available k l' ≡ available k l
available_of_total l l' k v v' same t =
    rw (available-spare k l, available-spare k l', v.balanced k, v'.balanced k, same, t) refl

module _ (l : ReservationLedger) (v : IsValid l) (rid : String) (now : ℕ) (xs : Amounts) where
  abbrev pub there_and_back : ReservationLedger
  there_and_back = freed rid (made rid now xs) (booked rid now xs l)

  pub total-there_and_back :
      (k : ResourceKind)
      → get rid l.reservations ≡ none
      → total k there_and_back.reservations ≡ total k l.reservations
  total-there_and_back k fresh = omega (
    int_laws,
    parts_of (total-put_new k rid (made rid now xs) l.reservations fresh),
    parts_of (
        total-put k rid (given_back (made rid now xs)) (made rid now xs)
          (booked rid now xs l).reservations (get-put_self rid (made rid now xs) l.reservations)),
    parts_of (held-made k rid now xs),
    parts_of (held-given_back k (made rid now xs)),
  )

-- On a valid ledger, a request, a dict, that `reserve` accepts under an identifier can be released by
-- that identifier, which gives every kind the availability that it had before.
pub release-reserve :
    (l : ReservationLedger) (rid : String) (now : ℕ) (xs : Amounts)
    → IsValid l
    → NodupKeys xs
    → raised (reserve rid now xs l).0 ≡ false
    → let l' = (reserve rid now xs l).1 in
      (raised (release rid l').0 ≡ false)
      × ((k : ResourceKind) → available k (release rid l').1 ≡ available k l)
release-reserve l rid now xs v u =
    reserve_rule
      (λ p.
        raised p.0 ≡ false
        → (raised (release rid p.1).0 ≡ false)
          × ((k : ResourceKind) → available k (release rid p.1).1 ≡ available k l))
      rid now xs l (λ e h. cc)
      λ fresh fits fine _.
        let v' : IsValid (booked rid now xs l) = booked-IsValid l v rid now xs u fresh fine in
        let there : get rid (booked rid now xs l).reservations ≡ some (made rid now xs) =
          get-put_self rid (made rid now xs) l.reservations in
        let s : IsSound (made rid now xs) =
          All-get IsSound rid (booked rid now xs l).reservations (made rid now xs) there v'.sound in
        rw (release_of_reserved rid (booked rid now xs l) (made rid now xs) there refl s) (
          refl,
          λ k.
              available_of_total l (there_and_back l v rid now xs) k v
                (freed-IsValid (booked rid now xs l) v' rid (made rid now xs) there refl) refl
                (total-there_and_back l v rid now xs k fresh),
        )
