-- ===== src/Energy/Ledger/Balance.antt =====
-- What the reservations of a ledger hold of each resource: the meaning of `_committed` in
-- energy/reservation.py.
use mathlib.Core.Option.{some-injective}
use ant_orchestrator.Prelude.{
  ◌≡◌, ap, false, Option, none, some, [], ◌∷◌, String, inl, inr, arith, Bool-cases, All,
}
use ant_orchestrator.Prelude.Equality.{string_eq, ◌≟◌}
use ant_orchestrator.Prelude.Int.{ℤ, pos, ◌+ℤ◌, ◌≤ℤ◌, ltb_ℤ, int_laws, parts_of}
use ant_orchestrator.Prelude.Dict.{Dict, get, put, NodupKeys}
use ant_orchestrator.Energy.Port.{
  ResourceKind, kind_is_eq, Amounts, any_negative, ReservationStatus, reserved, consumed, released,
  expired,
}
use ant_orchestrator.Energy.Ledger.{EnergyReservation, amount_of, negative_option}

-- `(amounts or {}).get(kind, 0)`
abbrev pub amount_of_option : ResourceKind → Option Amounts → ℤ
amount_of_option k none = pos 0
amount_of_option k (some xs) = amount_of k xs

-- What a reservation holds: its request while it is active, what was used once it is consumed,
-- and nothing after its release.
abbrev pub holding : ReservationStatus → ℤ → ℤ → ℤ
holding reserved asked used = asked
holding consumed asked used = used
holding released asked used = pos 0
holding expired asked used = pos 0

unfoldable pub held : ResourceKind → EnergyReservation → ℤ
held k r = holding r.status (amount_of k r.amounts) (amount_of_option k r.consumed_amounts)

unfoldable pub total : ResourceKind → Dict String EnergyReservation → ℤ
total k [] = pos 0
total k ((_, r) ∷ rest) = held k r +ℤ total k rest

pub record IsSound (r : EnergyReservation) : Type 0 where
  pub unique : NodupKeys r.amounts
  pub asked : any_negative r.amounts ≡ false
  pub used : negative_option r.consumed_amounts ≡ false

pub total-put_new :
    (k : ResourceKind) (rid : String) (r : EnergyReservation) (m : Dict String EnergyReservation)
    → get rid m ≡ none
    → total k (put rid r m) ≡ total k m +ℤ held k r
unfolding total get put
total-put_new k rid r [] h = omega int_laws
total-put_new k rid r ((i, x) ∷ m) h = elim (Bool-cases (rid ≟ i)) [
  | inl e ↦ let q : some x ≡ none = rw e at h in cc
  | inr e ↦ rw e (omega (int_laws, parts_of (total-put_new k rid r m (rw e at h))))
]

pub total-put :
    (k : ResourceKind) (rid : String) (r x : EnergyReservation) (m : Dict String EnergyReservation)
    → get rid m ≡ some x
    → total k (put rid r m) +ℤ held k x ≡ total k m +ℤ held k r
unfolding total get put
total-put k rid r x [] h = cc
total-put k rid r x ((i, y) ∷ m) h = elim (Bool-cases (rid ≟ i)) [
  | inl e ↦
      let same : held k y ≡ held k x = ap (held k) (some-injective y x (rw e at h)) in
      rw (e, same) (omega int_laws)
  | inr e ↦ rw e (omega (int_laws, parts_of (total-put k rid r x m (rw e at h))))
]

pub any_negative_sound :
    (xs : Amounts) (k : ResourceKind) → any_negative xs ≡ false → pos 0 ≤ℤ amount_of k xs
unfolding any_negative amount_of get ltb_ℤ
any_negative_sound [] k h = omega arith
any_negative_sound ((j, v) ∷ xs) k h = ground (arith, any_negative_sound xs k)

negative_option_sound :
    (o : Option Amounts) (k : ResourceKind)
    → negative_option o ≡ false
    → pos 0 ≤ℤ amount_of_option k o
unfolding negative_option
negative_option_sound none k h = omega arith
negative_option_sound (some xs) k h = any_negative_sound xs k h

held-nonneg : (k : ResourceKind) (r : EnergyReservation) → IsSound r → pos 0 ≤ℤ held k r
unfolding held
held-nonneg k r s = ground (
  arith,
  any_negative_sound r.amounts k s.asked,
  negative_option_sound r.consumed_amounts k s.used,
)

pub total-nonneg :
    (k : ResourceKind) (m : Dict String EnergyReservation)
    → All (λ e. IsSound e.1) m
    → pos 0 ≤ℤ total k m
unfolding total
total-nonneg k [] s = omega arith
total-nonneg k ((i, r) ∷ m) s = omega (int_laws, held-nonneg k r s.0, total-nonneg k m s.1)

-- Each reservation's share is covered by the total.
pub held-le-total :
    (k : ResourceKind) (rid : String) (r : EnergyReservation) (m : Dict String EnergyReservation)
    → All (λ e. IsSound e.1) m
    → get rid m ≡ some r
    → held k r ≤ℤ total k m
unfolding total get
held-le-total k rid r [] s h = cc
held-le-total k rid r ((i, x) ∷ m) s h = elim (Bool-cases (rid ≟ i)) [
  | inl e ↦
      let same : held k x ≡ held k r = ap (held k) (some-injective x r (rw e at h)) in
      rw same (omega (int_laws, total-nonneg k m s.1))
  | inr e ↦ omega (int_laws, held-nonneg k x s.0, held-le-total k rid r m s.1 (rw e at h))
]
