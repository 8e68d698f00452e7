-- ===== src/Energy/Ledger/Invariant.antt =====
-- The invariant of `ReservationLedger` (energy/reservation.py) and its three methods.
use ant_orchestrator.Prelude.{
  ℕ, ◌≡◌, refl, sym, ap, ◌∙◌, true, false, Option, none, some, [], String, All,
}
use ant_orchestrator.Prelude.Equality.{string_eq, contains, Distinct}
use ant_orchestrator.Prelude.Int.{ℤ, pos, ◌+ℤ◌, ◌-ℤ◌, ◌≤ℤ◌, int_laws, parts_of}
use ant_orchestrator.Prelude.Dict.{get, NodupKeys, All-put, All-get}
use ant_orchestrator.Energy.Port.{
  ResourceKind, kind_is_eq, kind_eq, tokens, all_kinds, Amounts, limit_for, any_negative, reserved,
}
use ant_orchestrator.Energy.Ledger.{
  EnergyReservation, ReservationLedger, amount_of, negative_option,
}
use ant_orchestrator.Energy.Ledger.Loops.{
  shift, unshift, Fits, get-commit_amounts, get-release_amounts, get-settle_kinds,
}
use ant_orchestrator.Energy.Ledger.Balance.{
  held, total, IsSound, total-put_new, total-put, held-le-total,
}
use ant_orchestrator.Energy.Ledger.Rules.{made, booked, used_up, given_back, charged_to, freed}

-- What `_committed` has for a kind with this limit, when the reservations hold `t` of it.
abbrev pub charged : Option ℤ → ℤ → Option ℤ
charged none t = none
charged (some limit) t = some t

-- Each reservation is sound, and for each kind that the budget governs the committed amount is what
-- the reservations hold of it; no other kind is committed.
pub record IsValid (l : ReservationLedger) : Type 0 where
  pub sound : All (λ e. IsSound e.1) l.reservations
  pub balanced :
      (k : ResourceKind)
      → get k l.committed ≡ charged (limit_for l.budget k) (total k l.reservations)

shift-charged : (o : Option ℤ) (t d : ℤ) → shift (charged o t) d ≡ charged o (t +ℤ d)
shift-charged none t d = refl
shift-charged (some x) t d = refl

unshift-charged : (o : Option ℤ) (t a : ℤ) → unshift (charged o t) a ≡ charged o (t -ℤ a)
unshift-charged none t a = refl
unshift-charged (some x) t a = refl

pub held-made :
    (k : ResourceKind) (rid : String) (now : ℕ) (xs : Amounts)
    → held k (made rid now xs) ≡ amount_of k xs
unfolding held
held-made k rid now xs = refl

pub held-used_up :
    (k : ResourceKind) (r : EnergyReservation) (ys : Amounts)
    → held k (used_up r ys) ≡ amount_of k ys
unfolding held
held-used_up k r ys = refl

pub held-given_back : (k : ResourceKind) (r : EnergyReservation) → held k (given_back r) ≡ pos 0
unfolding held
held-given_back k r = refl

pub held-active :
    (k : ResourceKind) (r : EnergyReservation)
    → r.status ≡ reserved
    → held k r ≡ amount_of k r.amounts
unfolding held
held-active k r h = rw h refl

pub contains-all_kinds : (k : ResourceKind) → contains k all_kinds ≡ true
unfolding kind_eq
contains-all_kinds tokens = refl
contains-all_kinds _ = refl

all_kinds-Distinct : Distinct all_kinds
unfolding kind_eq
all_kinds-Distinct = (refl, (refl, (refl, (refl, (refl, tt)))))

raised_by :
    (o : Option ℤ) {c c' : Option ℤ} (t t' d : ℤ)
    → c' ≡ shift c d
    → c ≡ charged o t
    → t' ≡ t +ℤ d
    → c' ≡ charged o t'
raised_by o t t' d p q r = p ∙ ap (λ x. shift x d) q ∙ shift-charged o t d ∙ ap (charged o) (sym r)

lowered_by :
    (o : Option ℤ) {c c' : Option ℤ} (t t' a : ℤ)
    → c' ≡ unshift c a
    → c ≡ charged o t
    → t' ≡ t -ℤ a
    → c' ≡ charged o t'
lowered_by o t t' a p q r =
    p ∙ ap (λ x. unshift x a) q ∙ unshift-charged o t a ∙ ap (charged o) (sym r)

Fits-charged : (o : Option ℤ) (t a : ℤ) → a ≤ℤ t → Fits (charged o t) a
Fits-charged none t a h = tt
Fits-charged (some x) t a h = h

module _ (l : ReservationLedger) (v : IsValid l) (rid : String) where
  pub booked-IsValid :
      (now : ℕ) (xs : Amounts)
      → NodupKeys xs
      → get rid l.reservations ≡ none
      → any_negative xs ≡ false
      → IsValid (booked rid now xs l)
  booked-IsValid now xs u fresh fine = record {
    sound =
        All-put IsSound rid (made rid now xs) l.reservations
          (record { unique = u; asked = fine; used = unfold negative_option in refl }) v.sound;
    balanced = λ k.
        raised_by (limit_for l.budget k) (total k l.reservations) _ (amount_of k xs)
          (get-commit_amounts k xs l.committed u) (v.balanced k)
          (total-put_new k rid (made rid now xs) l.reservations fresh
            ∙ ap (λ t. total k l.reservations +ℤ t) (held-made k rid now xs));
  }

  module _ (r : EnergyReservation) (found : get rid l.reservations ≡ some r)
      (active : r.status ≡ reserved) where
    was-IsSound : IsSound r
    was-IsSound = All-get IsSound rid l.reservations r found v.sound

    pub charged_to-IsValid :
        (ys : Amounts) → any_negative ys ≡ false → IsValid (charged_to rid r ys l)
    charged_to-IsValid ys fine = record {
      sound =
          All-put IsSound rid (used_up r ys) l.reservations
            (record {
              unique = was-IsSound.unique;
              asked = was-IsSound.asked;
              used = unfold negative_option in fine;
            })
            v.sound;
      balanced = λ k.
          raised_by (limit_for l.budget k) (total k l.reservations) _
            (amount_of k ys -ℤ amount_of k r.amounts)
            (get-settle_kinds k r.amounts ys all_kinds
                (record { committed = l.committed; excess = []; has_overrun = false })
                all_kinds-Distinct
              ∙ (rw (contains-all_kinds k) refl))
            (v.balanced k)
            (omega (
              int_laws,
              parts_of (total-put k rid (used_up r ys) r l.reservations found),
              parts_of (held-active k r active),
              parts_of (held-used_up k r ys),
            ));
    }

    pub freed-IsValid : IsValid (freed rid r l)
    freed-IsValid = record {
      sound =
          All-put IsSound rid (given_back r) l.reservations
            (record {
              unique = was-IsSound.unique;
              asked = was-IsSound.asked;
              used = unfold negative_option in refl;
            })
            v.sound;
      balanced = λ k.
          let covered : amount_of k r.amounts ≤ℤ total k l.reservations =
            rw (held-active k r active) at (held-le-total k rid r l.reservations v.sound found) in
          lowered_by (limit_for l.budget k) (total k l.reservations) _ (amount_of k r.amounts)
            (get-release_amounts k r.amounts l.committed was-IsSound.unique
              (rw (v.balanced k) (Fits-charged (limit_for l.budget k) _ _ covered)))
            (v.balanced k)
            (omega (
              int_laws,
              parts_of (total-put k rid (given_back r) r l.reservations found),
              parts_of (held-active k r active),
              parts_of (held-given_back k r),
            ));
    }
