-- ===== src/Energy/Ledger/Runs.antt =====
-- Sequences of calls on one ledger (energy/reservation.py), as its single owner makes them: an
-- exception ends its own call only.
use ant_orchestrator.Prelude.{
  ℕ, ◌≡◌, refl, Bool, false, ◌||◌, List, [], ◌∷◌, String, arith, All, map,
}
use ant_orchestrator.Prelude.Equality.{string_eq}
use ant_orchestrator.Prelude.Int.{pos}
use ant_orchestrator.Prelude.Dict.{get, NodupKeys}
use ant_orchestrator.Energy.Port.{
  ResourceKind, kind_is_eq, Amounts, EnergyBudget, limit_for, Result, ok, raise,
}
use ant_orchestrator.Energy.Ledger.{
  ConsumptionOutcome, ReservationLedger, new_ledger, reserve, consume, release,
}
use ant_orchestrator.Energy.Ledger.Balance.{total}
use ant_orchestrator.Energy.Ledger.Rules.{reserve_rule, consume_rule, release_rule}
use ant_orchestrator.Energy.Ledger.Invariant.{
  charged, IsValid, booked-IsValid, charged_to-IsValid, freed-IsValid,
}

-- One call of a public method.
pub data LedgerCall : Type 0 where
  reserve_call : String → ℕ → Amounts → LedgerCall
  consume_call : String → Amounts → LedgerCall
  release_call : String → LedgerCall

-- What a call is given is a dict.
abbrev pub IsCall : LedgerCall → Type 0
IsCall (reserve_call rid now xs) = NodupKeys xs
IsCall (consume_call rid ys) = Unit
IsCall (release_call rid) = Unit

-- Whether a `consume` reported an overrun.
abbrev pub overran : Result ConsumptionOutcome → Bool
overran (ok outcome) = outcome.overrun
overran (raise e) = false

-- The ledger after a call, and whether the call reported an overrun.
unfoldable pub call : LedgerCall → ReservationLedger → Bool × ReservationLedger
call (reserve_call rid now xs) l = (false, (reserve rid now xs l).1)
call (consume_call rid ys) l = let (r, l') = consume rid ys l in (overran r, l')
call (release_call rid) l = (false, (release rid l).1)

unfoldable pub run_calls : List LedgerCall → ReservationLedger → Bool × ReservationLedger
run_calls [] l = (false, l)
run_calls (c ∷ cs) l =
    let (here, l') = call c l in let (later, l'') = run_calls cs l' in (here || later, l'')

pub call-IsValid :
    (c : LedgerCall) (l : ReservationLedger) → IsCall c → IsValid l → IsValid (call c l).1
unfolding call
call-IsValid (reserve_call rid now xs) l u v =
    reserve_rule (λ p. IsValid p.1) rid now xs l (λ e. v)
      λ fresh _ fine. booked-IsValid l v rid now xs u fresh fine
call-IsValid (consume_call rid ys) l u v =
    consume_rule (λ p. IsValid p.1) rid ys l v.sound (λ e. v)
      λ r found active fine. charged_to-IsValid l v rid r found active ys fine
call-IsValid (release_call rid) l u v =
    release_rule (λ p. IsValid p.1) rid l v.sound (λ e. v)
      λ r found active. freed-IsValid l v rid r found active

get-zeros :
    (k : ResourceKind) (limits : Amounts)
    → get k (map (λ e. (e.0, pos 0)) limits) ≡ charged (get k limits) (pos 0)
unfolding get
get-zeros k [] = refl
get-zeros k ((j, v) ∷ limits) = ground (arith, get-zeros k limits)

pub new_ledger-IsValid : (b : EnergyBudget) → IsValid (new_ledger b)
unfolding new_ledger total limit_for
new_ledger-IsValid b = record { sound = tt; balanced = λ k. get-zeros k b.limits }

-- Any sequence of calls of `reserve`, `consume` and `release`, whose requests are dicts, keeps a valid
-- ledger valid: of each governed kind exactly what the reservations hold is committed, and every
-- reservation is sound.
pub run_calls-IsValid :
    (cs : List LedgerCall) (l : ReservationLedger)
    → All IsCall cs
    → IsValid l
    → IsValid (run_calls cs l).1
unfolding run_calls
run_calls-IsValid [] l u v = v
run_calls-IsValid (c ∷ cs) l u v = run_calls-IsValid cs (call c l).1 u.1 (call-IsValid c l u.0 v)
