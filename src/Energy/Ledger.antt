-- ===== src/Energy/Ledger.antt =====
-- energy/reservation.py: the in-memory ledger of reservations. A method takes the ledger and gives
-- its result beside the ledger that it leaves, so what was written before an exception stays.
pub mod Loops
pub mod Balance
pub mod Rules
pub mod Invariant
pub mod Runs
pub mod Limits
pub mod Lifecycle
use ant_orchestrator.Prelude.{
  ℕ, Bool, true, false, ◌||◌, Option, none, some, List, [], ◌∷◌, String, map, if◌then◌else◌,
}
use ant_orchestrator.Prelude.Equality.{string_eq}
use ant_orchestrator.Prelude.Int.{ℤ, pos, ◌+ℤ◌, ◌-ℤ◌, ltb_ℤ, max_ℤ}
use ant_orchestrator.Prelude.Dict.{Dict, get, has, put}
use ant_orchestrator.Energy.Port.{
  ResourceKind, kind_is_eq, all_kinds, Amounts, EnergyBudget, limit_for, any_negative, Result, ok,
  raise, EnergyError, invariant_violation, energy_budget_exceeded, energy_reservation,
  ReservationStatus, reserved, consumed, released,
}

pub record EnergyReservation : Type 0 where
  pub id : String
  pub amounts : Amounts
  pub status : ReservationStatus
  pub created_at : ℕ
  pub consumed_amounts : Option Amounts

pub record ConsumptionOutcome : Type 0 where
  pub reservation_id : String
  pub overrun : Bool
  pub excess : Amounts

pub record ReservationLedger : Type 0 where
  pub budget : EnergyBudget
  pub committed : Amounts
  pub reservations : Dict String EnergyReservation

-- `__init__`: every governed kind begins with nothing committed.
unfoldable pub new_ledger : EnergyBudget → ReservationLedger
new_ledger b = record {
  budget = b;
  committed = map (λ e. (e.0, pos 0)) b.limits;
  reservations = [];
}

-- `amounts.get(kind, 0)`
unfoldable pub amount_of : ResourceKind → Amounts → ℤ
amount_of kind amounts = elim (get kind amounts) [ none ↦ pos 0 | some v ↦ v ]

unfoldable pub negative_option : Option Amounts → Bool
unfolding any_negative
negative_option none = false
negative_option (some amounts) = any_negative amounts

-- `EnergyReservation(...)` with its `__post_init__`
unfoldable pub new_reservation :
    String → Amounts → ReservationStatus → ℕ → Option Amounts → Result EnergyReservation
unfolding any_negative negative_option
new_reservation rid amounts status created consumed_amounts =
    if any_negative amounts
    then raise invariant_violation
    else if negative_option consumed_amounts
    then raise invariant_violation
    else ok (record {
      id = rid;
      amounts = amounts;
      status = status;
      created_at = created;
      consumed_amounts = consumed_amounts;
    })

-- One entry of the loop that checks a request: `none` lets the loop go on.
unfoldable pub check_amount : ReservationLedger → ResourceKind → ℤ → Option EnergyError
check_amount l kind amount =
    if ltb_ℤ amount (pos 0) then some invariant_violation else elim (get kind l.budget.limits) [
      | none ↦ none
      | some limit ↦
          if ltb_ℤ (limit -ℤ amount_of kind l.committed) amount
          then some energy_budget_exceeded
          else none
    ]

-- The loop of `reserve` that checks a request, up to the first exception.
unfoldable pub check_amounts : ReservationLedger → Amounts → Option EnergyError
check_amounts l [] = none
check_amounts l ((kind, amount) ∷ rest) = elim (check_amount l kind amount) [
  | some e ↦ some e
  | none ↦ check_amounts l rest
]

-- `if kind in self._committed: self._committed[kind] += delta`
unfoldable pub bump : ResourceKind → ℤ → Amounts → Amounts
bump kind delta committed = elim (get kind committed) [
  | none ↦ committed
  | some c ↦ put kind (c +ℤ delta) committed
]

-- The loop of `reserve` that commits a request.
unfoldable pub commit_amounts : Amounts → Amounts → Amounts
commit_amounts [] committed = committed
commit_amounts ((kind, amount) ∷ rest) committed = commit_amounts rest (bump kind amount committed)

-- `if kind in self._committed: self._committed[kind] = max(0, self._committed[kind] - amount)`
unfoldable pub unbump : ResourceKind → ℤ → Amounts → Amounts
unbump kind amount committed = elim (get kind committed) [
  | none ↦ committed
  | some c ↦ put kind (max_ℤ (pos 0) (c -ℤ amount)) committed
]

-- The loop of `release`.
unfoldable pub release_amounts : Amounts → Amounts → Amounts
release_amounts [] committed = committed
release_amounts ((kind, amount) ∷ rest) committed =
    release_amounts rest (unbump kind amount committed)

-- The end of the three methods: `EnergyReservation(...)` is built, which may raise, and stored
-- under `key`; `answer` is what the method returns.
unfoldable pub store {ℓ} :
    {A : Type ℓ}
    → String
    → Result EnergyReservation
    → (EnergyReservation → A)
    → ReservationLedger
    → Result A × ReservationLedger
store key (raise e) answer l = (raise e, l)
store key (ok r) answer l = (ok (answer r), record l { reservations = put key r l.reservations })

abbrev pub is_empty : Amounts → Bool
is_empty [] = true
is_empty (_ ∷ _) = false

-- `reserve`; `rid` is what the id generator gives, `now` what the clock gives.
unfoldable pub reserve :
    String → ℕ → Amounts → ReservationLedger → Result EnergyReservation × ReservationLedger
reserve rid now amounts l =
    if is_empty amounts then (raise invariant_violation, l) else elim (check_amounts l amounts) [
      | some e ↦ (raise e, l)
      | none ↦
          if has rid l.reservations
          then (raise invariant_violation, l)
          else store rid (new_reservation rid amounts reserved now none) (λ r. r)
              (record l { committed = commit_amounts amounts l.committed })
    ]

abbrev pub is_reserved : ReservationStatus → Bool
is_reserved reserved = true
is_reserved _ = false

-- `_get_active` with `ReservationStatus.RESERVED`, as both its callers call it.
unfoldable pub get_active : String → ReservationLedger → Result EnergyReservation
get_active rid l = elim (get rid l.reservations) [
  | none ↦ raise energy_reservation
  | some r ↦ if is_reserved r.status then ok r else raise energy_reservation
]

-- The variables of the loop of `consume`.
pub record Settling : Type 0 where
  pub committed : Amounts
  pub excess : Amounts
  pub has_overrun : Bool

-- The body of the loop of `consume`, which runs for the kinds of the union of the two key sets.
unfoldable pub settle_kind : Amounts → Amounts → ResourceKind → Settling → Settling
settle_kind amounts actual kind s =
    let delta = amount_of kind actual -ℤ amount_of kind amounts in
    let over = max_ℤ (pos 0) delta in
    if has kind amounts || has kind actual
    then record {
      committed = bump kind delta s.committed;
      excess = put kind over s.excess;
      has_overrun = if ltb_ℤ (pos 0) over then true else s.has_overrun;
    }
    else s

-- The loop of `consume` over `set(res.amounts) | set(actual)`, whose order Python leaves open: here
-- it is the order of `kinds`.
unfoldable pub settle_kinds : Amounts → Amounts → List ResourceKind → Settling → Settling
settle_kinds amounts actual [] s = s
settle_kinds amounts actual (kind ∷ rest) s =
    settle_kinds amounts actual rest (settle_kind amounts actual kind s)

-- `consume` from the reservation that `_get_active` found.
unfoldable pub consume_active :
    String
    → Amounts
    → EnergyReservation
    → ReservationLedger
    → Result ConsumptionOutcome × ReservationLedger
consume_active rid actual res l =
    if any_negative actual
    then (raise invariant_violation, l)
    else (let s =
          settle_kinds res.amounts actual all_kinds
            (record { committed = l.committed; excess = []; has_overrun = false }) in
        store rid (new_reservation res.id res.amounts consumed res.created_at (some actual))
          (λ _. record { reservation_id = rid; overrun = s.has_overrun; excess = s.excess })
          (record l { committed = s.committed }))

unfoldable pub consume :
    String → Amounts → ReservationLedger → Result ConsumptionOutcome × ReservationLedger
consume rid actual l = elim (get_active rid l) [
  | raise e ↦ (raise e, l)
  | ok res ↦ consume_active rid actual res l
]

-- `release` from the reservation that `_get_active` found.
unfoldable pub release_active :
    String → EnergyReservation → ReservationLedger → Result EnergyReservation × ReservationLedger
release_active rid res l =
    store rid (new_reservation res.id res.amounts released res.created_at none) (λ r. r)
      (record l { committed = release_amounts res.amounts l.committed })

unfoldable pub release : String → ReservationLedger → Result EnergyReservation × ReservationLedger
release rid l = elim (get_active rid l) [
  | raise e ↦ (raise e, l)
  | ok res ↦ release_active rid res l
]

-- `available`: `none` for a kind that has no limit.
unfoldable pub available : ResourceKind → ReservationLedger → Option ℤ
available kind l = elim (limit_for l.budget kind) [
  | none ↦ none
  | some limit ↦ some (max_ℤ (pos 0) (limit -ℤ amount_of kind l.committed))
]
