-- ===== src/Energy/Settlement.antt =====
-- The settlement of worker energy: energy/settlement_math.py and the lifecycle in memory of
-- energy/worker_lifecycle.py, with the records of application/ports/worker_energy.py and llm.py.
pub mod Once
use ant_orchestrator.Prelude.{
  ℕ, ◌+◌, Bool, true, false, Option, none, some, List, [], ◌∷◌, String, ltb, if◌then◌else◌,
}
use ant_orchestrator.Prelude.Equality.{string_eq}
use ant_orchestrator.Prelude.Int.{ℤ, pos, ltb_ℤ}
use ant_orchestrator.Prelude.Dict.{Dict, get, put}
use ant_orchestrator.Prelude.Text.{is_blank}

pub data UsageStatus : Type 0 where
  measured estimated unavailable : UsageStatus

-- Token counts are never negative (`TokenCount`).
pub record ModelUsage : Type 0 where
  pub status : UsageStatus
  pub tokens_in : Option ℕ
  pub tokens_out : Option ℕ
  pub tokens_total : Option ℕ

abbrev or_zero : Option ℕ → ℕ
or_zero none = 0
or_zero (some n) = n

-- The total, or else what went in and what came out.
abbrev measured_tokens : ModelUsage → ℤ
measured_tokens usage = elim usage.tokens_total [
  | some n ↦ pos n
  | none ↦ pos (or_zero usage.tokens_in + or_zero usage.tokens_out)
]

-- The actual tokens, and whether the reserved amount was charged for want of a measure.
unfoldable pub compute_consumption : ModelUsage → ℤ → ℤ × Bool
compute_consumption usage reserved = elim usage.status [
  | unavailable ↦ (reserved, true)
  | _ ↦ (measured_tokens usage, false)
]

pub data EnergyReverifyOutcome : Type 0 where
  valid invalid expired over_policy : EnergyReverifyOutcome

pub data SettlementOutcome : Type 0 where
  settled over_budget failed : SettlementOutcome

pub record EnergySettlement : Type 0 where
  pub outcome : SettlementOutcome
  pub actual_tokens : ℤ
  pub fallback_used : Bool
  pub reason : String
  pub settlement_ref : String

pub record ReservationState : Type 0 where
  pub reserved_tokens : ℤ
  pub valid : Bool

-- The state of either lifecycle.
pub record EnergyLifecycle : Type 0 where
  pub reservations : Dict String ReservationState
  pub settled : Dict String EnergySettlement

-- `reserve`: whether it returned, and the state.
unfoldable pub reserve : String → ℤ → EnergyLifecycle → Bool × EnergyLifecycle
reserve ref tokens l =
    if is_blank ref then (false, l) else if ltb_ℤ tokens (pos 0) then (false, l) else (
      true,
      record l {
        reservations = put ref (record { reserved_tokens = tokens; valid = true }) l.reservations;
      },
    )

unfoldable pub invalidate : String → EnergyLifecycle → EnergyLifecycle
invalidate ref l = elim (get ref l.reservations) [
  | none ↦ l
  | some r ↦ record l { reservations = put ref (record r { valid = false }) l.reservations }
]

unfoldable pub reverify : String → EnergyLifecycle → EnergyReverifyOutcome × String
reverify ref l = elim (get ref l.reservations) [
  | none ↦ (invalid, "reservation not found")
  | some r ↦
      if r.valid then (valid, "reservation valid") else (expired, "reservation no longer valid")
]

abbrev pub tokens_or_zero : Option ReservationState → ℤ
tokens_or_zero none = pos 0
tokens_or_zero (some r) = r.reserved_tokens

-- The amount that a settlement falls back on.
unfoldable pub reserved_tokens_of : String → EnergyLifecycle → ℤ
reserved_tokens_of ref l = tokens_or_zero (get ref l.reservations)

-- The settlement of what `compute_consumption` gives.
unfoldable pub settlement_of : String → ℤ → ℤ × Bool → EnergySettlement
settlement_of invocation reserved (actual, fallback) =
    let over = ltb_ℤ reserved actual in
    let reason = if fallback then "conservative fallback" else "measured usage settled" in
    record {
      outcome = if over then over_budget else settled;
      actual_tokens = actual;
      fallback_used = fallback;
      reason = if over then "over budget" else reason;
      settlement_ref = invocation;
    }

unfoldable pub new_settlement : String → ModelUsage → ℤ → EnergySettlement
new_settlement invocation usage reserved =
    settlement_of invocation reserved (compute_consumption usage reserved)

-- `settle` from what is settled already.
unfoldable pub settle_from :
    Option EnergySettlement
    → String
    → String
    → ModelUsage
    → EnergyLifecycle
    → Option EnergySettlement × EnergyLifecycle
settle_from (some existing) ref invocation usage l = (some existing, l)
settle_from none ref invocation usage l =
    let s = new_settlement invocation usage (reserved_tokens_of ref l) in
    (some s, record l { settled = put invocation s l.settled })

-- `settle`: `none` where it raises.
unfoldable pub settle :
    String → String → ModelUsage → EnergyLifecycle → Option EnergySettlement × EnergyLifecycle
settle ref invocation usage l =
    if is_blank invocation
    then (none, l)
    else settle_from (get invocation l.settled) ref invocation usage l
