-- ===== src/Energy/Tests.antt =====
-- Concrete budgets, calls and plans, and the theorems of the energy component applied to them.
use ant_orchestrator.Prelude.{◌≡◌, ◌≢◌, ◌↔◌, refl, true, false, none, some, List, [], ◌∷◌, All}
use ant_orchestrator.Prelude.Equality.{string_eq}
use ant_orchestrator.Prelude.Int.{pos, negsuc, ◌≤ℤ◌, ◌+ℤ◌, ◌-ℤ◌, ltb_ℤ, max_ℤ}
use ant_orchestrator.Prelude.Dict.{get, has, put}
use ant_orchestrator.Energy.Port.{
  ResourceKind, tokens, kind_is_eq, kind_eq, Amounts, any_negative, new_budget, EnergyBudget,
  limit_for, invariant_violation, energy_reservation, EnergyActionPlan, EnergyActionResult,
  route_local, local_llm_inference, llm_inference, QualityRequirement,
}
use ant_orchestrator.Energy.Ledger.{
  EnergyReservation, ReservationLedger, new_ledger, amount_of, negative_option, new_reservation,
  check_amount, check_amounts, bump, commit_amounts, store, reserve, get_active, settle_kind,
  settle_kinds, consume_active, consume, release, available,
}
use ant_orchestrator.Energy.Ledger.Rules.{made}
use ant_orchestrator.Energy.Ledger.Runs.{
  LedgerCall, IsCall, reserve_call, consume_call, release_call, call, run_calls, run_calls-IsValid,
  new_ledger-IsValid,
}
use ant_orchestrator.Energy.Ledger.Invariant.{IsValid}
use ant_orchestrator.Energy.Ledger.Limits.{committed_within_limits}
use ant_orchestrator.Energy.Ledger.Lifecycle.{
  raised, raising_changes_nothing, by_consume, by_release, settle as settle_as, settled_once,
  release-reserve,
}
use ant_orchestrator.Energy.Settlement.{
  ModelUsage, unavailable, EnergySettlement, SettlementOutcome, EnergyLifecycle, invalidate,
  reserve as reserve_tokens, settle as settle_usage,
}
use ant_orchestrator.Energy.Settlement.Once.{
  LifecycleCall, invalidate_call, reserve_call, run_calls as run_lifecycle, settled_for_good,
  fallback_charge,
}
use ant_orchestrator.Energy.Enforcement.{check_budget_coverage, uncovered}
use ant_orchestrator.Energy.Enforcement.Laws.{coverage_governs}
use ant_orchestrator.Energy.Routing.{Snapshot, route}
use ant_orchestrator.Energy.Routing.Laws.{WantsLocal, FitsKind, route_local_iff}
use ant_orchestrator.Energy.Audit.{Services}
use ant_orchestrator.Energy.Manager.Parts.{gives, raised_error, World}
use ant_orchestrator.Energy.Manager.Local.{settle}
use ant_orchestrator.Energy.Manager.{Actions, execute}
use ant_orchestrator.Energy.Manager.Accounts.{execute-Accounted}
use ant_orchestrator.Energy.Manager.Charges.{Accounted}
use ant_orchestrator.Energy.Manager.Guards.{Guarded, model_runs-Guarded, negative_actual_leaks}

abbrev hundred_tokens : Amounts
hundred_tokens = (tokens, pos 100) ∷ []

abbrev forty_tokens : Amounts
forty_tokens = (tokens, pos 40) ∷ []

abbrev thirty_tokens : Amounts
thirty_tokens = (tokens, pos 30) ∷ []

abbrev budget : EnergyBudget
budget = record { limits = hundred_tokens }

abbrev empty_ledger : ReservationLedger
empty_ledger = new_ledger budget

abbrev calls : List LedgerCall
calls =
    reserve_call "a" 1 forty_tokens
    ∷ reserve_call "b" 2 forty_tokens
    ∷ consume_call "a" thirty_tokens
    ∷ release_call "b"
    ∷ []

abbrev env : Services
env = record { sink = λ e. true; new_id = "res-1"; now = λ c. 7 }

abbrev plan : EnergyActionPlan
plan = record {
  task_id = "task";
  correlation_id = "c";
  action_kind = local_llm_inference;
  required_capability = llm_inference;
  estimated_resources = forty_tokens;
  required_resources = tokens ∷ [];
  deterministic_available = false;
  cache_valid = false;
  local_available = true;
  cloud_available = false;
  allow_auto_cloud = false;
  quality_requirement = QualityRequirement.any;
  context_disposition = none;
  retry_index = pos 0;
  max_retries = pos 2;
  downgrade_resources = none;
}

abbrev used_thirty : EnergyActionResult
used_thirty = record { actual = thirty_tokens; side_effect_started = true }

abbrev actions : Actions
actions = record {
  model_action = some (gives used_thirty);
  deterministic_action = none;
  cache_action = none;
}

abbrev used_minus_one : EnergyActionResult
used_minus_one = record { actual = (tokens, negsuc 0) ∷ []; side_effect_started = true }

abbrev reservation : EnergyReservation
reservation = made "res-1" 7 forty_tokens

-- A ledger in which the reservation is active.
abbrev busy_world : World
busy_world = record {
  ledger = record {
    budget = budget;
    committed = forty_tokens;
    reservations = ("res-1", reservation) ∷ [];
  };
  effects = [];
}

are_calls : All IsCall calls
unfolding get
are_calls = ((refl, tt), ((refl, tt), (tt, (tt, tt))))

run_calls-IsValid_example : IsValid (run_calls calls empty_ledger).1
run_calls-IsValid_example =
    run_calls-IsValid calls empty_ledger are_calls (new_ledger-IsValid budget)

committed_within_limits_example :
    (pos 0 ≤ℤ amount_of tokens (run_calls calls empty_ledger).1.committed)
    × (amount_of tokens (run_calls calls empty_ledger).1.committed ≤ℤ pos 100)
unfolding run_calls call reserve consume consume_active release store new_reservation any_negative
    get put has check_amounts check_amount commit_amounts bump settle_kinds settle_kind get_active
    amount_of new_ledger new_budget limit_for ltb_ℤ max_ℤ ◌+ℤ◌ ◌-ℤ◌ kind_eq negative_option
committed_within_limits_example =
    committed_within_limits hundred_tokens budget calls tokens (pos 100) refl are_calls refl refl

raising_changes_nothing_example : (call (reserve_call "a" 1 []) empty_ledger).1 ≡ empty_ledger
unfolding reserve
raising_changes_nothing_example =
    raising_changes_nothing (reserve_call "a" 1 []) empty_ledger (new_ledger-IsValid budget) refl

abbrev one_call : List LedgerCall
one_call = reserve_call "a" 1 forty_tokens ∷ []

abbrev busy_ledger : ReservationLedger
busy_ledger = (run_calls one_call empty_ledger).1

busy_ledger-IsValid : IsValid busy_ledger
unfolding get
busy_ledger-IsValid =
    run_calls-IsValid one_call empty_ledger ((refl, tt), tt) (new_ledger-IsValid budget)

settled_once_example :
    settle_as by_release "a" (settle_as (by_consume thirty_tokens) "a" busy_ledger).1
    ≡ (some energy_reservation, (settle_as (by_consume thirty_tokens) "a" busy_ledger).1)
unfolding run_calls call reserve consume consume_active store new_reservation any_negative get put
    has check_amounts check_amount commit_amounts bump settle_kinds settle_kind get_active amount_of
    new_ledger ltb_ℤ max_ℤ ◌+ℤ◌ ◌-ℤ◌ kind_eq negative_option
settled_once_example =
    settled_once (by_consume thirty_tokens) by_release "a" busy_ledger busy_ledger-IsValid refl

release-reserve_example :
    let l' = (reserve "b" 2 forty_tokens empty_ledger).1 in
    (raised (release "b" l').0 ≡ false)
    × ((k : ResourceKind) → available k (release "b" l').1 ≡ available k empty_ledger)
unfolding reserve store new_reservation any_negative get put has check_amounts check_amount
    commit_amounts bump amount_of new_ledger ltb_ℤ ◌-ℤ◌ ◌+ℤ◌ kind_eq negative_option
release-reserve_example =
    release-reserve empty_ledger "b" 2 forty_tokens (new_ledger-IsValid budget) (refl, tt) refl

coverage_governs_example : All (λ k. limit_for budget k ≢ none) plan.required_resources
unfolding check_budget_coverage uncovered limit_for get kind_eq
coverage_governs_example = coverage_governs plan budget refl

abbrev sixty_left : Snapshot
sixty_left = (tokens, some (pos 60)) ∷ []

route_local_iff_example :
    ((route plan budget sixty_left).decision ≡ route_local)
    ↔ (WantsLocal plan × All (FitsKind plan sixty_left) plan.required_resources)
route_local_iff_example = route_local_iff plan budget sixty_left

execute-Accounted_example :
    Accounted empty_ledger
      (execute env plan actions (record { ledger = empty_ledger; effects = [] }))
unfolding get
execute-Accounted_example =
    execute-Accounted env plan actions (record { ledger = empty_ledger; effects = [] })
      (new_ledger-IsValid budget) ((refl, tt), tt)

model_runs-Guarded_example :
    Guarded "res-1" 0
      (execute env plan actions (record { ledger = empty_ledger; effects = [] })).1.effects
model_runs-Guarded_example = model_runs-Guarded env plan actions empty_ledger

negative_actual_leaks_example :
    settle env plan reservation used_minus_one busy_world
    ≡ (raised_error invariant_violation, busy_world)
unfolding any_negative ltb_ℤ get
negative_actual_leaks_example =
    negative_actual_leaks env plan reservation used_minus_one busy_world refl refl refl

abbrev no_usage : ModelUsage
no_usage = record { status = unavailable; tokens_in = none; tokens_out = none; tokens_total = none }

abbrev settlement : EnergySettlement
settlement = record {
  outcome = SettlementOutcome.settled;
  actual_tokens = pos 12;
  fallback_used = false;
  reason = "measured usage settled";
  settlement_ref = "call-1";
}

-- One reservation of forty tokens, and one settled invocation.
abbrev lifecycle : EnergyLifecycle
lifecycle = record {
  reservations = ("ref", record { reserved_tokens = pos 40; valid = true }) ∷ [];
  settled = ("call-1", settlement) ∷ [];
}

abbrev later : List LifecycleCall
later = invalidate_call "ref" ∷ []

settled_for_good_example :
    settle_usage "ref" "call-1" no_usage (run_lifecycle later lifecycle)
    ≡ (some settlement, run_lifecycle later lifecycle)
unfolding get
settled_for_good_example =
    settled_for_good later lifecycle "ref" "call-1" no_usage settlement refl refl

-- The reservation is revoked, and another one is made.
abbrev in_between : List LifecycleCall
in_between = invalidate_call "new" ∷ reserve_call "ref" (pos 7) ∷ []

fallback_charge_example :
    (settle_usage "new" "call-2" no_usage
      (run_lifecycle in_between (reserve_tokens "new" (pos 25) lifecycle).1)).0
    ≡ some (record {
      outcome = SettlementOutcome.settled;
      actual_tokens = pos 25;
      fallback_used = true;
      reason = "conservative fallback";
      settlement_ref = "call-2";
    })
unfolding get put reserve_tokens invalidate ltb_ℤ
fallback_charge_example =
    fallback_charge in_between lifecycle "new" "call-2" (pos 25) no_usage refl refl refl refl refl
