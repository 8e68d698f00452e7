-- ===== src/Energy/Routing.antt =====
-- energy/routing.py: the choice of a route, from the plan and a snapshot of what is available.
pub mod Laws
use ant_orchestrator.Prelude.{
  Bool, true, false, ◌&&◌, Option, none, some, List, [], ◌∷◌, if◌then◌else◌,
}
use ant_orchestrator.Prelude.Int.{ℤ, pos, ltb_ℤ}
use ant_orchestrator.Prelude.Dict.{Dict, get}
use ant_orchestrator.Energy.Port.{
  ResourceKind, kind_is_eq, Amounts, EnergyBudget, CapabilityKind, QualityRequirement,
  EnergyDecision, RoutingReason, EnergyActionPlan, llm_inference, code_execution, file_operation,
  deterministic, cache_only, cloud_required, use_deterministic_tool, use_cache, route_local,
  downgrade, pending_approval, reject, any, local_capable,
}
use ant_orchestrator.Energy.Ledger.{amount_of}

pub record RoutingDecision : Type 0 where
  pub decision : EnergyDecision
  pub reason : RoutingReason
  pub downgrade_resources : Option Amounts

abbrev pub routed : EnergyDecision → RoutingReason → RoutingDecision
routed d r = record { decision = d; reason = r; downgrade_resources = none }

-- What a snapshot says of each kind: `None` for a kind that is not governed.
abbrev pub Snapshot : Type 0
Snapshot = Dict ResourceKind (Option ℤ)

-- `available.get(kind)`
unfoldable pub available_in : ResourceKind → Snapshot → Option ℤ
available_in kind snapshot = elim (get kind snapshot) [ none ↦ none | some a ↦ a ]

-- `cap in _MODEL_SATISFIES`
abbrev pub model_satisfies : CapabilityKind → Bool
model_satisfies llm_inference = true
model_satisfies code_execution = true
model_satisfies file_operation = true
model_satisfies deterministic = false
model_satisfies cache_only = false

abbrev pub is_deterministic : CapabilityKind → Bool
is_deterministic deterministic = true
is_deterministic _ = false

abbrev pub is_cloud_required : QualityRequirement → Bool
is_cloud_required cloud_required = true
is_cloud_required any = false
is_cloud_required local_capable = false

-- Either exit of the loop of `_check_local_budget`.
abbrev pub downgrade_or : EnergyActionPlan → RoutingReason → RoutingDecision
downgrade_or plan reason = elim plan.downgrade_resources [
  | none ↦ routed pending_approval reason
  | some amounts ↦ record {
    decision = downgrade;
    reason = RoutingReason.downgrade_available;
    downgrade_resources = some amounts;
  }
]

-- The loop of `_check_local_budget`.
unfoldable pub check_kinds : EnergyActionPlan → Snapshot → List ResourceKind → RoutingDecision
check_kinds plan available [] = routed route_local RoutingReason.local_capable
check_kinds plan available (kind ∷ rest) = elim (available_in kind available) [
  | none ↦ downgrade_or plan RoutingReason.missing_required_budget
  | some avail ↦ elim (ltb_ℤ avail (amount_of kind plan.estimated_resources)) [
    | true ↦ downgrade_or plan RoutingReason.budget_insufficient
    | false ↦ check_kinds plan available rest
  ]
]

unfoldable pub check_local_budget : EnergyActionPlan → Snapshot → RoutingDecision
check_local_budget plan available = check_kinds plan available plan.required_resources

unfoldable pub cloud_or_reject : EnergyActionPlan → RoutingReason → RoutingDecision
cloud_or_reject plan reason =
    if plan.cloud_available
    then routed pending_approval RoutingReason.cloud_requires_approval
    else routed reject reason

abbrev is_local_or_downgrade : EnergyDecision → Bool
is_local_or_downgrade route_local = true
is_local_or_downgrade downgrade = true
is_local_or_downgrade _ = false

-- Step 5 of `route`, from the answer of `_check_local_budget`.
unfoldable pub route_from_local : EnergyActionPlan → RoutingDecision → RoutingDecision
route_from_local plan local =
    if is_local_or_downgrade local.decision
    then local
    else if plan.cloud_available
    then routed pending_approval RoutingReason.cloud_requires_approval
    else routed pending_approval local.reason

unfoldable pub route : EnergyActionPlan → EnergyBudget → Snapshot → RoutingDecision
unfolding cloud_or_reject route_from_local
route plan budget available =
    if plan.deterministic_available && is_deterministic plan.required_capability
    then routed use_deterministic_tool RoutingReason.deterministic_available
    else if plan.cache_valid
    then routed use_cache RoutingReason.cache_hit
    else if model_satisfies plan.required_capability
    then (if is_cloud_required plan.quality_requirement
        then cloud_or_reject plan RoutingReason.quality_requirement
        else if plan.local_available
        then route_from_local plan (check_local_budget plan available)
        else cloud_or_reject plan RoutingReason.local_unavailable)
    else routed reject RoutingReason.capability_requirement
