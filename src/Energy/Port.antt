-- ===== src/Energy/Port.antt =====
-- application/ports/energy.py: the vocabulary of the energy component, budgets and action plans.
use ant_orchestrator.Prelude.{
  ℕ, ◌≡◌, ◌↔◌, Bool, true, false, Option, none, some, List, [], ◌∷◌, String, arith, ◌==◌,
  if◌then◌else◌,
}
use ant_orchestrator.Prelude.Equality.{Eq}
use ant_orchestrator.Prelude.Int.{ℤ, pos, ltb_ℤ}
use ant_orchestrator.Prelude.Dict.{Dict, get}

pub data ResourceKind : Type 0 where
  tokens api_calls wall_time retries human_approvals : ResourceKind

abbrev kind_index : ResourceKind → ℕ
kind_index tokens = 0
kind_index api_calls = 1
kind_index wall_time = 2
kind_index retries = 3
kind_index human_approvals = 4

unfoldable pub kind_eq : ResourceKind → ResourceKind → Bool
kind_eq a b = kind_index a == kind_index b

pub kind_eq_iff : (a b : ResourceKind) → (kind_eq a b ≡ true) ↔ (a ≡ b)
unfolding kind_eq
kind_eq_iff a b = ground arith

instance abbrev pub kind_is_eq : Eq ResourceKind
kind_is_eq = record { beq = kind_eq; beq_iff = kind_eq_iff }

-- Every member of the enumeration.
abbrev pub all_kinds : List ResourceKind
all_kinds = tokens ∷ api_calls ∷ wall_time ∷ retries ∷ human_approvals ∷ []

-- A mapping from resource kinds to Python integers.
abbrev pub Amounts : Type 0
Amounts = Dict ResourceKind ℤ

-- The exceptions that the component raises.
pub data EnergyError : Type 0 where
  invariant_violation : EnergyError
  energy_budget_exceeded : EnergyError
  energy_reservation : EnergyError

-- What a Python call gives: a value, or an exception.
pub data Result {ℓ} (A : Type ℓ) : Type ℓ where
  ok : A → Result A
  raise : EnergyError → Result A

pub data ReservationStatus : Type 0 where
  reserved consumed released expired : ReservationStatus

-- `any(v < 0 for v in amounts.values())`
unfoldable pub any_negative : Amounts → Bool
any_negative [] = false
any_negative ((_, v) ∷ rest) = if ltb_ℤ v (pos 0) then true else any_negative rest

-- `EnergyBudget`: the limits, which its constructor checks. A kind with no limit is not governed.
pub record EnergyBudget : Type 0 where
  pub limits : Amounts

unfoldable pub new_budget : Amounts → Result EnergyBudget
unfolding any_negative
new_budget limits =
    if any_negative limits then raise invariant_violation else ok (record { limits = limits })

unfoldable pub limit_for : EnergyBudget → ResourceKind → Option ℤ
limit_for budget kind = get kind budget.limits

pub data ActionKind : Type 0 where
  local_llm_inference cloud_llm_inference tool_execution : ActionKind
  deterministic_compute cache_lookup : ActionKind

pub data CapabilityKind : Type 0 where
  llm_inference code_execution file_operation deterministic cache_only : CapabilityKind

pub data QualityRequirement : Type 0 where
  any local_capable cloud_required : QualityRequirement

pub data EnergyDecision : Type 0 where
  allow use_deterministic_tool use_cache route_local escalate_cloud : EnergyDecision
  downgrade pending_approval reject stop : EnergyDecision

pub data RoutingReason : Type 0 where
  deterministic_available cache_hit local_capable local_unavailable : RoutingReason
  capability_requirement quality_requirement budget_insufficient : RoutingReason
  missing_required_budget cloud_requires_approval context_budget_exceeded : RoutingReason
  security_policy_rejection route_not_eligible downgrade_available within_budget : RoutingReason
  reservation_rejected retry_limit_exceeded : RoutingReason

pub data EnforcementReason : Type 0 where
  within_budget budget_insufficient missing_required_budget : EnforcementReason
  reservation_rejected runtime_budget_exceeded context_budget_exceeded : EnforcementReason
  security_policy_rejection retry_limit_exceeded downgrade_available : EnforcementReason
  deterministic_no_reservation cache_no_reservation : EnforcementReason

pub data ApprovalReason : Type 0 where
  cloud_requires_approval context_budget_exceeded runtime_budget_exceeded : ApprovalReason
  budget_insufficient retry_limit_exceeded : ApprovalReason

pub data ApprovalConsequence : Type 0 where
  action_rejected action_downgraded task_stopped : ApprovalConsequence

pub data BudgetCoverage : Type 0 where
  governed ungoverned_allowed missing_required_limit : BudgetCoverage

pub record ContextDisposition : Type 0 where
  pub dispatchable : Bool
  pub required_budget_failure : Bool
  pub required_security_failure : Bool

-- `required_resources` is a frozenset: the list is the order in which a loop meets its elements.
pub record EnergyActionPlan : Type 0 where
  pub task_id : String
  pub correlation_id : String
  pub action_kind : ActionKind
  pub required_capability : CapabilityKind
  pub estimated_resources : Amounts
  pub required_resources : List ResourceKind
  pub deterministic_available : Bool
  pub cache_valid : Bool
  pub local_available : Bool
  pub cloud_available : Bool
  pub allow_auto_cloud : Bool
  pub quality_requirement : QualityRequirement
  pub context_disposition : Option ContextDisposition
  pub retry_index : ℤ
  pub max_retries : ℤ
  pub downgrade_resources : Option Amounts

abbrev amounts_or_empty : Option Amounts → Amounts
amounts_or_empty none = []
amounts_or_empty (some amounts) = amounts

-- `EnergyActionPlan.__post_init__`
unfoldable pub check_plan : EnergyActionPlan → Result EnergyActionPlan
unfolding any_negative
check_plan plan =
    if any_negative plan.estimated_resources
    then raise invariant_violation
    else if any_negative (amounts_or_empty plan.downgrade_resources)
    then raise invariant_violation
    else if ltb_ℤ plan.retry_index (pos 0)
    then raise invariant_violation
    else if ltb_ℤ plan.max_retries (pos 0)
    then raise invariant_violation
    else ok plan

-- `with_estimated_resources`: `dataclasses.replace`, which checks the new plan again.
unfoldable pub with_estimated_resources : EnergyActionPlan → Amounts → Result EnergyActionPlan
unfolding check_plan
with_estimated_resources plan resources =
    check_plan (record plan { estimated_resources = resources })

pub record EnergyActionResult : Type 0 where
  pub actual : Amounts
  pub side_effect_started : Bool

-- An approval handed over to a person.
pub record ApprovalRequest : Type 0 where
  pub task_id : String
  pub correlation_id : String
  pub action_kind : ActionKind
  pub current_budget : EnergyBudget
  pub required_additional : Amounts
  pub proposed_route : EnergyDecision
  pub reason : ApprovalReason
  pub alternatives_tried : List EnergyDecision
  pub consequence_if_denied : ApprovalConsequence
  pub created_at : ℕ
