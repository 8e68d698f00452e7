-- ===== src/Energy/Enforcement.antt =====
-- energy/enforcement.py: the checks that stand between a plan and its execution.
pub mod Laws
use ant_orchestrator.Prelude.{
  Bool, true, false, not, ◌&&◌, Option, none, some, List, [], ◌∷◌, if◌then◌else◌,
}
use ant_orchestrator.Prelude.Int.{ℤ, pos, ltb_ℤ}
use ant_orchestrator.Energy.Port.{
  ResourceKind, EnergyBudget, limit_for, EnergyDecision, EnforcementReason, ApprovalReason,
  BudgetCoverage, ContextDisposition, EnergyActionPlan, allow, pending_approval, reject, stop,
}
use ant_orchestrator.Energy.Ledger.{ConsumptionOutcome}

pub record EnforcementDecision : Type 0 where
  pub decision : EnergyDecision
  pub reason : EnforcementReason
  pub approval_reason : Option ApprovalReason
  pub coverage : Option BudgetCoverage

-- `decision is EnergyDecision.ALLOW`
abbrev pub is_allow : EnergyDecision → Bool
is_allow allow = true
is_allow _ = false

abbrev pub within : EnforcementDecision
within = record {
  decision = allow;
  reason = EnforcementReason.within_budget;
  approval_reason = none;
  coverage = none;
}

-- The loop of `check_budget_coverage`.
unfoldable pub uncovered : List ResourceKind → EnergyBudget → Bool
uncovered [] budget = false
uncovered (kind ∷ rest) budget = elim (limit_for budget kind) [
  | none ↦ true
  | some _ ↦ uncovered rest budget
]

unfoldable pub check_budget_coverage : EnergyActionPlan → EnergyBudget → EnforcementDecision
check_budget_coverage plan budget =
    if uncovered plan.required_resources budget
    then record {
      decision = pending_approval;
      reason = EnforcementReason.missing_required_budget;
      approval_reason = some ApprovalReason.budget_insufficient;
      coverage = some BudgetCoverage.missing_required_limit;
    }
    else record within { coverage = some BudgetCoverage.governed }

unfoldable pub check_consumption : EnergyActionPlan → ConsumptionOutcome → EnforcementDecision
check_consumption plan outcome =
    if outcome.overrun
    then record {
      decision = stop;
      reason = EnforcementReason.runtime_budget_exceeded;
      approval_reason = some ApprovalReason.runtime_budget_exceeded;
      coverage = none;
    }
    else within

unfoldable pub check_context_disposition : ContextDisposition → EnforcementDecision
check_context_disposition disposition =
    if disposition.required_security_failure
    then record {
      decision = reject;
      reason = EnforcementReason.security_policy_rejection;
      approval_reason = none;
      coverage = none;
    }
    else if disposition.required_budget_failure
    then record {
      decision = pending_approval;
      reason = EnforcementReason.context_budget_exceeded;
      approval_reason = some ApprovalReason.context_budget_exceeded;
      coverage = none;
    }
    else within

-- `0` for `max_retries` is no limit.
unfoldable pub check_retry_limit : EnergyActionPlan → EnforcementDecision
check_retry_limit plan =
    if ltb_ℤ (pos 0) plan.max_retries && not (ltb_ℤ plan.retry_index plan.max_retries)
    then record {
      decision = stop;
      reason = EnforcementReason.retry_limit_exceeded;
      approval_reason = some ApprovalReason.retry_limit_exceeded;
      coverage = none;
    }
    else within
