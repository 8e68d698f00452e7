-- ===== src/Workflow/DecisionGate.antt =====
-- workflows/decision_gate.py and workflows/energy_gate.py: which actions wait for approval.
use ant_orchestrator.Prelude.{true, false, Option, none, some, [], ◌∷◌, String, if◌then◌else◌}
use ant_orchestrator.Prelude.Int.{pos}
use ant_orchestrator.Prelude.Text.{◌⊕◌}
use ant_orchestrator.Energy.Port.{
  tokens, EnergyActionPlan, EnergyBudget, EnergyDecision, local_llm_inference, llm_inference,
  QualityRequirement,
}
use ant_orchestrator.Energy.Ledger.{ConsumptionOutcome}
use ant_orchestrator.Energy.Enforcement.{
  check_budget_coverage, check_consumption, check_retry_limit,
}
use ant_orchestrator.Workflow.Port.{
  GateType, significant_write, unsafe_command, energy_budget, retry_limit, scope_change,
  ApprovalContinuation, execute, replan, WorkerActionIntent,
}

pub data DecisionGateOutcome : Type 0 where
  allow require_approval deny : DecisionGateOutcome

pub data DecisionGateReason : Type 0 where
  no_significant_write significant_write_requires_approval no_unsafe_command : DecisionGateReason
  unsafe_command_requires_approval energy_within_budget energy_requires_approval :
      DecisionGateReason
  energy_security_rejected energy_unclassified retry_within_limit : DecisionGateReason
  retry_limit_requires_approval scope_change_requires_approval : DecisionGateReason

-- `DecisionGateReason.value`
unfoldable pub reason_value : DecisionGateReason → String
reason_value no_significant_write = "no_significant_write"
reason_value significant_write_requires_approval = "significant_write_requires_approval"
reason_value no_unsafe_command = "no_unsafe_command"
reason_value unsafe_command_requires_approval = "unsafe_command_requires_approval"
reason_value energy_within_budget = "energy_within_budget"
reason_value energy_requires_approval = "energy_requires_approval"
reason_value energy_security_rejected = "energy_security_rejected"
reason_value energy_unclassified = "energy_unclassified"
reason_value retry_within_limit = "retry_within_limit"
reason_value retry_limit_requires_approval = "retry_limit_requires_approval"
reason_value scope_change_requires_approval = "scope_change_requires_approval"

pub record DecisionGateResult : Type 0 where
  pub outcome : DecisionGateOutcome
  pub reason : DecisionGateReason
  pub gate_type : GateType
  pub approved_continuation : Option ApprovalContinuation

-- `continuation_for_gate` of workflows/intent.py, whose table has every gate.
unfoldable pub continuation_for_gate : GateType → ApprovalContinuation
continuation_for_gate scope_change = replan
continuation_for_gate _ = execute

-- `_approval`
unfoldable pub approval : GateType → DecisionGateReason → DecisionGateResult
approval gate reason = record {
  outcome = require_approval;
  reason = reason;
  gate_type = gate;
  approved_continuation = some (continuation_for_gate gate);
}

abbrev pub allowed : GateType → DecisionGateReason → DecisionGateResult
allowed gate reason = record {
  outcome = allow;
  reason = reason;
  gate_type = gate;
  approved_continuation = none;
}

abbrev pub denied : DecisionGateReason → DecisionGateResult
denied reason = record {
  outcome = deny;
  reason = reason;
  gate_type = energy_budget;
  approved_continuation = none;
}

unfoldable pub evaluate_significant_write : WorkerActionIntent → DecisionGateResult
evaluate_significant_write intent =
    if intent.requires_significant_write
    then approval significant_write significant_write_requires_approval
    else allowed significant_write no_significant_write

unfoldable pub evaluate_unsafe_command : WorkerActionIntent → DecisionGateResult
evaluate_unsafe_command intent =
    if intent.requires_unsafe_command
    then approval unsafe_command unsafe_command_requires_approval
    else allowed unsafe_command no_unsafe_command

-- `_map_energy`
unfoldable pub map_energy : EnergyDecision → DecisionGateResult
map_energy EnergyDecision.allow = allowed energy_budget energy_within_budget
map_energy EnergyDecision.pending_approval = approval energy_budget energy_requires_approval
map_energy EnergyDecision.stop = approval energy_budget energy_requires_approval
map_energy EnergyDecision.reject = denied energy_security_rejected
map_energy _ = denied energy_unclassified

unfoldable pub evaluate_energy_budget : EnergyActionPlan → EnergyBudget → DecisionGateResult
evaluate_energy_budget plan budget = map_energy (check_budget_coverage plan budget).decision

unfoldable pub evaluate_energy_consumption :
    EnergyActionPlan → ConsumptionOutcome → DecisionGateResult
evaluate_energy_consumption plan outcome = map_energy (check_consumption plan outcome).decision

unfoldable pub evaluate_retry_limit : EnergyActionPlan → DecisionGateResult
evaluate_retry_limit plan = elim (check_retry_limit plan).decision [
  | EnergyDecision.stop ↦ approval retry_limit retry_limit_requires_approval
  | _ ↦ allowed retry_limit retry_within_limit
]

abbrev pub evaluate_scope_change : DecisionGateResult
evaluate_scope_change = approval scope_change scope_change_requires_approval

-- `_EMPTY_BUDGET`
abbrev pub empty_budget : EnergyBudget
empty_budget = record { limits = [] }

-- `_governed_plan`, of a task identifier that is not empty, as that of every stored task: `TaskId` raises
-- on an empty one.
unfoldable pub governed_plan : String → EnergyActionPlan
governed_plan task_id = record {
  task_id = task_id;
  correlation_id = "energy-gate-" ⊕ task_id;
  action_kind = local_llm_inference;
  required_capability = llm_inference;
  estimated_resources = (tokens, pos 1) ∷ [];
  required_resources = tokens ∷ [];
  deterministic_available = false;
  cache_valid = false;
  local_available = true;
  cloud_available = false;
  allow_auto_cloud = false;
  quality_requirement = QualityRequirement.any;
  context_disposition = none;
  retry_index = pos 0;
  max_retries = pos 0;
  downgrade_resources = none;
}

unfoldable pub evaluate_energy_gate : String → DecisionGateResult
evaluate_energy_gate task_id = evaluate_energy_budget (governed_plan task_id) empty_budget
