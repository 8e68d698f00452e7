-- ===== src/Workflow/Nodes.antt =====
-- workflows/nodes.py and workflows/intent.py: the pure nodes. A node gives the state with its delta
-- merged in; SHA-256 is a parameter.
use ant_orchestrator.Prelude.{
  ℕ, ◌+◌, ◌==◌, Bool, false, ◌&&◌, ◌||◌, Option, none, some, String, if◌then◌else◌,
}
use ant_orchestrator.Prelude.Equality.{string_eq, ◌≟◌}
use ant_orchestrator.Prelude.Text.{◌⊕◌, is_blank, str}
use ant_orchestrator.Workflow.Port.{
  GateType, significant_write, unsafe_command, energy_budget, retry_limit, scope_change,
  ApprovalContinuation, accept_result, replan, WorkerOutcome, success, retryable_failure,
  permanent_failure, validation_failure, review_regroup, escalation,
}
use ant_orchestrator.Workflow.DecisionGate.{
  DecisionGateOutcome, allow, require_approval, deny, continuation_for_gate,
}
use ant_orchestrator.Workflow.State.{GraphState, Phase, Status, Plan, Payload, ApprovalIntent}

-- `GateType.value`
unfoldable pub gate_value : GateType → String
gate_value significant_write = "significant_write"
gate_value unsafe_command = "unsafe_command"
gate_value energy_budget = "energy_budget"
gate_value retry_limit = "retry_limit"
gate_value scope_change = "scope_change"

-- The unit separator, which cannot occur in an identifier.
abbrev key_sep : String
key_sep = "\u{1f}"

unfoldable pub canonical_gate_key : String → GateType → String → ℕ → String
canonical_gate_key run_id gate action_id sequence =
    run_id ⊕ key_sep ⊕ gate_value gate ⊕ key_sep ⊕ action_id ⊕ key_sep ⊕ str sequence

unfoldable pub compute_gate_instance_id :
    (String → String) → String → GateType → String → ℕ → String
compute_gate_instance_id sha256 run_id gate action_id sequence =
    "gate-" ⊕ sha256 (canonical_gate_key run_id gate action_id sequence)

-- `review_escalation_continuation`: `none` where it raises.
unfoldable pub review_escalation_continuation : ApprovalContinuation → Option ApprovalContinuation
review_escalation_continuation accept_result = some accept_result
review_escalation_continuation replan = some replan
review_escalation_continuation _ = none

unfoldable pub build_approval_intent :
    (String → String)
    → String
    → GateType
    → String
    → ℕ
    → Payload
    → Option ApprovalContinuation
    → ApprovalIntent
build_approval_intent sha256 run_id gate action_id sequence payload continuation = record {
  gate_instance_id = compute_gate_instance_id sha256 run_id gate action_id sequence;
  gate_type = gate;
  logical_action_id = action_id;
  approval_gate_sequence = sequence;
  approved_continuation = elim continuation [ none ↦ continuation_for_gate gate | some c ↦ c ];
  sanitized_payload = payload;
}

unfoldable pub plan_node : GraphState → GraphState
plan_node state = record state {
  plan = some (record { goal = "goal:" ⊕ state.task_id; plan_revision = state.regroup_count });
  phase = Phase.context;
}

abbrev revision_of : Option Plan → ℕ
revision_of none = 0
revision_of (some p) = p.plan_revision

unfoldable pub context_node : GraphState → GraphState
context_node state =
    if is_blank state.context_package_ref || is_blank state.manifest_digest
    then record state {
      context_ref = "ctx:" ⊕ state.workflow_run_id ⊕ ":" ⊕ str (revision_of state.plan);
      phase = Phase.execute;
    }
    else record state { context_ref = state.context_package_ref; phase = Phase.execute }

-- `_DECISION_PHASE`
unfoldable pub decision_phase : DecisionGateOutcome → Phase
decision_phase allow = Phase.execute
decision_phase require_approval = Phase.prepare_intent
decision_phase deny = Phase.failed

-- `decision_node`, with the reason's value as the caller hands it over.
unfoldable pub decision_node : GraphState → DecisionGateOutcome → String → GraphState
decision_node state deny reason = record state {
  phase = decision_phase deny;
  error_summary = some reason;
}
decision_node state outcome reason = record state { phase = decision_phase outcome }

-- `_is_same_occurrence`
unfoldable pub is_same_occurrence : Option ApprovalIntent → GateType → String → ℕ → Bool
is_same_occurrence none gate action_id sequence = false
is_same_occurrence (some existing) gate action_id sequence =
    (gate_value existing.gate_type ≟ gate_value gate)
    && (existing.logical_action_id ≟ action_id)
    && (existing.approval_gate_sequence == sequence)

-- `prepare_approval_intent`, with the phase that its one caller sets where the delta has none.
unfoldable pub prepare_approval_intent :
    (String → String)
    → GraphState
    → GateType
    → String
    → Payload
    → Option ApprovalContinuation
    → GraphState
prepare_approval_intent sha256 state gate action_id payload continuation =
    if is_same_occurrence state.approval_intent gate action_id state.approval_gate_sequence
    then record state { phase = Phase.await_approval }
    else record state {
      approval_intent = some (
          build_approval_intent sha256 state.workflow_run_id gate action_id
            (state.approval_gate_sequence + 1) payload continuation);
      approval_gate_sequence = state.approval_gate_sequence + 1;
      phase = Phase.await_approval;
    }

-- `_VALIDATION_STATUS`
unfoldable pub validation_status : WorkerOutcome → Status
validation_status success = Status.pass
validation_status retryable_failure = Status.retryable
validation_status validation_failure = Status.retryable
validation_status review_regroup = Status.regroup
validation_status permanent_failure = Status.fatal
validation_status escalation = Status.escalate

-- `_REVIEW_STATUS`
unfoldable pub review_status : WorkerOutcome → Status
review_status success = Status.ok
review_status review_regroup = Status.regroup
review_status _ = Status.escalate

unfoldable pub evaluate_validation : GraphState → WorkerOutcome → GraphState
evaluate_validation state outcome = record state {
  validation_result = some (record { status = validation_status outcome; reason_code = outcome });
  phase = Phase.validate;
}

unfoldable pub evaluate_review : GraphState → WorkerOutcome → GraphState
evaluate_review state outcome = record state {
  review_result = some (record { status = review_status outcome; reason_code = outcome });
  phase = Phase.review;
}
