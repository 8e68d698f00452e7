-- ===== src/Workflow/Tests.antt =====
-- Concrete runs of the workflow graph, and the theorems about it applied to them.
use ant_orchestrator.Prelude.{◌≡◌, refl, true, false, none, some, [], String, arith}
use ant_orchestrator.Prelude.Equality.{string_eq, ◌≟◌}
use ant_orchestrator.Workflow.Port.{
  execute, significant_write, success, WorkerActionIntent, from_state_dict, check_intent,
}
use ant_orchestrator.Workflow.State.{GraphState, Phase, ApprovalIntent, new_graph_state}
use ant_orchestrator.Workflow.DecisionGate.{
  approval, evaluate_significant_write, reason_value, continuation_for_gate,
}
use ant_orchestrator.Workflow.Nodes.{
  decision_node, decision_phase, prepare_approval_intent, is_same_occurrence,
}
use ant_orchestrator.Workflow.Support.{
  mark_pending_gate, intent_from_state, approve, apply_approval_delta, bind_approval,
  continuation_phase, build_escalation_payload,
}
use ant_orchestrator.Workflow.Graph.{
  Wiring, Answers, plan, decision, prepare_intent, await_approval, run_node, evaluate_gate,
  decided_intent, await_step, decision_step, prepare_step,
}
use ant_orchestrator.Workflow.Drive.{goes, successor, drive, ended}
use ant_orchestrator.Workflow.Drive.Termination.{IsStopped, drive_stops}
use ant_orchestrator.Workflow.Drive.Pause.{IsPaused, gated_run_pauses}
use ant_orchestrator.Workflow.Drive.Approval.{
  decision_gates, prepare_replays, execution_is_bound, rejection, refusal_ends,
}

abbrev wiring : Wiring
wiring = record {
  attempt_orchestrator = false;
  cancellation_probe = true;
  documentation_execution = false;
  test_execution = false;
  sha256 = λ s. s;
}

abbrev answer : String → Answers
answer token = record {
  cancel_requested = false;
  attempt_id = none;
  worker = some (record { outcome = success; detail = ""; evidence_refs = [] });
  documentation = none;
  test = none;
  decision_token = token;
}

abbrev fresh_state : GraphState
fresh_state = new_graph_state "task" "run" 2

abbrev writing : WorkerActionIntent
writing = record {
  logical_action_id = "act";
  summary = "write the guide";
  requires_significant_write = true;
  requires_unsafe_command = false;
  requires_energy_approval = false;
  target_paths = [];
  command_argv = [];
}

-- A run that is to write, at its decision.
abbrev writing_state : GraphState
writing_state = record fresh_state {
  action_intent = record { intent = writing; last_outcome = none; pending = none };
}

abbrev after_decision : GraphState
after_decision = record fresh_state {
  phase = Phase.prepare_intent;
  action_intent = record {
    intent = writing;
    last_outcome = none;
    pending = some (record {
      gate_type = significant_write;
      continuation = some execute;
      reason = "significant_write_requires_approval";
    });
  };
}

-- The state that preparing its approval leaves.
abbrev prepared_state : GraphState
prepared_state =
    prepare_approval_intent (λ x. x) after_decision significant_write "act"
      (build_escalation_payload after_decision significant_write
        "significant_write_requires_approval")
      (some execute)

abbrev approval_of_write : ApprovalIntent
approval_of_write = record {
  gate_instance_id = "gate-1";
  gate_type = significant_write;
  logical_action_id = "act";
  approval_gate_sequence = 1;
  approved_continuation = execute;
  sanitized_payload = record {
    reason = "significant_write_requires_approval";
    retry_count = none;
    effective_retry_limit = none;
    regroup_count = none;
    proposal_ref = some "p";
    proposal_digest = some "d";
    manifest_digest = some "m";
  };
}

-- A run that waits for the approval of its proposal.
abbrev waiting_state : GraphState
waiting_state = record fresh_state {
  phase = Phase.await_approval;
  proposal_ref = "p";
  proposal_digest = "d";
  approval_intent = some approval_of_write;
}

abbrev approved_state : GraphState
approved_state = record waiting_state {
  phase = Phase.execute;
  approval_intent = none;
  approval_decision = some "approved";
  approval_ref = "gate-1";
}

-- A new run: twenty-three nodes are enough.
drive_stops_example : IsStopped (drive 23 wiring (λ n. answer "approved") plan fresh_state)
unfolding new_graph_state
drive_stops_example =
    drive_stops 23 wiring (λ n. answer "approved") plan fresh_state (omega arith)
      (omega arith, omega arith, omega arith)

refusal_ends_example :
    drive 2 wiring (λ n. answer "rejected") await_approval waiting_state
    ≡ ended (record waiting_state {
      phase = Phase.rejected;
      approval_decision = some "rejected";
      approval_intent = none;
      final_outcome = some "rejected";
    })
unfolding new_graph_state
refusal_ends_example = refusal_ends rejection 0 wiring (λ n. answer "rejected") waiting_state refl

decision_gates_example : successor decision after_decision.phase ≡ goes prepare_intent
unfolding run_node decision_step intent_from_state from_state_dict check_intent new_graph_state
    decision_node decision_phase decided_intent evaluate_gate evaluate_significant_write approval
    mark_pending_gate reason_value continuation_for_gate
decision_gates_example =
    decision_gates wiring (answer "approved") writing_state after_decision writing refl refl

prepare_replays_example : prepare_step wiring prepared_state ≡ some prepared_state
unfolding prepare_step prepare_approval_intent is_same_occurrence new_graph_state
prepare_replays_example = prepare_replays wiring after_decision prepared_state refl

execution_is_bound_example :
    (i : ApprovalIntent) × (waiting_state.approval_intent ≡ some i)
    × (i.sanitized_payload.proposal_digest ≡ some "d")
    × (approved_state.approval_ref ≡ i.gate_instance_id)
    × (((answer "approved").decision_token ≟ "rejected") ≡ false)
    × (((answer "approved").decision_token ≟ "cancelled") ≡ false)
unfolding await_step apply_approval_delta bind_approval approve continuation_phase new_graph_state
execution_is_bound_example =
    execution_is_bound (answer "approved") waiting_state approved_state refl refl refl

gated_run_pauses_example :
    IsPaused writing_state (drive 4 wiring (λ n. answer "approved") plan writing_state)
unfolding intent_from_state from_state_dict check_intent new_graph_state
gated_run_pauses_example =
    gated_run_pauses wiring (λ n. answer "approved") 0 writing_state writing refl refl refl
