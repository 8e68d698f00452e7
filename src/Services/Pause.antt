-- ===== src/Services/Pause.antt =====
-- application/services/pause_finalizer.py: the approval of a paused run is made once.
use ant_orchestrator.Prelude.{Option, none, some, [], ◌∷◌, String}
use ant_orchestrator.Prelude.Int.{ℤ, pos}
use ant_orchestrator.Domain.Code.{parse}
use ant_orchestrator.Domain.Result.{
  checkpoint_recovery_error, invalid_status_value, key_error, or_fault,
}
use ant_orchestrator.Domain.Status.{
  TaskStatus, ApprovalStatus, WorkflowRunStatus, task_status_value, approval_status_value,
  workflow_run_status_value,
}
use ant_orchestrator.Domain.Execution.{TransitionSubject, TransitionTrigger}
use ant_orchestrator.Domain.Entities.{
  Task, WorkflowRun, run_with_status, with_checkpoint_observed, task_with_status,
}
use ant_orchestrator.Domain.Approval.{Approval, check_approval}
use ant_orchestrator.Store.Tx.{Tx, pure, lift, ◌>>=◌}
use ant_orchestrator.Store.Runs.{get_run, get_task, update_run, update_task}
use ant_orchestrator.Store.Gates.{add_approval, find_by_gate_instance}
use ant_orchestrator.Services.Support.{Env, InterruptView, append_transition, pause_operation_id}
use ant_orchestrator.Workflow.Port.{
  GateType, significant_write, unsafe_command, energy_budget, retry_limit, scope_change,
}

-- `GateType.value`
abbrev pub gate_type_value : GateType → String
gate_type_value significant_write = "significant_write"
gate_type_value unsafe_command = "unsafe_command"
gate_type_value energy_budget = "energy_budget"
gate_type_value retry_limit = "retry_limit"
gate_type_value scope_change = "scope_change"

-- `GateType.parse`; `none` where it raises.
unfoldable pub parse_gate_type : String → Option GateType
unfolding parse
parse_gate_type =
    parse gate_type_value
      (significant_write ∷ unsafe_command ∷ energy_budget ∷ retry_limit ∷ scope_change ∷ [])

abbrev sequence_or_zero : Option ℤ → ℤ
sequence_or_zero none = pos 0
sequence_or_zero (some n) = n

-- The pending approval, of the run and the interrupt.
unfoldable pub pending_approval :
    Env → WorkflowRun → InterruptView → GateType → String → String → Approval
pending_approval env run interrupt gate_type gate checkpoint = record {
  id = env.new_id 0;
  task_id = run.task_id;
  status = ApprovalStatus.pending;
  requested_at = env.now;
  checkpoint_id = none;
  reason = none;
  decided_at = none;
  workflow_run_id = some run.id;
  gate_type = some gate_type;
  gate_instance_id = some gate;
  approval_gate_sequence = some (sequence_or_zero interrupt.payload.approval_gate_sequence);
  actor_source = none;
  actor_label = none;
  approval_row_version = 1;
  langgraph_checkpoint_id = some checkpoint;
  langgraph_interrupt_id = some interrupt.langgraph_interrupt_id;
  request_payload = some interrupt.payload;
}

unfoldable pub append_pause_transitions : Env → String → String → Tx (Unit {0})
append_pause_transitions env run_id gate = do
  let operation = pause_operation_id gate
  let trigger = TransitionTrigger.await_approval
  _ ←
      append_transition env 1 run_id TransitionSubject.run
        (workflow_run_status_value WorkflowRunStatus.awaiting_approval) trigger operation
        (some (workflow_run_status_value WorkflowRunStatus.running))
  _ ←
      append_transition env 2 run_id TransitionSubject.task
        (task_status_value TaskStatus.waiting_for_approval) trigger operation none
  append_transition env 3 run_id TransitionSubject.approval
      (approval_status_value ApprovalStatus.pending) trigger operation none

-- The writes of a new pending approval: the run awaits, the task waits.
unfoldable pub wait_at : Env → WorkflowRun → Task → String → String → Approval → Tx String
wait_at env run task gate checkpoint approval = do
  _ ← add_approval approval
  observed ← lift (with_checkpoint_observed run checkpoint env.now)
  awaiting ← lift (run_with_status observed WorkflowRunStatus.awaiting_approval env.now)
  _ ← update_run awaiting
  waiting ← lift (task_with_status task TaskStatus.waiting_for_approval env.now)
  _ ← update_task waiting
  _ ← append_pause_transitions env run.id gate
  pure approval.id

unfoldable pub finalize_fresh : Env → String → InterruptView → String → String → Tx String
finalize_fresh env run_id interrupt gate checkpoint = do
  run ← get_run run_id
  task ← get_task run.task_id
  raw ← lift (or_fault interrupt.payload.gate_type key_error)
  gate_type ← lift (or_fault (parse_gate_type raw) invalid_status_value)
  approval ← lift (check_approval (pending_approval env run interrupt gate_type gate checkpoint))
  wait_at env run task gate checkpoint approval

-- A gate that has its approval gets no second one.
unfoldable pub finalize_gate :
    Env → String → InterruptView → String → String → Option Approval → Tx String
finalize_gate env run_id interrupt gate checkpoint (some existing) = pure existing.id
finalize_gate env run_id interrupt gate checkpoint none =
    finalize_fresh env run_id interrupt gate checkpoint

-- `finalize`: the identifier of the gate's approval.
unfoldable pub finalize_pause : Env → String → InterruptView → Option String → Tx String
unfolding finalize_gate
finalize_pause env run_id interrupt checkpoint = do
  gate ← lift (or_fault interrupt.gate_instance_id checkpoint_recovery_error)
  point ← lift (or_fault checkpoint checkpoint_recovery_error)
  existing ← find_by_gate_instance gate
  finalize_gate env run_id interrupt gate point existing
