-- ===== src/Services/Resolve.antt =====
-- application/services/resolve_approval.py: the transaction that resolves a pending approval and
-- takes the lease of its resume. The graph is resumed after its commit, by the owner alone.
use ant_orchestrator.Prelude.{
  ℕ, ◌+◌, ◌*◌, Bool, true, false, not, Option, none, some, List, String, if◌then◌else◌, ◌==◌,
}
use ant_orchestrator.Prelude.Equality.{◌≟◌}
use ant_orchestrator.Domain.Result.{
  approval_rule_violation, approval_state_conflict, workflow_definition_mismatch,
}
use ant_orchestrator.Domain.Status.{
  TaskStatus, ApprovalStatus, WorkflowRunStatus, task_status_value, approval_status_value,
  workflow_run_status_value, is_final_task, approval_status_is_eq, workflow_run_status_is_eq,
}
use ant_orchestrator.Domain.Execution.{ResumeOperationStatus, TransitionSubject, TransitionTrigger}
use ant_orchestrator.Domain.Entities.{
  Task, WorkflowRun, ResumeOperation, task_with_status, run_with_status, check_operation,
}
use ant_orchestrator.Domain.Approval.{Approval, Actor, resolve}
use ant_orchestrator.Store.Tx.{Tx, pure, throw, lift, ◌>>=◌}
use ant_orchestrator.Store.Runs.{get_task, update_task, find_active_by_task, update_run, get_run}
use ant_orchestrator.Store.Gates.{
  find_pending_by_run, find_by_approval, add_operation, resolve_with_version, list_by_task,
}
use ant_orchestrator.Services.Support.{
  Env, WorkflowOutcome, outcome_of, append_transition, latest_persisted_decision,
}

-- What the transaction hands to the resume of the graph.
pub record Lease : Type 0 where
  pub is_owner : Bool
  pub run_id : String
  pub thread_id : String
  pub interrupt_id : String
  pub op_id : String

-- An early return, or the captured variables.
pub data Ticket : Type 0 where
  answered : WorkflowOutcome → Ticket
  leased : Lease → Ticket

-- `value or ""`
abbrev pub or_empty : Option String → String
or_empty none = ""
or_empty (some s) = s

-- RESUME_LEASE_SECONDS, in microseconds.
abbrev pub lease_length : ℕ
lease_length = 300 * 1000000

unfoldable pub decision_trigger : ApprovalStatus → TransitionTrigger
decision_trigger ApprovalStatus.rejected = TransitionTrigger.reject
decision_trigger _ = TransitionTrigger.approve

unfoldable pub owned_operation : Env → WorkflowRun → Approval → ApprovalStatus → ResumeOperation
owned_operation env run approval decision = record {
  id = env.new_id 0;
  workflow_run_id = run.id;
  approval_id = approval.id;
  decision = decision;
  status = ResumeOperationStatus.owned;
  created_at = env.now;
  langgraph_checkpoint_id = approval.langgraph_checkpoint_id;
  langgraph_interrupt_id = approval.langgraph_interrupt_id;
  owner_token = some (env.new_id 1);
  lease_expires_at = some (env.now + lease_length);
  completed_at = none;
}

unfoldable pub append_lease_transitions :
    Env → String → String → String → String → TransitionTrigger → Tx (Unit {0})
append_lease_transitions env run_id op_id from_status resolved trigger = do
  _ ←
      append_transition env 2 run_id TransitionSubject.run
        (workflow_run_status_value WorkflowRunStatus.running) trigger op_id (some from_status)
  _ ←
      append_transition env 3 run_id TransitionSubject.task (task_status_value TaskStatus.running)
        trigger op_id none
  append_transition env 4 run_id TransitionSubject.approval resolved trigger op_id none

-- The writes of an owner after the approval is resolved.
unfoldable pub start_resume :
    Env → Task → WorkflowRun → String → String → TransitionTrigger → Tx (Unit {0})
start_resume env task run op_id resolved trigger = do
  running ← lift (run_with_status run WorkflowRunStatus.running env.now)
  _ ← update_run running
  active ← lift (task_with_status task TaskStatus.running env.now)
  _ ← update_task active
  append_lease_transitions env run.id op_id (workflow_run_status_value run.status) resolved trigger

-- An owner that won the compare-and-set starts the resume.
unfoldable pub take_lease :
    Env
    → Task
    → WorkflowRun
    → Approval
    → String
    → ApprovalStatus
    → TransitionTrigger
    → Bool
    → Tx Lease
take_lease env task run approval op_id decision trigger false = throw approval_state_conflict
take_lease env task run approval op_id decision trigger true = do
  _ ← start_resume env task run op_id (approval_status_value decision) trigger
  pure (record {
    is_owner = true;
    run_id = run.id;
    thread_id = run.thread_id;
    interrupt_id = or_empty approval.langgraph_interrupt_id;
    op_id = op_id;
  })

-- "Fresh acquire: become owner".
unfoldable pub acquire :
    Env → Task → WorkflowRun → Approval → ApprovalStatus → TransitionTrigger → Actor → Tx Lease
acquire env task run approval decision trigger actor = do
  operation ← lift (check_operation (owned_operation env run approval decision))
  _ ← add_operation operation
  resolved ← lift (resolve approval decision env.now actor)
  applied ← resolve_with_version resolved approval.approval_row_version
  take_lease env task run approval operation.id decision trigger applied

abbrev pub joined : WorkflowRun → ResumeOperation → Bool → Lease
joined run operation owner = record {
  is_owner = owner;
  run_id = run.id;
  thread_id = run.thread_id;
  interrupt_id = or_empty operation.langgraph_interrupt_id;
  op_id = operation.id;
}

-- A stored operation: another decision is a conflict.
unfoldable pub join_operation :
    WorkflowRun → ApprovalStatus → ResumeOperation → (ResumeOperation → Bool) → Tx Lease
join_operation run decision operation owner =
    if operation.decision ≟ decision
    then pure (joined run operation (owner operation))
    else throw approval_state_conflict

unfoldable pub resolve_operation :
    Env → Task → WorkflowRun → Approval → ApprovalStatus → Actor → Option ResumeOperation → Tx Lease
resolve_operation env task run approval decision actor none =
    acquire env task run approval decision (decision_trigger decision) actor
resolve_operation env task run approval decision actor (some operation) =
    join_operation run decision operation (λ _. false)

unfoldable pub resolve_pending :
    Env → Task → WorkflowRun → ApprovalStatus → Actor → Option Approval → Tx Lease
resolve_pending env task run decision actor none = throw approval_rule_violation
resolve_pending env task run decision actor (some approval) = do
  existing ← find_by_approval approval.id
  resolve_operation env task run approval decision actor existing

unfoldable pub resolve_ticket : Env → Task → WorkflowRun → ApprovalStatus → Actor → Tx Ticket
resolve_ticket env task run decision actor = do
  approval ← find_pending_by_run run.id
  lease ← resolve_pending env task run decision actor approval
  pure (leased lease)

-- A run is resumed only while it awaits approval, under the definition that it was made with.
unfoldable pub resolve_run : Env → ℕ → Task → WorkflowRun → ApprovalStatus → Actor → Tx Ticket
resolve_run env version task run decision actor =
    if not (run.status ≟ WorkflowRunStatus.awaiting_approval)
    then throw approval_rule_violation
    else if not (run.workflow_definition_version == version)
    then throw workflow_definition_mismatch
    else resolve_ticket env task run decision actor

unfoldable pub differs : Option ApprovalStatus → ApprovalStatus → Bool
differs none decision = false
differs (some decided) decision = not (decided ≟ decision)

unfoldable pub resolve_inactive : Task → ApprovalStatus → List Approval → Tx Ticket
resolve_inactive task decision approvals =
    if differs (latest_persisted_decision approvals) decision
    then throw approval_state_conflict
    else if is_final_task task.status
    then pure (answered (outcome_of (task_status_value task.status) ""))
    else throw approval_rule_violation

unfoldable pub resolve_active :
    Env → ℕ → Task → ApprovalStatus → Actor → Option WorkflowRun → Tx Ticket
resolve_active env version task decision actor none = do
  approvals ← list_by_task task.id
  resolve_inactive task decision approvals
resolve_active env version task decision actor (some run) =
    resolve_run env version task run decision actor

-- The transaction of `_resolve`.
unfoldable pub resolve_tx : Env → ℕ → String → ApprovalStatus → Actor → Tx Ticket
resolve_tx env version task_id decision actor = do
  task ← get_task task_id
  run ← find_active_by_task task_id
  resolve_active env version task decision actor run

-- `_fetch_outcome`
unfoldable pub fetch_outcome : String → String → Tx WorkflowOutcome
fetch_outcome run_id op_id = do
  run ← get_run run_id
  task ← get_task run.task_id
  pure (record (outcome_of (task_status_value task.status) run.id) {
    resume_operation_id = some op_id;
    resumed = true;
  })
