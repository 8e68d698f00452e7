-- ===== src/Services/Cancel.antt =====
-- application/services/cancel_task.py and cancellation_probe.py: the transactions of a cancellation.
use ant_orchestrator.Prelude.{ℕ, Bool, false, not, Option, none, some, String, if◌then◌else◌, ◌==◌}
use ant_orchestrator.Prelude.Dict.{is_there}
use ant_orchestrator.Prelude.Equality.{string_eq, ◌≟◌}
use ant_orchestrator.Prelude.Text.{◌⊕◌, is_blank}
use ant_orchestrator.Domain.Result.{
  approval_state_conflict, workflow_state_error, workflow_definition_mismatch,
}
use ant_orchestrator.Domain.Status.{
  TaskStatus, ApprovalStatus, WorkflowRunStatus, task_status_value, is_final_task,
  workflow_run_status_is_eq,
}
use ant_orchestrator.Domain.Execution.{
  ResumeOperationStatus, resume_operation_status_is_eq, TransitionSubject, TransitionTrigger,
}
use ant_orchestrator.Domain.Entities.{
  Task, WorkflowRun, ResumeOperation, task_with_status, with_cancel_requested,
}
use ant_orchestrator.Domain.Approval.{Approval, Actor}
use ant_orchestrator.Store.Tx.{Tx, pure, throw, lift, ◌>>=◌}
use ant_orchestrator.Store.Runs.{get_task, update_task, find_active_by_task, get_run, update_run}
use ant_orchestrator.Store.Gates.{find_pending_by_run, find_by_approval, list_by_task}
use ant_orchestrator.Services.Support.{
  Env, WorkflowOutcome, outcome_of, append_transition, latest_persisted_decision,
}
use ant_orchestrator.Services.Resolve.{Lease, acquire, join_operation, differs}

-- Which strategy a cancellation takes, as the reading transaction of `cancel` finds it.
pub data Strategy : Type 0 where
  already : WorkflowOutcome → Strategy
  created : Strategy
  awaiting running : WorkflowRun → Strategy

unfoldable pub strategy_of : Task → Option ApprovalStatus → Option WorkflowRun → Tx Strategy
strategy_of task decided run =
    if is_final_task task.status
    then if differs decided ApprovalStatus.cancelled
      then throw approval_state_conflict
      else pure (already (outcome_of (task_status_value task.status) ""))
    else elim run [
      | none ↦ pure created
      | some r ↦
          pure (if r.status ≟ WorkflowRunStatus.awaiting_approval then awaiting r else running r)
    ]

-- `cancel`, up to its dispatch.
unfoldable pub dispatch : String → Tx Strategy
dispatch task_id = do
  task ← get_task task_id
  run ← find_active_by_task task_id
  approvals ← list_by_task task_id
  strategy_of task (latest_persisted_decision approvals) run

-- `_cancel_created`
unfoldable pub cancel_created : Env → String → Tx WorkflowOutcome
cancel_created env task_id = do
  task ← get_task task_id
  if is_final_task task.status then pure (outcome_of (task_status_value task.status) "") else (do
    cancelled ← lift (task_with_status task TaskStatus.cancelled env.now)
    _ ← update_task cancelled
    pure (outcome_of (task_status_value TaskStatus.cancelled) ""))

abbrev pub nobody : Actor
nobody = record { reason = none; actor_source = none; actor_label = none }

-- A stored cancellation that is not completed is driven again.
unfoldable pub cancel_operation :
    Env → Task → WorkflowRun → Approval → Option ResumeOperation → Tx Lease
cancel_operation env task run approval none =
    acquire env task run approval ApprovalStatus.cancelled TransitionTrigger.cancel nobody
cancel_operation env task run approval (some operation) =
    join_operation run ApprovalStatus.cancelled operation
      (λ o. not (o.status ≟ ResumeOperationStatus.completed))

unfoldable pub cancel_pending : Env → ℕ → Task → WorkflowRun → Option Approval → Tx Lease
cancel_pending env version task run none = throw workflow_state_error
cancel_pending env version task run (some approval) =
    if not (run.workflow_definition_version == version)
    then throw workflow_definition_mismatch
    else (do
      existing ← find_by_approval approval.id
      cancel_operation env task run approval existing)

-- The transaction of `_cancel_awaiting`; the run is the one that `cancel` read before.
unfoldable pub cancel_awaiting : Env → ℕ → String → WorkflowRun → Tx Lease
cancel_awaiting env version task_id run = do
  task ← get_task task_id
  approval ← find_pending_by_run run.id
  cancel_pending env version task run approval

-- `_cancel_running`: the flag is set once.
unfoldable pub cancel_running : Env → String → Tx WorkflowOutcome
cancel_running env run_id = do
  current ← get_run run_id
  if is_there current.cancel_requested_at then pure (outcome_of "cancel_requested" run_id) else (do
    flagged ← lift (with_cancel_requested current env.now)
    _ ← update_run flagged
    _ ←
        append_transition env 0 run_id TransitionSubject.run "cancel_requested"
          TransitionTrigger.cancel_request ("cancel-request-" ⊕ run_id) none
    pure (outcome_of "cancel_requested" run_id))

-- `CancellationProbe.is_cancel_requested`
unfoldable pub is_cancel_requested : String → Tx Bool
is_cancel_requested run_id =
    if is_blank run_id
    then pure false
    else (do run ← get_run run_id; pure (is_there run.cancel_requested_at))
