-- ===== src/Domain/Entities.antt =====
-- core/domain/entities.py, records.py and workflow.py: the immutable records, and the checks that a
-- constructor makes each time, also for the copies that `replace` builds. A timestamp is a number of
-- microseconds, an identifier is its text.
use ant_orchestrator.Prelude.{
  ℕ, Bool, true, not, ◌||◌, Option, none, some, String, if◌then◌else◌, ltb,
}
use ant_orchestrator.Prelude.Dict.{is_there}
use ant_orchestrator.Prelude.Text.{is_blank}
use ant_orchestrator.Domain.Result.{Result, ok, invariant_violation, raise_if}
use ant_orchestrator.Domain.Status.{
  TaskStatus, ApprovalStatus, WorkflowRunStatus, approval_status_is_eq, is_final_approval,
}
use ant_orchestrator.Domain.Execution.{
  ExecutionAttemptStatus, ResumeOperationStatus, TransitionSubject, TransitionTrigger,
}

-- `new if new is not None else old`
abbrev pub or_kept {ℓ} : {A : Type ℓ} → Option A → Option A → Option A
or_kept none old = old
or_kept (some new) old = some new

pub data TaskSource : Type 0 where
  human cli api : TaskSource

pub data TaskPriority : Type 0 where
  low normal high : TaskPriority

pub data ActorSource : Type 0 where
  local_cli : ActorSource

pub record Task : Type 0 where
  pub id : String
  pub title : String
  pub status : TaskStatus
  pub source : TaskSource
  pub priority : TaskPriority
  pub created_at : ℕ
  pub updated_at : ℕ

unfoldable pub check_task : Task → Result Task
check_task task =
    raise_if (is_blank task.title || ltb task.updated_at task.created_at) invariant_violation task

-- `Task.with_status`
unfoldable pub task_with_status : Task → TaskStatus → ℕ → Result Task
unfolding check_task
task_with_status task status now = check_task (record task { status = status; updated_at = now })

pub record WorkflowRun : Type 0 where
  pub id : String
  pub task_id : String
  pub thread_id : String
  pub status : WorkflowRunStatus
  pub workflow_definition_version : ℕ
  pub initial_invoke_operation_id : String
  pub created_at : ℕ
  pub updated_at : ℕ
  pub checkpoint_ever_observed : Bool
  pub last_observed_checkpoint_id : Option String
  pub cancel_requested_at : Option ℕ

unfoldable pub check_run : WorkflowRun → Result WorkflowRun
check_run run =
    raise_if
      (is_blank run.thread_id
        || is_blank run.initial_invoke_operation_id
        || ltb run.workflow_definition_version 1
        || ltb run.updated_at run.created_at)
      invariant_violation run

-- `WorkflowRun.with_status`
unfoldable pub run_with_status : WorkflowRun → WorkflowRunStatus → ℕ → Result WorkflowRun
unfolding check_run
run_with_status run status now = check_run (record run { status = status; updated_at = now })

unfoldable pub with_checkpoint_observed : WorkflowRun → String → ℕ → Result WorkflowRun
unfolding check_run
with_checkpoint_observed run checkpoint now = check_run (record run {
  checkpoint_ever_observed = true;
  last_observed_checkpoint_id = some checkpoint;
  updated_at = now;
})

unfoldable pub with_cancel_requested : WorkflowRun → ℕ → Result WorkflowRun
unfolding check_run
with_cancel_requested run now =
    if is_there run.cancel_requested_at
    then ok run
    else check_run (record run { cancel_requested_at = some now; updated_at = now })

-- An append-only row of the audit.
pub record StatusTransition : Type 0 where
  pub id : String
  pub workflow_run_id : String
  pub subject : TransitionSubject
  pub to_status : String
  pub trigger : TransitionTrigger
  pub operation_id : String
  pub created_at : ℕ
  pub from_status : Option String
  pub causation_id : Option String

unfoldable pub check_transition : StatusTransition → Result StatusTransition
check_transition row =
    raise_if (is_blank row.to_status || is_blank row.operation_id) invariant_violation row

pub record ExecutionAttempt : Type 0 where
  pub id : String
  pub workflow_run_id : String
  pub logical_action_id : String
  pub attempt_no : ℕ
  pub status : ExecutionAttemptStatus
  pub created_at : ℕ
  pub owner_token : Option String
  pub lease_expires_at : Option ℕ
  pub started_at : Option ℕ
  pub completed_at : Option ℕ
  pub outcome : Option String

unfoldable pub check_attempt : ExecutionAttempt → Result ExecutionAttempt
check_attempt attempt =
    raise_if (is_blank attempt.logical_action_id || ltb attempt.attempt_no 1) invariant_violation
      attempt

-- `ExecutionAttempt.with_status`; its checks read nothing that changes.
unfoldable pub attempt_with_status :
    ExecutionAttempt → ExecutionAttemptStatus → Option ℕ → Option String → Result ExecutionAttempt
unfolding check_attempt
attempt_with_status attempt status completed_at outcome = check_attempt (record attempt {
  status = status;
  completed_at = or_kept completed_at attempt.completed_at;
  outcome = or_kept outcome attempt.outcome;
})

pub record ResumeOperation : Type 0 where
  pub id : String
  pub workflow_run_id : String
  pub approval_id : String
  pub decision : ApprovalStatus
  pub status : ResumeOperationStatus
  pub created_at : ℕ
  pub langgraph_checkpoint_id : Option String
  pub langgraph_interrupt_id : Option String
  pub owner_token : Option String
  pub lease_expires_at : Option ℕ
  pub completed_at : Option ℕ

-- A decision is one of the resolved statuses.
unfoldable pub check_operation : ResumeOperation → Result ResumeOperation
check_operation operation =
    raise_if (not (is_final_approval operation.decision)) invariant_violation operation

-- `ResumeOperation.with_status`
unfoldable pub operation_with_status :
    ResumeOperation → ResumeOperationStatus → Option ℕ → Result ResumeOperation
unfolding check_operation
operation_with_status operation status completed_at = check_operation (record operation {
  status = status;
  completed_at = or_kept completed_at operation.completed_at;
})
