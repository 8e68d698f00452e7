-- ===== src/Services/Completion.antt =====
-- application/services/completion_finalizer.py: the terminal statuses of a run and its task. The
-- terminal handoff, an optional service called after the commit, is given by its answer.
use ant_orchestrator.Prelude.{Bool, true, false, Option, none, some, String, if◌then◌else◌}
use ant_orchestrator.Prelude.Equality.{string_eq, ◌≟◌}
use ant_orchestrator.Domain.Result.{Result, ok, err, checkpoint_recovery_error, or_fault}
use ant_orchestrator.Domain.Status.{
  TaskStatus, WorkflowRunStatus, task_status_value, workflow_run_status_value, is_final_run,
  is_final_task,
}
use ant_orchestrator.Domain.Execution.{
  ResumeOperationStatus, resume_operation_status_is_eq, TransitionSubject, TransitionTrigger,
}
use ant_orchestrator.Domain.Entities.{
  WorkflowRun, run_with_status, with_checkpoint_observed, Task, task_with_status,
  operation_with_status,
}
use ant_orchestrator.Store.Tx.{Db, Tx, pure, lift, ◌>>=◌, atomically}
use ant_orchestrator.Store.Runs.{get_run, get_task, cas_run, cas_task}
use ant_orchestrator.Store.Gates.{get_operation, update_operation}
use ant_orchestrator.Services.Support.{
  Env, WorkflowOutcome, outcome_of, append_transition, completion_operation_id,
}

-- A row of `_OUTCOME_MAP`.
pub record Terminal : Type 0 where
  pub run_status : WorkflowRunStatus
  pub task_status : TaskStatus
  pub trigger : TransitionTrigger

unfoldable pub outcome_map : String → Option Terminal
outcome_map outcome =
    if outcome ≟ "completed"
    then some (record {
      run_status = WorkflowRunStatus.completed;
      task_status = TaskStatus.completed;
      trigger = TransitionTrigger.complete;
    })
    else if outcome ≟ "failed"
    then some (record {
      run_status = WorkflowRunStatus.failed;
      task_status = TaskStatus.failed;
      trigger = TransitionTrigger.fail;
    })
    else if outcome ≟ "rejected"
    then some (record {
      run_status = WorkflowRunStatus.completed;
      task_status = TaskStatus.rejected;
      trigger = TransitionTrigger.reject;
    })
    else if outcome ≟ "cancelled"
    then some (record {
      run_status = WorkflowRunStatus.cancelled;
      task_status = TaskStatus.cancelled;
      trigger = TransitionTrigger.cancel;
    })
    else none

-- `_settle_resume`, and ResolveApproval's `_settle_op`.
unfoldable pub settle_operation : Env → String → Tx (Unit {0})
settle_operation env id = do
  operation ← get_operation id
  if operation.status ≟ ResumeOperationStatus.completed then pure tt else (do
    settled ← lift (operation_with_status operation ResumeOperationStatus.completed (some env.now))
    update_operation settled)

unfoldable pub settle_optional : Env → Option String → Tx (Unit {0})
settle_optional env none = pure tt
settle_optional env (some id) = settle_operation env id

-- The task of a run whose status was set.
unfoldable pub complete_task : Env → String → Terminal → String → Task → Tx (Unit {0})
complete_task env run_id terminal operation task =
    if is_final_task task.status then pure tt else (do
      done ← lift (task_with_status task terminal.task_status env.now)
      _ ← cas_task done task.status
      append_transition env 1 run_id TransitionSubject.task (task_status_value terminal.task_status)
          terminal.trigger operation (some (task_status_value task.status)))

-- What follows the compare-and-set, where that was applied.
unfoldable pub after_applied :
    Env → WorkflowRun → Terminal → String → Option String → Bool → Tx (Unit {0})
after_applied env run terminal operation resume_operation false = pure tt
after_applied env run terminal operation resume_operation true = do
  _ ←
      append_transition env 0 run.id TransitionSubject.run
        (workflow_run_status_value terminal.run_status) terminal.trigger operation
        (some (workflow_run_status_value run.status))
  task ← get_task run.task_id
  _ ← complete_task env run.id terminal operation task
  settle_optional env resume_operation

unfoldable pub complete_run : Env → WorkflowRun → Terminal → String → Option String → Tx (Unit {0})
complete_run env run terminal checkpoint resume_operation =
    if is_final_run run.status then pure tt else (do
      observed ← lift (with_checkpoint_observed run checkpoint env.now)
      done ← lift (run_with_status observed terminal.run_status env.now)
      applied ← cas_run done run.status
      after_applied env run terminal (completion_operation_id env run.id checkpoint)
          resume_operation applied)

-- The first phase of `finalize`: its unit of work.
unfoldable pub finalize_completion :
    Env → String → Option String → Option String → Option String → Tx WorkflowOutcome
finalize_completion env run_id final_outcome checkpoint resume_operation = do
  outcome ← lift (or_fault final_outcome checkpoint_recovery_error)
  point ← lift (or_fault checkpoint checkpoint_recovery_error)
  terminal ← lift (or_fault (outcome_map outcome) checkpoint_recovery_error)
  run ← get_run run_id
  _ ← complete_run env run terminal point resume_operation
  pure (record (outcome_of (task_status_value terminal.task_status) run_id) {
    final_outcome = some outcome;
  })

abbrev after_handoff : Result (Unit {0}) → Result WorkflowOutcome × Db → Result WorkflowOutcome × Db
after_handoff (ok done) answer = answer
after_handoff (err e) (ok outcome, db) = (err e, db)
after_handoff (err e) (err f, db) = (err f, db)

-- `finalize`: the unit of work, then the handoff, whose exception leaves the commit.
unfoldable pub complete :
    Env
    → Result (Unit {0})
    → String
    → Option String
    → Option String
    → Option String
    → Db
    → Result WorkflowOutcome × Db
unfolding atomically
complete env handoff run_id final_outcome checkpoint resume_operation db =
    after_handoff handoff
      (atomically (finalize_completion env run_id final_outcome checkpoint resume_operation) db)
