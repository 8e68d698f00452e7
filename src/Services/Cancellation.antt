-- ===== src/Services/Cancellation.antt =====
-- application/services/cancel_task.py: a cancellation as a whole.
use ant_orchestrator.Prelude.{
  ◌≡◌, refl, ap, ◌∙◌, Bool, true, false, Option, some, List, String, if◌then◌else◌,
}
use ant_orchestrator.Prelude.Equality.{string_eq, ◌≟◌}
use ant_orchestrator.Domain.Result.{Result, ok, err, or_fault, not_found, approval_state_conflict}
use ant_orchestrator.Domain.Status.{
  ApprovalStatus, WorkflowRunStatus, workflow_run_status_is_eq, workflow_run_status_eq,
  workflow_run_status_value, approval_status_value, task_status_value, is_final_task,
}
use ant_orchestrator.Domain.Entities.{Task, WorkflowRun}
use ant_orchestrator.Domain.Approval.{Approval}
use ant_orchestrator.Store.Rows.{find, filter}
use ant_orchestrator.Store.Tx.{Db, Tx, atomically, continue, lift, pure, throw, ◌>>=◌}
use ant_orchestrator.Store.Runs.{get_task, get_run, find_active_by_task}
use ant_orchestrator.Store.Gates.{list_by_task, in_order}
use ant_orchestrator.Services.Support.{
  WorkflowOutcome, outcome_of, latest_persisted_decision, WorkflowInvokeResult,
}
use ant_orchestrator.Services.Resolve.{Lease, differs}
use ant_orchestrator.Services.Create.{definition_version}
use ant_orchestrator.Services.Cancel.{
  Strategy, already, created, awaiting, running, strategy_of, dispatch, cancel_created,
  cancel_awaiting, cancel_running,
}
use ant_orchestrator.Services.Refusals.{active_run}
use ant_orchestrator.Services.World.{
  World, RunnerPort, Outside, Answer, stored, complete_world, after_port,
}

-- The status of the task, for a caller that does not own the resume.
unfoldable pub current_outcome : String → Tx WorkflowOutcome
current_outcome run_id = do
  run ← get_run run_id
  task ← get_task run.task_id
  pure (outcome_of (task_status_value task.status) run_id)

-- The approvals of a task, as they are listed.
abbrev decisions : String → Db → List Approval
decisions task_id db = in_order (filter (λ a. a.task_id ≟ task_id) db.approvals)

module _ {E : Type 0} (runner : RunnerPort E) (out : Outside) where
  -- `_drive_cancel_resume`
  unfoldable pub drive_cancel_resume : Lease → World E → Answer E
  drive_cancel_resume lease w =
      if lease.is_owner
      then after_port
          (λ (result : WorkflowInvokeResult).
            complete_world out lease.run_id result.final_outcome result.checkpoint_id
              (some lease.op_id))
          w
          (runner.resume lease.thread_id lease.interrupt_id
            (approval_status_value ApprovalStatus.cancelled) w.engine)
      else stored w (atomically (current_outcome lease.run_id) w.db)

  abbrev after_cancelled : World E → Result Lease × Db → Answer E
  after_cancelled w (ok lease, db) = drive_cancel_resume lease (record w { db = db })
  after_cancelled w (err e, db) = (err e, record w { db = db })

  abbrev pub follow : String → World E → Strategy → Answer E
  follow task_id w (already outcome) = (ok outcome, w)
  follow task_id w created = stored w (atomically (cancel_created out.first task_id) w.db)
  follow task_id w (awaiting run) =
      after_cancelled w (atomically (cancel_awaiting out.first definition_version task_id run) w.db)
  follow task_id w (running run) = stored w (atomically (cancel_running out.first run.id) w.db)

  abbrev pub dispatched : String → World E → Result (Strategy × Db) → Answer E
  dispatched task_id w (err e) = (err e, w)
  dispatched task_id w (ok (strategy, db)) = follow task_id w strategy

  -- `CancelTask.cancel`
  unfoldable pub cancel : String → World E → Answer E
  cancel task_id w = dispatched task_id w (dispatch task_id w.db)

  answer_engine : (w : World E) (r : Result WorkflowOutcome × Db) → (stored w r).1.engine ≡ w.engine
  answer_engine w (ok outcome, db) = refl
  answer_engine w (err e, db) = refl

  flag_engine :
      (task_id : String) (run : WorkflowRun) (w : World E) (final other : Bool)
      (outcome : WorkflowOutcome)
      → (dispatched task_id w (
          (if final
              then if other then throw approval_state_conflict else pure (already outcome)
              else pure (running run))
            w.db)).1.engine
        ≡ w.engine
  flag_engine task_id run w true true outcome = refl
  flag_engine task_id run w true false outcome = refl
  flag_engine task_id run w false other outcome =
      answer_engine w (atomically (cancel_running out.first run.id) w.db)

  strategy_engine :
      (task_id : String) (task : Task) (decided : Option ApprovalStatus) (run : WorkflowRun)
      (w : World E)
      → run.status ≡ WorkflowRunStatus.running
      → (dispatched task_id w (strategy_of task decided (some run) w.db)).1.engine ≡ w.engine
  unfolding strategy_of workflow_run_status_eq workflow_run_status_value
  strategy_engine task_id task decided run w h = simp h (
      flag_engine task_id run w (is_final_task task.status)
        (differs decided ApprovalStatus.cancelled) (outcome_of (task_status_value task.status) ""))

  -- Where the task is stored and its active run is running, CancelTask as a whole, however it ends,
  -- leaves the durable state of the graph runner as it was.
  pub running_run_is_not_driven :
      (task_id : String) (task : Task) (run : WorkflowRun) (w : World E)
      → find (λ t. t.id ≟ task_id) w.db.tasks ≡ some task
      → active_run task_id w.db ≡ some run
      → run.status ≡ WorkflowRunStatus.running
      → (cancel task_id w).1.engine ≡ w.engine
  unfolding cancel dispatch get_task find_active_by_task list_by_task ◌>>=◌
  running_run_is_not_driven task_id task run w known found h =
      ap
        (λ o.
          (dispatched task_id w (
            continue (lift (or_fault o not_found) w.db) (λ t d.
              continue (list_by_task task_id d) (λ rows.
                strategy_of t (latest_persisted_decision rows) (active_run task_id d))))).1.engine)
        known
      ∙ ap
          (λ o.
            (dispatched task_id w (
              strategy_of task (latest_persisted_decision (decisions task_id w.db)) o
                w.db)).1.engine)
          found
      ∙ strategy_engine task_id task (latest_persisted_decision (decisions task_id w.db)) run w h
