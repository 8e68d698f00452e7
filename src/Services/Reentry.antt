-- ===== src/Services/Reentry.antt =====
-- application/services/run_workflow.py: a paused run that is entered again.
use ant_orchestrator.Prelude.{
  ◌≡◌, refl, ap, ◌∙◌, true, false, not, Option, none, some, List, [], ◌∷◌, String, if◌then◌else◌,
  ◌==◌,
}
use ant_orchestrator.Prelude.Equality.{string_eq, ◌≟◌}
use ant_orchestrator.Domain.Result.{
  Result, ok, err, workflow_definition_mismatch, workflow_state_error, or_fault, not_found,
}
use ant_orchestrator.Domain.Status.{
  WorkflowRunStatus, workflow_run_status_is_eq, workflow_run_status_eq, workflow_run_status_value,
  is_final_task,
}
use ant_orchestrator.Domain.Entities.{Task, WorkflowRun}
use ant_orchestrator.Domain.Approval.{Approval}
use ant_orchestrator.Store.Rows.{find}
use ant_orchestrator.Store.Tx.{Db, atomically, continue, lift, ◌>>=◌}
use ant_orchestrator.Store.Runs.{get_task, find_active_by_task}
use ant_orchestrator.Store.Gates.{find_pending_by_run}
use ant_orchestrator.Services.Support.{InterruptView, WorkflowOutcome}
use ant_orchestrator.Services.Pause.{finalize_pause}
use ant_orchestrator.Services.Create.{definition_version}
use ant_orchestrator.Services.Refusals.{active_run}
use ant_orchestrator.Services.World.{
  World, RunnerPort, Outside, StateSummary, paused, pause_run, waiting,
}
use ant_orchestrator.Services.Recovery.{
  re_pause, re_enter, re_enter_awaiting, handle_existing_run, handle_running, enter, entered,
  execute, with_state, whole,
}

module _ {E : Type 0} (runner : RunnerPort E) (out : Outside) where
  pause_engine :
      (answer : String → WorkflowOutcome) (w : World E) (r : Result String × Db)
      → (paused answer w r).1.engine ≡ w.engine
  pause_engine answer w (ok id, db) = refl
  pause_engine answer w (err e, db) = refl

  re_pause_engine :
      (run : WorkflowRun) (summary : StateSummary) (interrupts : List InterruptView) (w : World E)
      → (re_pause out run summary interrupts w).1.engine ≡ w.engine
  unfolding re_pause pause_run
  re_pause_engine run summary [] w = refl
  re_pause_engine run summary (interrupt ∷ rest) w =
      pause_engine (waiting run.id) w
        (atomically (finalize_pause out.second run.id interrupt summary.checkpoint_id) w.db)

  snapshot_engine :
      (run : WorkflowRun) (w : World E) (read : Result StateSummary)
      → (with_state whole
          (λ summary. re_pause out run summary summary.interrupts w)
          w
          read).1.engine
        ≡ w.engine
  snapshot_engine run w (ok summary) = re_pause_engine run summary summary.interrupts w
  snapshot_engine run w (err e) = refl

  re_enter_engine :
      (run : WorkflowRun) (w : World E) (r : Result (Option Approval × Db))
      → (re_enter runner out run w r).1.engine ≡ w.engine
  re_enter_engine run w (err e) = refl
  re_enter_engine run w (ok (some approval, db)) = refl
  re_enter_engine run w (ok (none, db)) =
      snapshot_engine run w (runner.latest_state run.thread_id w.engine)

  existing_engine :
      (run : WorkflowRun) (w : World E)
      → run.status ≡ WorkflowRunStatus.awaiting_approval
      → (handle_existing_run runner out run w).1.engine ≡ w.engine
  unfolding handle_existing_run re_enter_awaiting workflow_run_status_eq workflow_run_status_value
  existing_engine run w h =
      elim (not (run.workflow_definition_version == definition_version))
        as (λ b.
          (if b
            then (err workflow_definition_mismatch, w)
            else if run.status ≟ WorkflowRunStatus.awaiting_approval
            then re_enter runner out run w (find_pending_by_run run.id w.db)
            else handle_running runner out run w).1.engine
          ≡ w.engine) [
            | true ↦ refl
            | false ↦ simp h (re_enter_engine run w (find_pending_by_run run.id w.db))
          ]

  enter_engine :
      (task : Task) (run : WorkflowRun) (w : World E)
      → run.status ≡ WorkflowRunStatus.awaiting_approval
      → (enter runner out task (some run) w).1.engine ≡ w.engine
  unfolding enter
  enter_engine task run w h =
      elim (is_final_task task.status)
        as (λ b.
          (if b
            then (err workflow_state_error, w)
            else handle_existing_run runner out run w).1.engine
          ≡ w.engine) [ true ↦ refl | false ↦ existing_engine run w h ]

  -- Where the task is stored and its active run awaits approval, RunWorkflow as a whole, however it
  -- ends, leaves the durable state of the graph runner as it was: the graph is neither invoked nor
  -- resumed.
  pub awaiting_run_is_not_driven :
      (task_id : String) (task : Task) (run : WorkflowRun) (w : World E)
      → find (λ t. t.id ≟ task_id) w.db.tasks ≡ some task
      → active_run task_id w.db ≡ some run
      → run.status ≡ WorkflowRunStatus.awaiting_approval
      → (execute runner out task_id w).1.engine ≡ w.engine
  unfolding execute get_task find_active_by_task ◌>>=◌
  awaiting_run_is_not_driven task_id task run w known found awaits =
      ap
        (λ o.
          (entered runner out w (
            continue (lift (or_fault o not_found) w.db)
              (λ t d. ok ((t, active_run task_id d), d)))).1.engine)
        known
      ∙ ap (λ o. (enter runner out task o w).1.engine) found
      ∙ enter_engine task run w awaits
