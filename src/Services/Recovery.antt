-- ===== src/Services/Recovery.antt =====
-- application/services/run_workflow.py and reconciler.py: how a stored run is entered again, and
-- repaired after a crash.
use ant_orchestrator.Prelude.{
  not, ◌&&◌, Option, none, some, List, [], ◌∷◌, String, if◌then◌else◌, ◌==◌,
}
use ant_orchestrator.Prelude.Equality.{string_eq, ◌≟◌}
use ant_orchestrator.Prelude.Text.{is_blank}
use ant_orchestrator.Domain.Result.{
  Result, ok, err, checkpoint_recovery_error, workflow_definition_mismatch,
}
use ant_orchestrator.Domain.Status.{WorkflowRunStatus, workflow_run_status_is_eq}
use ant_orchestrator.Domain.Entities.{WorkflowRun}
use ant_orchestrator.Store.Tx.{Db}
use ant_orchestrator.Services.Support.{WorkflowOutcome, InterruptView}
use ant_orchestrator.Services.Create.{definition_version}
use ant_orchestrator.Domain.Result.{workflow_state_error}
use ant_orchestrator.Domain.Entities.{Task}
use ant_orchestrator.Domain.Status.{is_final_task}
use ant_orchestrator.Domain.Approval.{Approval}
use ant_orchestrator.Store.Tx.{pure, ◌>>=◌}
use ant_orchestrator.Store.Runs.{get_task, find_active_by_task}
use ant_orchestrator.Store.Gates.{find_pending_by_run}
use ant_orchestrator.Services.World.{
  StateSummary, RunnerPort, World, Outside, waiting, Answer, pause_run, complete_world,
  invoke_and_finalize, create_and_invoke,
}

module _ {E : Type 0} where
  -- A snapshot with no interrupt: at its end it is completed, else the run was lost or not begun.
  unfoldable pub recover_end :
      {R : Type 0}
      → (Answer E → R)
      → R
      → Outside
      → WorkflowRun
      → StateSummary
      → Option String
      → World E
      → R
  recover_end act unbegun out run summary none w =
      if run.checkpoint_ever_observed then act (err checkpoint_recovery_error, w) else unbegun
  recover_end act unbegun out run summary (some outcome) w =
      if summary.at_end && not (is_blank outcome)
      then act (complete_world out run.id (some outcome) summary.checkpoint_id none w)
      else if run.checkpoint_ever_observed
      then act (err checkpoint_recovery_error, w)
      else unbegun

  -- The crash windows 2 and 7 of a running run.
  unfoldable pub recover :
      {R : Type 0}
      → (Answer E → R)
      → R
      → Outside
      → WorkflowRun
      → StateSummary
      → List InterruptView
      → World E
      → R
  recover act unbegun out run summary [] w =
      recover_end act unbegun out run summary summary.final_outcome w
  recover act unbegun out run summary (interrupt ∷ rest) w =
      act (pause_run out.second run.id interrupt summary.checkpoint_id w)

  abbrev pub with_state :
      {R : Type 0} → (Answer E → R) → (StateSummary → R) → World E → Result StateSummary → R
  with_state act next w (ok summary) = next summary
  with_state act next w (err e) = act (err e, w)

  abbrev pub whole : Answer E → Answer E
  whole answer = answer

  -- `RunWorkflow._handle_existing_run`, of a run that is running.
  unfoldable pub handle_running : RunnerPort E → Outside → WorkflowRun → World E → Answer E
  handle_running runner out run w =
      if not (run.workflow_definition_version == definition_version)
      then (err workflow_definition_mismatch, w)
      else with_state whole
          (λ summary.
            recover whole (invoke_and_finalize runner out run.id run.thread_id run.task_id w) out
              run summary summary.interrupts w)
          w (runner.latest_state run.thread_id w.engine)

  -- A repair that was made, or that raised.
  abbrev pub made : Answer E → Result (Option WorkflowOutcome) × World E
  made (ok outcome, w) = (ok (some outcome), w)
  made (err e, w) = (err e, w)

  -- `Reconciler.reconcile_run`, of the run that it read; `none` where nothing is to be done.
  unfoldable pub reconcile_run :
      RunnerPort E → Outside → WorkflowRun → World E → Result (Option WorkflowOutcome) × World E
  reconcile_run runner out run w =
      if not (run.status ≟ WorkflowRunStatus.running)
      then (ok none, w)
      else if not (run.workflow_definition_version == definition_version)
      then (err workflow_definition_mismatch, w)
      else with_state made
          (λ summary. recover made (ok none, w) out run summary summary.interrupts w) w
          (runner.latest_state run.thread_id w.engine)

  -- A paused run whose approval is missing is paused again from the snapshot.
  unfoldable pub re_pause :
      Outside → WorkflowRun → StateSummary → List InterruptView → World E → Answer E
  re_pause out run summary [] w = (err checkpoint_recovery_error, w)
  re_pause out run summary (interrupt ∷ rest) w =
      pause_run out.second run.id interrupt summary.checkpoint_id w

  abbrev pub re_enter :
      RunnerPort E → Outside → WorkflowRun → World E → Result (Option Approval × Db) → Answer E
  re_enter runner out run w (err e) = (err e, w)
  re_enter runner out run w (ok (some approval, db)) = (ok (waiting run.id approval.id), w)
  re_enter runner out run w (ok (none, db)) =
      with_state whole (λ summary. re_pause out run summary summary.interrupts w) w
        (runner.latest_state run.thread_id w.engine)

  -- `_re_enter_awaiting`
  unfoldable pub re_enter_awaiting : RunnerPort E → Outside → WorkflowRun → World E → Answer E
  re_enter_awaiting runner out run w = re_enter runner out run w (find_pending_by_run run.id w.db)

  -- `_handle_existing_run`
  unfoldable pub handle_existing_run : RunnerPort E → Outside → WorkflowRun → World E → Answer E
  handle_existing_run runner out run w =
      if not (run.workflow_definition_version == definition_version)
      then (err workflow_definition_mismatch, w)
      else if run.status ≟ WorkflowRunStatus.awaiting_approval
      then re_enter_awaiting runner out run w
      else handle_running runner out run w

  unfoldable pub enter : RunnerPort E → Outside → Task → Option WorkflowRun → World E → Answer E
  enter runner out task run w =
      if is_final_task task.status then (err workflow_state_error, w) else elim run [
        | none ↦ create_and_invoke runner out task.id w
        | some r ↦ handle_existing_run runner out r w
      ]

  abbrev pub entered :
      RunnerPort E → Outside → World E → Result ((Task × Option WorkflowRun) × Db) → Answer E
  entered runner out w (err e) = (err e, w)
  entered runner out w (ok ((task, run), db)) = enter runner out task run w

  -- `RunWorkflow.execute`
  unfoldable pub execute : RunnerPort E → Outside → String → World E → Answer E
  execute runner out task_id w =
      entered runner out w (
        (get_task task_id >>= λ task. find_active_by_task task_id >>= λ run. pure (task, run)) w.db)
