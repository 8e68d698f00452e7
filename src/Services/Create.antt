-- ===== src/Services/Create.antt =====
-- application/services/run_workflow.py: the transaction that creates a run.
use ant_orchestrator.Prelude.{ℕ, false, none, String}
use ant_orchestrator.Prelude.Text.{◌⊕◌}
use ant_orchestrator.Domain.Status.{
  TaskStatus, WorkflowRunStatus, task_status_value, workflow_run_status_value,
}
use ant_orchestrator.Domain.Execution.{TransitionSubject, TransitionTrigger}
use ant_orchestrator.Domain.Entities.{WorkflowRun, check_run, task_with_status}
use ant_orchestrator.Store.Tx.{Tx, pure, lift, ◌>>=◌}
use ant_orchestrator.Store.Runs.{get_task, update_task, add_run}
use ant_orchestrator.Services.Support.{Env, append_transition, thread_id_for}

-- WORKFLOW_DEFINITION_VERSION
abbrev pub definition_version : ℕ
definition_version = 4

unfoldable pub new_run : Env → String → WorkflowRun
new_run env task_id = record {
  id = env.new_id 0;
  task_id = task_id;
  thread_id = thread_id_for (env.new_id 0);
  status = WorkflowRunStatus.running;
  workflow_definition_version = definition_version;
  initial_invoke_operation_id = "invoke-" ⊕ env.new_id 0;
  created_at = env.now;
  updated_at = env.now;
  checkpoint_ever_observed = false;
  last_observed_checkpoint_id = none;
  cancel_requested_at = none;
}

-- The transaction of `_create_and_invoke`.
unfoldable pub create_run : Env → String → Tx WorkflowRun
create_run env task_id = do
  run ← lift (check_run (new_run env task_id))
  task ← get_task task_id
  _ ← add_run run
  running ← lift (task_with_status task TaskStatus.running env.now)
  _ ← update_task running
  _ ←
      append_transition env 1 run.id TransitionSubject.run
        (workflow_run_status_value WorkflowRunStatus.running) TransitionTrigger.run_created
        run.initial_invoke_operation_id none
  _ ←
      append_transition env 2 run.id TransitionSubject.task (task_status_value TaskStatus.running)
        TransitionTrigger.run_created (run.initial_invoke_operation_id ⊕ "-task") none
  pure run
