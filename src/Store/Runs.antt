-- ===== src/Store/Runs.antt =====
-- persistence/repositories/task.py, workflow_run.py and status_transition.py.
use ant_orchestrator.Prelude.{Bool, List, not, ◌&&◌, ◌||◌, Option, String, if◌then◌else◌}
use ant_orchestrator.Prelude.Equality.{string_eq, ◌≟◌}
use ant_orchestrator.Domain.Result.{Result, ok, err, not_found, integrity_error, or_fault}
use ant_orchestrator.Domain.Status.{
  TaskStatus, WorkflowRunStatus, task_status_is_eq, workflow_run_status_is_eq, is_active_run,
}
use ant_orchestrator.Domain.Execution.{transition_subject_is_eq}
use ant_orchestrator.Domain.Entities.{Task, WorkflowRun, StatusTransition}
use ant_orchestrator.Store.Rows.{find, any, update, insert}
use ant_orchestrator.Store.Tx.{Db, Tx, lift, gets, ◌>>=◌}

unfoldable pub get_task : String → Tx Task
unfolding ◌>>=◌
get_task id db = lift (or_fault (find (λ t. t.id ≟ id) db.tasks) not_found) db

-- Every column but the identifier is set.
unfoldable pub update_task : Task → Tx (Unit {0})
update_task task db =
    if any (λ t. t.id ≟ task.id) db.tasks
    then ok (tt, record db { tasks = update (λ t. t.id ≟ task.id) (λ _. task) db.tasks })
    else err not_found

-- `compare_and_set_status`: whether a row was set.
unfoldable pub cas_task : Task → TaskStatus → Tx Bool
cas_task task expected db =
    let matches = λ (t : Task). (t.id ≟ task.id) && (t.status ≟ expected) in
    ok (
      any matches db.tasks,
      record db {
        tasks =
            update matches (λ t. record t { status = task.status; updated_at = task.updated_at })
              db.tasks;
      },
    )

-- `ux_run_active_task`: one active run for each task.
unfoldable pub active_clash : WorkflowRun → WorkflowRun → Bool
active_clash new old =
    is_active_run new.status && is_active_run old.status && (new.task_id ≟ old.task_id)

abbrev pub with_runs : Db → Result (List WorkflowRun) → Result ((Unit {0}) × Db)
with_runs db (ok rows) = ok (tt, record db { runs = rows })
with_runs db (err e) = err e

unfoldable pub add_run : WorkflowRun → Tx (Unit {0})
add_run run db =
    with_runs db (insert (λ new old. (new.id ≟ old.id) || active_clash new old) run db.runs)

unfoldable pub get_run : String → Tx WorkflowRun
get_run id db = lift (or_fault (find (λ r. r.id ≟ id) db.runs) not_found) db

unfoldable pub find_active_by_task : String → Tx (Option WorkflowRun)
find_active_by_task task_id =
    gets (λ db. find (λ r. (r.task_id ≟ task_id) && is_active_run r.status) db.runs)

-- The columns that an update of a run sets.
unfoldable pub set_run : WorkflowRun → WorkflowRun → WorkflowRun
set_run new old = record old {
  status = new.status;
  checkpoint_ever_observed = new.checkpoint_ever_observed;
  last_observed_checkpoint_id = new.last_observed_checkpoint_id;
  cancel_requested_at = new.cancel_requested_at;
  updated_at = new.updated_at;
}

-- An update, too, is refused where it would make a second active run of a task.
unfoldable pub write_run : (WorkflowRun → Bool) → WorkflowRun → Tx (Unit {0})
write_run matches run db =
    if any (λ old. not (old.id ≟ run.id) && active_clash run old) db.runs && any matches db.runs
    then err integrity_error
    else ok (tt, record db { runs = update matches (set_run run) db.runs })

unfoldable pub update_run : WorkflowRun → Tx (Unit {0})
update_run run db =
    if any (λ r. r.id ≟ run.id) db.runs
    then write_run (λ r. r.id ≟ run.id) run db
    else err not_found

-- `compare_and_set_status`
unfoldable pub cas_run : WorkflowRun → WorkflowRunStatus → Tx Bool
unfolding ◌>>=◌
cas_run run expected = do
  let matches = λ (r : WorkflowRun). (r.id ≟ run.id) && (r.status ≟ expected)
  applied ← gets (λ db. any matches db.runs)
  _ ← write_run matches run
  gets (λ _. applied)

-- `ux_trans_operation` and the primary key.
abbrev pub with_transitions : Db → Result (List StatusTransition) → Result ((Unit {0}) × Db)
with_transitions db (ok rows) = ok (tt, record db { transitions = rows })
with_transitions db (err e) = err e

unfoldable pub append_row : StatusTransition → Tx (Unit {0})
append_row row db = with_transitions db (
    insert
      (λ new old.
        (new.id ≟ old.id) || ((new.operation_id ≟ old.operation_id) && (new.subject ≟ old.subject)))
      row db.transitions)
