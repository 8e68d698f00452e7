-- ===== src/Services/Calm.antt =====
-- application/services/: the statements and the transactions that decide nothing.
use ant_orchestrator.Prelude.{
  refl, Bool, true, false, not, ◌&&◌, List, [], ◌∷◌, String, if◌then◌else◌,
}
use ant_orchestrator.Prelude.Equality.{string_eq, ◌≟◌}
use ant_orchestrator.Domain.Result.{Result, ok, err, not_found, integrity_error, or_fault}
use ant_orchestrator.Domain.Status.{TaskStatus, WorkflowRunStatus}
use ant_orchestrator.Domain.Entities.{Task, WorkflowRun, StatusTransition, ResumeOperation}
use ant_orchestrator.Domain.Approval.{Approval}
use ant_orchestrator.Store.Rows.{find, any, update, insert}
use ant_orchestrator.Store.Tx.{Db}
use ant_orchestrator.Store.Runs.{
  get_task, update_task, cas_task, add_run, get_run, find_active_by_task, write_run, update_run,
  cas_run, append_row, with_runs, with_transitions, set_run,
}
use ant_orchestrator.Store.Gates.{
  find_by_gate_instance, find_pending_by_run, list_by_task, get_operation, find_by_approval,
  update_operation, set_operation, interrupt_clash,
}
use ant_orchestrator.Services.Effect.{Effect, Post, IsCalm, lift-IsCalm, still, Linked, calm_rules}

pub get_task-IsCalm : (id : String) → IsCalm (get_task id)
unfolding get_task
get_task-IsCalm id = record {
  at = λ db. (lift-IsCalm (or_fault (find (λ t. t.id ≟ id) db.tasks) not_found)).at db;
}

pub get_run-IsCalm : (id : String) → IsCalm (get_run id)
unfolding get_run
get_run-IsCalm id = record {
  at = λ db. (lift-IsCalm (or_fault (find (λ t. t.id ≟ id) db.runs) not_found)).at db;
}

pub get_operation-IsCalm : (id : String) → IsCalm (get_operation id)
unfolding get_operation
get_operation-IsCalm id = record {
  at = λ db. (lift-IsCalm (or_fault (find (λ t. t.id ≟ id) db.operations) not_found)).at db;
}

pub find_active_by_task-IsCalm : (id : String) → IsCalm (find_active_by_task id)
unfolding find_active_by_task
find_active_by_task-IsCalm id = search calm_rules

pub find_by_gate_instance-IsCalm : (id : String) → IsCalm (find_by_gate_instance id)
unfolding find_by_gate_instance
find_by_gate_instance-IsCalm id = search calm_rules

pub find_pending_by_run-IsCalm : (id : String) → IsCalm (find_pending_by_run id)
unfolding find_pending_by_run
find_pending_by_run-IsCalm id = search calm_rules

pub find_by_approval-IsCalm : (id : String) → IsCalm (find_by_approval id)
unfolding find_by_approval
find_by_approval-IsCalm id = search calm_rules

pub list_by_task-IsCalm : (id : String) → IsCalm (list_by_task id)
unfolding list_by_task
list_by_task-IsCalm id = search calm_rules

-- A statement that answers by the test of its rows.
pub Post-if :
    {A : Type 0} (db : Db) (b : Bool) (r s : Result (A × Db))
    → Post (λ _ next. Effect false db next) r
    → Post (λ _ next. Effect false db next) s
    → Post (λ _ next. Effect false db next) (if b then r else s)
Post-if db true r s hr hs = hr
Post-if db false r s hr hs = hs

pub update_task-IsCalm : (task : Task) → IsCalm (update_task task)
unfolding update_task
update_task-IsCalm task = record {
  at = λ db.
      Post-if db (any (λ t. t.id ≟ task.id) db.tasks)
        (ok (tt, record db { tasks = update (λ t. t.id ≟ task.id) (λ _. task) db.tasks }))
        (err not_found)
        (still db (update (λ t. t.id ≟ task.id) (λ _. task) db.tasks) db.runs db.transitions) tt;
}

pub cas_task-IsCalm : (task : Task) (expected : TaskStatus) → IsCalm (cas_task task expected)
unfolding cas_task
cas_task-IsCalm task expected = record { at = λ db. still db _ db.runs db.transitions }

pub with_runs-IsCalm :
    (db : Db) (r : Result (List WorkflowRun))
    → Post (λ _ next. Effect false db next) (with_runs db r)
with_runs-IsCalm db (ok rows) = still db db.tasks rows db.transitions
with_runs-IsCalm db (err e) = tt

pub add_run-IsCalm : (run : WorkflowRun) → IsCalm (add_run run)
unfolding add_run
add_run-IsCalm run = record { at = λ db. with_runs-IsCalm db (insert _ run db.runs) }

pub with_transitions-IsCalm :
    (db : Db) (r : Result (List StatusTransition))
    → Post (λ _ next. Effect false db next) (with_transitions db r)
with_transitions-IsCalm db (ok rows) = still db db.tasks db.runs rows
with_transitions-IsCalm db (err e) = tt

pub append_row-IsCalm : (row : StatusTransition) → IsCalm (append_row row)
unfolding append_row
append_row-IsCalm row = record {
  at = λ db. with_transitions-IsCalm db (insert _ row db.transitions);
}

pub write_run-IsCalm :
    (matches : WorkflowRun → Bool) (run : WorkflowRun) → IsCalm (write_run matches run)
unfolding write_run
write_run-IsCalm matches run = record {
  at = λ db.
      Post-if db _ (err integrity_error)
        (ok (tt, record db { runs = update matches (set_run run) db.runs })) tt
        (still db db.tasks (update matches (set_run run) db.runs) db.transitions);
}

pub update_run-IsCalm : (run : WorkflowRun) → IsCalm (update_run run)
unfolding update_run
update_run-IsCalm run = record {
  at = λ db.
      Post-if db _ (write_run (λ r. r.id ≟ run.id) run db) (err not_found)
        ((write_run-IsCalm (λ r. r.id ≟ run.id) run).at db) tt;
}

pub cas_run-IsCalm :
    (run : WorkflowRun) (expected : WorkflowRunStatus) → IsCalm (cas_run run expected)
unfolding cas_run
cas_run-IsCalm run expected = search (calm_rules, write_run-IsCalm)

pub Linked-update :
    (p : ResumeOperation → Bool) (new : ResumeOperation) (operations : List ResumeOperation)
    (approvals : List Approval)
    → Linked operations approvals
    → Linked (update p (set_operation new) operations) approvals
unfolding update set_operation
Linked-update p new [] approvals l = tt
Linked-update p new (o ∷ rest) approvals l =
    elim (p o)
      as (λ b.
        Linked ((if b then set_operation new o else o) ∷ update p (set_operation new) rest)
          approvals) [
            | true ↦ (l.0, Linked-update p new rest approvals l.1)
            | false ↦ (l.0, Linked-update p new rest approvals l.1)
          ]

pub update_operation-IsCalm : (operation : ResumeOperation) → IsCalm (update_operation operation)
unfolding update_operation
update_operation-IsCalm operation = record {
  at = λ db.
      let written : Effect false db (record db {
        operations = update (λ o. o.id ≟ operation.id) (set_operation operation) db.operations;
      }) =
        record {
          counted = refl;
          kept = λ id a h d. h;
          distinct = λ u. u;
          linked = Linked-update (λ o. o.id ≟ operation.id) operation db.operations db.approvals;
        } in
      Post-if {A = Unit {0}} db (any (λ o. o.id ≟ operation.id) db.operations)
        (if any (λ o. not (o.id ≟ operation.id) && interrupt_clash operation o) db.operations
          then err integrity_error
          else ok (
            tt,
            record db {
              operations =
                  update (λ o. o.id ≟ operation.id) (set_operation operation) db.operations;
            },
          ))
        (err not_found)
        (Post-if {A = Unit {0}} db
          (any (λ o. not (o.id ≟ operation.id) && interrupt_clash operation o) db.operations)
          (err integrity_error)
          (ok (
            tt,
            record db {
              operations =
                  update (λ o. o.id ≟ operation.id) (set_operation operation) db.operations;
            },
          ))
          tt written)
        tt;
}

pub ruleset table_rules = (
  get_task-IsCalm, get_run-IsCalm, get_operation-IsCalm, find_active_by_task-IsCalm,
  find_by_gate_instance-IsCalm, find_pending_by_run-IsCalm, find_by_approval-IsCalm,
  list_by_task-IsCalm, update_task-IsCalm, cas_task-IsCalm, add_run-IsCalm, append_row-IsCalm,
  update_run-IsCalm, cas_run-IsCalm, update_operation-IsCalm,
)
