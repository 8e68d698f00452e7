-- ===== src/Services/Resumed.antt =====
-- application/services/resolve_approval.py: the task and its run once a lease is given.
use ant_orchestrator.Prelude.{
  ℕ, ◌≡◌, Bool, true, false, Option, none, some, List, [], ◌∷◌, ◌++◌, String, arith, if◌then◌else◌,
}
use mathlib.Core.Path.{subst}
use ant_orchestrator.Prelude.Equality.{string_eq, ◌≟◌}
use ant_orchestrator.Prelude.Dict.{is_there}
use ant_orchestrator.Domain.Result.{Result, ok, err, approval_state_conflict}
use ant_orchestrator.Domain.Status.{
  ApprovalStatus, TaskStatus, WorkflowRunStatus, workflow_run_status_is_eq, approval_status_is_eq,
}
use ant_orchestrator.Domain.Execution.{TransitionSubject, TransitionTrigger}
use ant_orchestrator.Domain.Entities.{
  Task, WorkflowRun, StatusTransition, ResumeOperation, task_with_status, run_with_status,
  check_task, check_operation,
}
use ant_orchestrator.Domain.Approval.{Approval, Actor, resolve}
use ant_orchestrator.Store.Rows.{find, any, update}
use ant_orchestrator.Store.Tx.{Db, pure, throw, ◌>>=◌}
use ant_orchestrator.Store.Runs.{update_run, update_task, append_row, with_transitions}
use ant_orchestrator.Store.Gates.{find_by_approval, is_at_version, resolve_with_version}
use ant_orchestrator.Services.Support.{Env, append_transition}
use ant_orchestrator.Services.Resolve.{
  Lease, start_resume, append_lease_transitions, take_lease, acquire, owned_operation, joined,
  join_operation, resolve_operation, resolve_pending, decision_trigger,
}
use ant_orchestrator.Services.Effect.{Post, Post-bind, Post-lift}
use ant_orchestrator.Services.Leasing.{Post-add}
use ant_orchestrator.Services.Taken.{
  runs_now, is_of_task, find-set_run, find-set_task, Post-update_run, Post-update_task, running_lem,
}

-- The task is stored, and its active run is running.
abbrev pub IsTaken : String → Db → Type 0
IsTaken task_id db =
    (is_there (find (λ t. t.id ≟ task_id) db.tasks) ≡ true)
    × (runs_now (find (is_of_task task_id) db.runs) ≡ true)

task_id_kept :
    (task t : Task) (status : TaskStatus) (now : ℕ)
    → task_with_status task status now ≡ ok t
    → t.id ≡ task.id
unfolding task_with_status check_task
task_id_kept task t status now h = ground arith

rows-IsTaken :
    (task_id : String) (db : Db) (r : Result (List StatusTransition))
    → IsTaken task_id db
    → Post (λ _ next. IsTaken task_id next) (with_transitions db r)
rows-IsTaken task_id db (ok rows) h = h
rows-IsTaken task_id db (err e) h = tt

append_transition-IsTaken :
    (task_id : String) (env : Env) (n : ℕ) (run_id : String) (subject : TransitionSubject)
    (to : String) (trigger : TransitionTrigger) (operation : String) (from : Option String)
    (db : Db)
    → IsTaken task_id db
    → Post
        (λ _ next. IsTaken task_id next)
        (append_transition env n run_id subject to trigger operation from db)
unfolding append_transition append_row
append_transition-IsTaken task_id env n run_id subject to trigger operation from db h =
    Post-lift (λ _ next. IsTaken task_id next) _ append_row db
      (λ row e. rows-IsTaken task_id db _ h)

-- Three rows of the audit trail change neither the tasks nor the runs.
append_lease_transitions-IsTaken :
    (task_id : String) (env : Env) (run_id operation from to : String) (trigger : TransitionTrigger)
    (db : Db)
    → IsTaken task_id db
    → Post
        (λ _ next. IsTaken task_id next)
        (append_lease_transitions env run_id operation from to trigger db)
unfolding append_lease_transitions
append_lease_transitions-IsTaken task_id env run_id operation from to trigger db h =
    Post-bind R (append_transition env 2 run_id _ _ trigger operation _) _ db (λ _ one e.
      let taken =
        subst (Post R) e
          (append_transition-IsTaken task_id env 2 run_id _ _ trigger operation _ db h) in
      Post-bind R (append_transition env 3 run_id _ _ trigger operation _) _ one (λ _ two f.
        append_transition-IsTaken task_id env 4 run_id _ to trigger operation none two (
          subst (Post R) f
            (append_transition-IsTaken task_id env 3 run_id _ _ trigger operation _ one taken))))
  where
    R : Unit {0} → Db → Type 0
    R done next = IsTaken task_id next

start_resume-IsTaken :
    (env : Env) (task : Task) (run : WorkflowRun) (operation to : String)
    (trigger : TransitionTrigger) (db : Db)
    → find (is_of_task task.id) db.runs ≡ some run
    → Post (λ _ next. IsTaken task.id next) (start_resume env task run operation to trigger db)
unfolding start_resume
start_resume-IsTaken env task run operation to trigger db found =
    Post-lift R (run_with_status run WorkflowRunStatus.running env.now) _ db (λ r e.
      let (same, runs) = running_lem run r env.now e in
      Post-bind R (update_run r) _ db (λ _ mid f.
        let moved : Runs tt mid =
          subst (Post Runs) f
            (Post-update_run Runs r db (find-set_run task.id r run db.runs runs same found)) in
        Post-lift R (task_with_status task TaskStatus.running env.now) _ mid (λ t g.
          Post-bind R (update_task t) _ mid (λ _ last k.
            append_lease_transitions-IsTaken task.id env run.id operation _ to trigger last (
              subst (Post R) k (
                Post-update_task R t mid (λ stored.
                  let there = find-set_task t mid.tasks stored in
                  (
                    subst
                        (λ i.
                          is_there
                            (find (λ x. x.id ≟ i) (update (λ x. x.id ≟ t.id) (λ _. t) mid.tasks))
                          ≡ true)
                        (task_id_kept task t TaskStatus.running env.now g) there,
                    moved,
                  ))))))))
  where
    R : Unit {0} → Db → Type 0
    R done next = IsTaken task.id next

    Runs : Unit {0} → Db → Type 0
    Runs done next = runs_now (find (is_of_task task.id) next.runs) ≡ true

-- A lease comes with a run that is taken.
abbrev pub OwnsTaken : String → Lease → Db → Type 0
OwnsTaken task_id lease next = lease.is_owner ≡ true → IsTaken task_id next

take_lease-OwnsTaken :
    (env : Env) (task : Task) (run : WorkflowRun) (approval : Approval) (operation : String)
    (decision : ApprovalStatus) (trigger : TransitionTrigger) (applied : Bool) (db : Db)
    → find (is_of_task task.id) db.runs ≡ some run
    → Post
        (OwnsTaken task.id)
        (take_lease env task run approval operation decision trigger applied db)
unfolding take_lease
take_lease-OwnsTaken env task run approval operation decision trigger false db found = tt
take_lease-OwnsTaken env task run approval operation decision trigger true db found =
    Post-bind (OwnsTaken task.id) (start_resume env task run operation _ trigger) _ db
      (λ done next e owner.
        subst (Post (λ _ last. IsTaken task.id last)) e
          (start_resume-IsTaken env task run operation _ trigger db found))

acquire-OwnsTaken :
    (env : Env) (task : Task) (run : WorkflowRun) (approval : Approval) (decision : ApprovalStatus)
    (trigger : TransitionTrigger) (actor : Actor) (db : Db)
    → find (is_of_task task.id) db.runs ≡ some run
    → Post (OwnsTaken task.id) (acquire env task run approval decision trigger actor db)
unfolding acquire resolve_with_version take_lease ◌>>=◌
acquire-OwnsTaken env task run approval decision trigger actor db found =
    Post-lift R (check_operation (owned_operation env run approval decision)) _ db (λ operation p.
      Post-add R operation _ db (
        Post-lift R (resolve approval decision env.now actor) _
          (record db { operations = db.operations ++ (operation ∷ []) })
          (λ new q.
            take_lease-OwnsTaken env task run approval operation.id decision trigger
              (any (is_at_version new.id approval.approval_row_version) db.approvals) _ found)))
  where
    R : Lease → Db → Type 0
    R lease next = OwnsTaken task.id lease next

join-OwnsTaken :
    (task_id : String) (run : WorkflowRun) (decision : ApprovalStatus) (operation : ResumeOperation)
    (db : Db)
    → Post (OwnsTaken task_id) (join_operation run decision operation (λ _. false) db)
unfolding join_operation
join-OwnsTaken task_id run decision operation db =
    elim (operation.decision ≟ decision)
      as (λ b.
        Post (OwnsTaken task_id)
          ((if b then pure (joined run operation false) else throw approval_state_conflict) db)) [
            | true ↦ λ q. cc
            | false ↦ tt
          ]

pub resolve_pending-OwnsTaken :
    (env : Env) (task : Task) (run : WorkflowRun) (decision : ApprovalStatus) (actor : Actor)
    (approval : Option Approval) (db : Db)
    → find (is_of_task task.id) db.runs ≡ some run
    → Post (OwnsTaken task.id) (resolve_pending env task run decision actor approval db)
unfolding resolve_pending find_by_approval resolve_operation ◌>>=◌
resolve_pending-OwnsTaken env task run decision actor none db found = tt
resolve_pending-OwnsTaken env task run decision actor (some approval) db found =
    elim (find (λ o. o.approval_id ≟ approval.id) db.operations)
      as (λ existing.
        Post (OwnsTaken task.id)
          (resolve_operation env task run approval decision actor existing db)) [
            | none ↦
                acquire-OwnsTaken env task run approval decision (decision_trigger decision) actor
                  db found
            | some operation ↦ join-OwnsTaken task.id run decision operation db
          ]
