-- ===== src/Services/Taken.antt =====
-- application/services/resolve_approval.py: a run whose decision is made, and a decision that follows.
use ant_orchestrator.Prelude.{
  ℕ, ◌≡◌, refl, sym, ap, Bool, true, false, not, ◌&&◌, Option, none, some, List, [], ◌∷◌, String,
  arith, if◌then◌else◌,
}
use mathlib.Core.Path.{subst}
use mathlib.Core.Option.{some-injective}
use ant_orchestrator.Prelude.Equality.{string_eq, ◌≟◌, ≟_refl}
use ant_orchestrator.Prelude.Dict.{is_there}
use ant_orchestrator.Domain.Result.{ok, err, not_found, integrity_error}
use ant_orchestrator.Domain.Status.{
  WorkflowRunStatus, workflow_run_status_is_eq, workflow_run_status_eq, workflow_run_status_value,
  is_active_run,
}
use ant_orchestrator.Domain.Entities.{Task, WorkflowRun, run_with_status, check_run}
use ant_orchestrator.Store.Rows.{find, any, update}
use ant_orchestrator.Store.Tx.{Db}
use ant_orchestrator.Store.Runs.{set_run, update_run, write_run, active_clash, update_task}
use ant_orchestrator.Services.Effect.{Post}

abbrev pub runs_now : Option WorkflowRun → Bool
runs_now none = false
runs_now (some r) = r.status ≟ WorkflowRunStatus.running

abbrev pub is_of_task : String → WorkflowRun → Bool
is_of_task task_id r = (r.task_id ≟ task_id) && is_active_run r.status

-- The first active run of the task stays the first, or a run before it is now running.
head_set :
    (task_id : String) (x y run : WorkflowRun) (rows later : List WorkflowRun)
    → (y.task_id ≟ task_id) ≡ (x.task_id ≟ task_id)
    → y.status ≡ WorkflowRunStatus.running
    → find (is_of_task task_id) (x ∷ rows) ≡ some run
    → (find (is_of_task task_id) rows ≡ some run
        → runs_now (find (is_of_task task_id) later) ≡ true)
    → runs_now (find (is_of_task task_id) (y ∷ later)) ≡ true
unfolding find is_active_run workflow_run_status_eq workflow_run_status_value
head_set task_id x y run rows later same running found rest =
    subst
      (λ b.
        runs_now (if b && is_active_run y.status then some y else find (is_of_task task_id) later)
        ≡ true)
      (sym same)
      (elim (x.task_id ≟ task_id)
          as (λ b.
            (if b && is_active_run x.status then some x else find (is_of_task task_id) rows)
              ≡ some run
            → runs_now
                (if b && is_active_run y.status then some y else find (is_of_task task_id) later)
              ≡ true) [ true ↦ λ q. simp running refl | false ↦ λ q. rest q ]
        found)

head_kept :
    (task_id : String) (x run : WorkflowRun) (rows later : List WorkflowRun)
    → (x.id ≟ run.id) ≡ false
    → find (is_of_task task_id) (x ∷ rows) ≡ some run
    → (find (is_of_task task_id) rows ≡ some run
        → runs_now (find (is_of_task task_id) later) ≡ true)
    → runs_now (find (is_of_task task_id) (x ∷ later)) ≡ true
unfolding find
head_kept task_id x run rows later apart found rest =
    elim (is_of_task task_id x)
        as (λ b.
          (if b then some x else find (is_of_task task_id) rows) ≡ some run
          → runs_now (if b then some x else find (is_of_task task_id) later) ≡ true) [
            | true ↦ λ q.
                let same : x.id ≡ run.id =
                  ap (λ (r : WorkflowRun). r.id) (some-injective x run q) in
                absurd (clash same)
            | false ↦ rest
          ]
      found
  where
    clash : x.id ≡ run.id → ⊥
    clash e = ground (arith, string_eq.beq_iff x.id run.id, apart)

pub find-set_run :
    (task_id : String) (new run : WorkflowRun) (rows : List WorkflowRun)
    → new.status ≡ WorkflowRunStatus.running
    → new.id ≡ run.id
    → find (is_of_task task_id) rows ≡ some run
    → runs_now (find (is_of_task task_id) (update (λ r. r.id ≟ new.id) (set_run new) rows)) ≡ true
unfolding find update set_run
find-set_run task_id new run [] s e h = cc
find-set_run task_id new run (x ∷ rows) s e h =
    let later = update (λ r. r.id ≟ new.id) (set_run new) rows in
    elim (x.id ≟ new.id)
        as (λ b.
          (x.id ≟ new.id) ≡ b
          → runs_now (find (is_of_task task_id) ((if b then set_run new x else x) ∷ later))
            ≡ true) [
              | true ↦ λ q.
                  head_set task_id x (set_run new x) run rows later refl s h
                    (find-set_run task_id new run rows s e)
              | false ↦ λ q.
                  head_kept task_id x run rows later (rw (sym e) q) h
                    (find-set_run task_id new run rows s e)
            ]
      refl

pub find-set_task :
    (new : Task) (rows : List Task)
    → any (λ t. t.id ≟ new.id) rows ≡ true
    → is_there (find (λ t. t.id ≟ new.id) (update (λ t. t.id ≟ new.id) (λ _. new) rows)) ≡ true
unfolding find update any
find-set_task new [] h = cc
find-set_task new (x ∷ rows) h = ground (arith, ≟_refl new.id, find-set_task new rows)

pub Post-update_run :
    (R : Unit {0} → Db → Type 0) (run : WorkflowRun) (db : Db)
    → R tt (record db { runs = update (λ r. r.id ≟ run.id) (set_run run) db.runs })
    → Post R (update_run run db)
unfolding update_run write_run
Post-update_run R run db h =
    let next = record db { runs = update (λ r. r.id ≟ run.id) (set_run run) db.runs } in
    let clash = any (λ old. not (old.id ≟ run.id) && active_clash run old) db.runs in
    elim (any (λ r. r.id ≟ run.id) db.runs)
      as (λ b. Post R (
        if b then (if clash && b then err integrity_error else ok (tt, next)) else err not_found)) [
          | true ↦
              elim (clash && true)
                as (λ b. Post R (if b then err integrity_error else ok (tt, next))) [
                  | true ↦ tt
                  | false ↦ h
                ]
          | false ↦ tt
        ]

pub Post-update_task :
    (R : Unit {0} → Db → Type 0) (task : Task) (db : Db)
    → (any (λ t. t.id ≟ task.id) db.tasks ≡ true
        → R tt (record db { tasks = update (λ t. t.id ≟ task.id) (λ _. task) db.tasks }))
    → Post R (update_task task db)
unfolding update_task
Post-update_task R task db h =
    elim (any (λ t. t.id ≟ task.id) db.tasks)
        as (λ b.
          (any (λ t. t.id ≟ task.id) db.tasks ≡ b)
          → Post R (
              if b
              then ok (tt, record db { tasks = update (λ t. t.id ≟ task.id) (λ _. task) db.tasks })
              else err not_found)) [ true ↦ λ e. h e | false ↦ λ e. tt ]
      refl

pub running_lem :
    (run r : WorkflowRun) (now : ℕ)
    → run_with_status run WorkflowRunStatus.running now ≡ ok r
    → (r.id ≡ run.id) × (r.status ≡ WorkflowRunStatus.running)
unfolding run_with_status check_run
running_lem run r now h = ground arith
