-- ===== src/Services/Refusals.antt =====
-- application/services/: what a decision and a completion do that come too late.
use ant_orchestrator.Prelude.{ℕ, ◌≡◌, refl, sym, ap, ◌∙◌, true, ◌&&◌, Option, some, String}
use mathlib.Core.Path.{subst}
use ant_orchestrator.Prelude.Equality.{string_eq, ◌≟◌}
use ant_orchestrator.Domain.Result.{ok, err, approval_rule_violation, or_fault, not_found}
use ant_orchestrator.Domain.Status.{
  ApprovalStatus, WorkflowRunStatus, is_final_run, is_active_run, workflow_run_status_is_eq,
  workflow_run_status_eq, workflow_run_status_value,
}
use ant_orchestrator.Domain.Entities.{Task, WorkflowRun}
use ant_orchestrator.Domain.Approval.{Actor}
use ant_orchestrator.Store.Rows.{find}
use ant_orchestrator.Store.Tx.{Db, ◌>>=◌, pure, lift, continue}
use ant_orchestrator.Store.Runs.{get_task, get_run, find_active_by_task}
use ant_orchestrator.Services.Support.{Env, WorkflowOutcome}
use ant_orchestrator.Services.Resolve.{resolve_tx, resolve_active, resolve_run}
use ant_orchestrator.Services.Completion.{finalize_completion, complete_run, outcome_map, Terminal}
use ant_orchestrator.Services.Effect.{Post, Post-lift}

-- The run that a decision finds for a task.
abbrev pub active_run : String → Db → Option WorkflowRun
active_run task_id db = find (λ r. (r.task_id ≟ task_id) && is_active_run r.status) db.runs

running_refuses :
    (env : Env) (version : ℕ) (task : Task) (run : WorkflowRun) (decision : ApprovalStatus)
    (actor : Actor) (db : Db)
    → run.status ≡ WorkflowRunStatus.running
    → resolve_run env version task run decision actor db ≡ err approval_rule_violation
unfolding resolve_run workflow_run_status_eq workflow_run_status_value
running_refuses env version task run decision actor db h = simp h refl

-- Where the task is stored and the active run that is found for it is running, a decision raises the
-- approval-rule violation, whatever the decision and whatever resume operations are stored.
pub running_run_refuses :
    (env : Env) (version : ℕ) (task_id : String) (task : Task) (run : WorkflowRun)
    (decision : ApprovalStatus) (actor : Actor) (db : Db)
    → find (λ t. t.id ≟ task_id) db.tasks ≡ some task
    → active_run task_id db ≡ some run
    → run.status ≡ WorkflowRunStatus.running
    → resolve_tx env version task_id decision actor db ≡ err approval_rule_violation
unfolding resolve_tx get_task find_active_by_task resolve_active ◌>>=◌
running_run_refuses env version task_id task run decision actor db known found running =
    ap
      (λ o.
        continue (lift (or_fault o not_found) db)
          (λ t d. resolve_active env version t decision actor (active_run task_id d) d))
      known
    ∙ ap (λ o. resolve_active env version task decision actor o db) found
    ∙ running_refuses env version task run decision actor db running

unfoldable pub Unchanged : {A : Type 0} → Db → A → Db → Type 0
Unchanged db a next = next ≡ db

complete_final :
    (env : Env) (run : WorkflowRun) (terminal : Terminal) (point : String) (resume : Option String)
    (db : Db)
    → is_final_run run.status ≡ true
    → complete_run env run terminal point resume db ≡ ok (tt, db)
unfolding complete_run
complete_final env run terminal point resume db h = simp h refl

complete_stored :
    (env : Env) (run_id : String) (terminal : Terminal) (point : String) (resume : Option String)
    (answer : WorkflowOutcome) (run : WorkflowRun) (db : Db)
    → find (λ r. r.id ≟ run_id) db.runs ≡ some run
    → is_final_run run.status ≡ true
    → (get_run run_id >>= λ r. complete_run env r terminal point resume >>= λ _. pure answer) db
      ≡ ok (answer, db)
unfolding get_run ◌>>=◌
complete_stored env run_id terminal point resume answer run db stored final =
    ap
      (λ o.
        continue (lift (or_fault o not_found) db)
          (λ r d. continue (complete_run env r terminal point resume d) (λ _. pure answer)))
      stored
    ∙ ap (λ r. continue r (λ _. pure answer))
        (complete_final env run terminal point resume db final)

-- To complete a stored run that is final already, where it raises nothing, changes nothing in the
-- tables, whatever outcome, checkpoint and resume operation it is given.
pub final_run_is_kept :
    (env : Env) (run_id : String) (outcome checkpoint resume : Option String) (run : WorkflowRun)
    (db : Db)
    → find (λ r. r.id ≟ run_id) db.runs ≡ some run
    → is_final_run run.status ≡ true
    → Post (Unchanged db) (finalize_completion env run_id outcome checkpoint resume db)
unfolding finalize_completion Unchanged
final_run_is_kept env run_id outcome checkpoint resume run db stored final =
    Post-lift (Unchanged db) (or_fault outcome _) _ db (λ marker _.
      Post-lift (Unchanged db) (or_fault checkpoint _) _ db (λ point _.
        Post-lift (Unchanged db) (or_fault (outcome_map marker) _) _ db (λ terminal _.
          subst (Post (Unchanged db))
            (sym (complete_stored env run_id terminal point resume _ run db stored final)) refl)))
