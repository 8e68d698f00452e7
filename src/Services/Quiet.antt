-- ===== src/Services/Quiet.antt =====
-- application/services/: the transactions of the services that give no lease.
use ant_orchestrator.Prelude.{
  ℕ, ◌≡◌, refl, sym, ap, Bool, true, false, Option, none, some, List, [], ◌∷◌, ◌++◌, String, arith,
  if◌then◌else◌, ◌||◌,
}
use ant_orchestrator.Prelude.Equality.{string_eq, ◌≟◌}
use ant_orchestrator.Domain.Result.{ok, err, integrity_error}
use ant_orchestrator.Domain.Status.{is_final_approval}
use ant_orchestrator.Domain.Execution.{TransitionSubject, TransitionTrigger}
use ant_orchestrator.Domain.Entities.{Task, WorkflowRun}
use ant_orchestrator.Domain.Approval.{Approval, check_approval}
use ant_orchestrator.Store.Rows.{find, any, insert}
use ant_orchestrator.Store.Tx.{Db}
use ant_orchestrator.Store.Gates.{add_approval, with_approvals, approval_clash}
use ant_orchestrator.Store.Decisions.{
  find_approval, decided_count-append, NodupIds-append, find_append_some,
}
use ant_orchestrator.Services.Support.{Env, InterruptView, append_transition}
use ant_orchestrator.Workflow.Port.{GateType}
use ant_orchestrator.Services.Pause.{
  append_pause_transitions, pending_approval, wait_at, finalize_fresh, finalize_gate,
  finalize_pause,
}
use ant_orchestrator.Services.Completion.{
  Terminal, settle_operation, settle_optional, complete_task, after_applied, complete_run,
  finalize_completion,
}
use ant_orchestrator.Services.Cancel.{cancel_created, cancel_running}
use ant_orchestrator.Services.Create.{create_run}
use ant_orchestrator.Services.Effect.{
  Effect, Post, IsCalm, Linked-kept, lift-bind-IsCalm, bind-IsCalm, calm_rules,
}
use ant_orchestrator.Services.Calm.{table_rules}

pub append_transition-IsCalm :
    (env : Env) (n : ℕ) (run_id : String) (subject : TransitionSubject) (to : String)
    (trigger : TransitionTrigger) (operation : String) (from : Option String)
    → IsCalm (append_transition env n run_id subject to trigger operation from)
unfolding append_transition
append_transition-IsCalm env n run_id subject to trigger operation from =
    search (calm_rules, table_rules)

pub settle_operation-IsCalm : (env : Env) (id : String) → IsCalm (settle_operation env id)
unfolding settle_operation
settle_operation-IsCalm env id = search (calm_rules, table_rules)

pub settle_optional-IsCalm : (env : Env) (id : Option String) → IsCalm (settle_optional env id)
unfolding settle_optional
settle_optional-IsCalm env none = search calm_rules
settle_optional-IsCalm env (some id) = settle_operation-IsCalm env id

pub complete_task-IsCalm :
    (env : Env) (run_id : String) (terminal : Terminal) (operation : String) (task : Task)
    → IsCalm (complete_task env run_id terminal operation task)
unfolding complete_task
complete_task-IsCalm env run_id terminal operation task =
    search (calm_rules, table_rules, append_transition-IsCalm) depth 12

pub after_applied-IsCalm :
    (env : Env) (run : WorkflowRun) (terminal : Terminal) (operation : String)
    (resume : Option String) (applied : Bool)
    → IsCalm (after_applied env run terminal operation resume applied)
unfolding after_applied
after_applied-IsCalm env run terminal operation resume false = search calm_rules
after_applied-IsCalm env run terminal operation resume true = search (
  calm_rules, table_rules, append_transition-IsCalm, complete_task-IsCalm, settle_optional-IsCalm,
)

pub complete_run-IsCalm :
    (env : Env) (run : WorkflowRun) (terminal : Terminal) (checkpoint : String)
    (resume : Option String)
    → IsCalm (complete_run env run terminal checkpoint resume)
unfolding complete_run
complete_run-IsCalm env run terminal checkpoint resume =
    search (calm_rules, table_rules, after_applied-IsCalm)

pub finalize_completion-IsCalm :
    (env : Env) (run_id : String) (outcome checkpoint resume : Option String)
    → IsCalm (finalize_completion env run_id outcome checkpoint resume)
unfolding finalize_completion
finalize_completion-IsCalm env run_id outcome checkpoint resume =
    search (calm_rules, table_rules, complete_run-IsCalm) depth 12

pub cancel_created-IsCalm : (env : Env) (id : String) → IsCalm (cancel_created env id)
unfolding cancel_created
cancel_created-IsCalm env id = search (calm_rules, table_rules)

pub cancel_running-IsCalm : (env : Env) (id : String) → IsCalm (cancel_running env id)
unfolding cancel_running
cancel_running-IsCalm env id = search (calm_rules, table_rules, append_transition-IsCalm) depth 12

pub create_run-IsCalm : (env : Env) (id : String) → IsCalm (create_run env id)
unfolding create_run
create_run-IsCalm env id = search (calm_rules, table_rules, append_transition-IsCalm) depth 12

or_false : (a b : Bool) → (a || b) ≡ false → a ≡ false
or_false a b h = ground arith

clash_id : (new old : Approval) → approval_clash new old ≡ false → (new.id ≟ old.id) ≡ false
unfolding approval_clash
clash_id new old h = or_false (new.id ≟ old.id) _ (or_false _ _ h)

free_id :
    (new : Approval) (rows : List Approval)
    → any (approval_clash new) rows ≡ false
    → find_approval new.id rows ≡ none
unfolding any find
free_id new [] h = refl
free_id new (a ∷ rows) h = ground (
  arith,
  free_id new rows,
  clash_id new a,
  string_eq.beq_iff new.id a.id,
  string_eq.beq_iff a.id new.id,
)

-- A new pending approval.
appended :
    (db : Db) (new : Approval)
    → is_final_approval new.status ≡ false
    → any (approval_clash new) db.approvals ≡ false
    → Effect false db (record db { approvals = db.approvals ++ (new ∷ []) })
appended db new undecided free = record {
  counted = decided_count-append new undecided db.approvals;
  kept = λ id a h d. find_append_some (λ r. r.id ≟ id) db.approvals (new ∷ []) a h;
  distinct = λ u. NodupIds-append new db.approvals (free_id new db.approvals free) u;
  linked = λ l.
      Linked-kept db.operations db.approvals (db.approvals ++ (new ∷ []))
        (λ id a h d. find_append_some (λ r. r.id ≟ id) db.approvals (new ∷ []) a h) l;
}

pub add_approval-IsCalm :
    (new : Approval) → is_final_approval new.status ≡ false → IsCalm (add_approval new)
unfolding add_approval insert
add_approval-IsCalm new undecided = record {
  at = λ db.
      elim (any (approval_clash new) db.approvals)
          as (λ b.
            (any (approval_clash new) db.approvals ≡ b)
            → Post {A = Unit {0}} (λ _ next. Effect false db next)
                (with_approvals db
                  (if b then err integrity_error else ok (db.approvals ++ (new ∷ []))))) [
                    | true ↦ λ e. tt
                    | false ↦ λ e. appended db new undecided e
                  ]
        refl;
}

pub checked_approval : (a b : Approval) → check_approval a ≡ ok b → a ≡ b
unfolding check_approval
checked_approval a b h = ground arith

append_pause_transitions-IsCalm :
    (env : Env) (run_id gate : String) → IsCalm (append_pause_transitions env run_id gate)
unfolding append_pause_transitions
append_pause_transitions-IsCalm env run_id gate =
    search (calm_rules, append_transition-IsCalm) depth 12

wait_at-IsCalm :
    (env : Env) (run : WorkflowRun) (task : Task) (gate checkpoint : String) (approval : Approval)
    → IsCalm (add_approval approval)
    → IsCalm (wait_at env run task gate checkpoint approval)
unfolding wait_at
wait_at-IsCalm env run task gate checkpoint approval h =
    bind-IsCalm (add_approval approval) _ h
      (λ done. search (calm_rules, table_rules, append_pause_transitions-IsCalm) depth 14)

pending_wait-IsCalm :
    (env : Env) (run : WorkflowRun) (task : Task) (interrupt : InterruptView) (gate_type : GateType)
    (gate checkpoint : String) (approval : Approval)
    → check_approval (pending_approval env run interrupt gate_type gate checkpoint) ≡ ok approval
    → IsCalm (wait_at env run task gate checkpoint approval)
unfolding pending_approval is_final_approval
pending_wait-IsCalm env run task interrupt gate_type gate checkpoint approval h =
    let e =
      checked_approval (pending_approval env run interrupt gate_type gate checkpoint) approval h in
    wait_at-IsCalm env run task gate checkpoint approval
      (add_approval-IsCalm approval (ap (λ (a : Approval). is_final_approval a.status) (sym e)))

finalize_fresh-IsCalm :
    (env : Env) (run_id : String) (interrupt : InterruptView) (gate checkpoint : String)
    → IsCalm (finalize_fresh env run_id interrupt gate checkpoint)
unfolding finalize_fresh
finalize_fresh-IsCalm env run_id interrupt gate checkpoint =
    search (lift-bind-IsCalm, bind-IsCalm, table_rules, pending_wait-IsCalm) depth 9 fits 4000

finalize_gate-IsCalm :
    (env : Env) (run_id : String) (interrupt : InterruptView) (gate checkpoint : String)
    (existing : Option Approval)
    → IsCalm (finalize_gate env run_id interrupt gate checkpoint existing)
unfolding finalize_gate
finalize_gate-IsCalm env run_id interrupt gate checkpoint none =
    finalize_fresh-IsCalm env run_id interrupt gate checkpoint
finalize_gate-IsCalm env run_id interrupt gate checkpoint (some a) = search calm_rules

pub finalize_pause-IsCalm :
    (env : Env) (run_id : String) (interrupt : InterruptView) (checkpoint : Option String)
    → IsCalm (finalize_pause env run_id interrupt checkpoint)
unfolding finalize_pause
finalize_pause-IsCalm env run_id interrupt checkpoint =
    search (calm_rules, table_rules, finalize_gate-IsCalm) depth 12
