-- ===== src/Services/Cancelling.antt =====
-- application/services/cancel_task.py: the transaction that cancels a pending approval.
use ant_orchestrator.Prelude.{
  ℕ, ◌≡◌, refl, sym, ap, ◌∙◌, Bool, true, false, not, ◌&&◌, Option, none, some, List, [], ◌∷◌,
  String, arith, if◌then◌else◌, ◌==◌, Option-cases, inl, inr,
}
use mathlib.Core.Path.{subst}
use mathlib.Core.Option.{some-injective}
use ant_orchestrator.Prelude.Equality.{string_eq, ◌≟◌}
use ant_orchestrator.Domain.Result.{not_found, or_fault, workflow_definition_mismatch}
use ant_orchestrator.Domain.Status.{
  ApprovalStatus, is_final_approval, approval_status_is_eq, workflow_run_status_is_eq,
}
use ant_orchestrator.Domain.Execution.{TransitionTrigger, resume_operation_status_is_eq}
use ant_orchestrator.Domain.Entities.{Task, WorkflowRun, ResumeOperation}
use ant_orchestrator.Domain.Approval.{Approval}
use ant_orchestrator.Store.Rows.{find, same_value}
use ant_orchestrator.Store.Tx.{Db, ◌>>=◌, throw}
use ant_orchestrator.Store.Runs.{get_task}
use ant_orchestrator.Store.Gates.{find_pending_by_run, find_by_approval, is_pending}
use ant_orchestrator.Store.Decisions.{NodupIds, find-accepts, find_by_id}
use ant_orchestrator.Store.Deciding.{Decided}
use ant_orchestrator.Services.Support.{Env}
use ant_orchestrator.Services.Cancel.{cancel_operation, cancel_pending, cancel_awaiting, nobody}
use ant_orchestrator.Services.Effect.{Post, Linked, Post-lift}
use ant_orchestrator.Services.Leasing.{acquire-Effect}
use ant_orchestrator.Services.Owners.{OfLease}

Linked-operation :
    (p : ResumeOperation → Bool) (operations : List ResumeOperation) (approvals : List Approval)
    (operation : ResumeOperation)
    → Linked operations approvals
    → find p operations ≡ some operation
    → Decided operation.approval_id approvals
unfolding find
Linked-operation p [] approvals operation l h = cc
Linked-operation p (o ∷ rest) approvals operation l h =
    elim (p o)
        as (λ b.
          (if b then some o else find p rest) ≡ some operation
          → Decided operation.approval_id approvals) [
            | true ↦ λ q.
                subst (λ (r : ResumeOperation). Decided r.approval_id approvals)
                  (some-injective o operation q) l.0
            | false ↦ λ q. Linked-operation p rest approvals operation l.1 q
          ]
      h

-- A pending approval has no operation: an operation is for a decided approval.
pending_is_free :
    (p : Approval → Bool) (approval : Approval) (db : Db)
    → NodupIds db.approvals
    → Linked db.operations db.approvals
    → ((a : Approval) → p a ≡ true → is_final_approval a.status ≡ false)
    → find p db.approvals ≡ some approval
    → find (λ o. o.approval_id ≟ approval.id) db.operations ≡ none
unfolding Decided
pending_is_free p approval db u l pending h =
    elim (Option-cases (find (λ o. o.approval_id ≟ approval.id) db.operations)) [
      | inl e ↦ e
      | inr (operation, e) ↦
          let same_id =
            (string_eq.beq_iff operation.approval_id approval.id).0
              (find-accepts (λ o. o.approval_id ≟ approval.id) db.operations operation e) in
          let (a, found, done) =
            subst (λ id. Decided id db.approvals) same_id
              (Linked-operation _ db.operations db.approvals operation l e) in
          let stored = find_by_id p db.approvals approval u h in
          let equal = some-injective a approval (sym found ∙ stored) in
          let open_status = pending approval (find-accepts p db.approvals approval h) in
          cc (ap (λ (r : Approval). is_final_approval r.status) equal)
    ]

cancel_operation-Effect :
    (env : Env) (task : Task) (run : WorkflowRun) (approval : Approval)
    (existing : Option ResumeOperation) (db : Db)
    → NodupIds db.approvals
    → existing ≡ none
    → Post (OfLease db) (cancel_operation env task run approval existing db)
unfolding cancel_operation
cancel_operation-Effect env task run approval none db u e =
    acquire-Effect env task run approval ApprovalStatus.cancelled TransitionTrigger.cancel nobody db
      u
cancel_operation-Effect env task run approval (some operation) db u e = cc

still_pending :
    (run_id : String) (a : Approval)
    → (same_value (some run_id) a.workflow_run_id && is_pending a) ≡ true
    → is_final_approval a.status ≡ false
unfolding is_pending
still_pending run_id a h = ground arith

cancel_pending-Effect :
    (env : Env) (version : ℕ) (task : Task) (run : WorkflowRun) (approval : Option Approval)
    (db : Db)
    → NodupIds db.approvals
    → Linked db.operations db.approvals
    → find (λ a. same_value (some run.id) a.workflow_run_id && is_pending a) db.approvals ≡ approval
    → Post (OfLease db) (cancel_pending env version task run approval db)
unfolding cancel_pending find_by_approval ◌>>=◌
cancel_pending-Effect env version task run none db u l h = tt
cancel_pending-Effect env version task run (some approval) db u l h =
    elim (not (run.workflow_definition_version == version))
      as (λ b. Post (OfLease db) (
        (if b
            then throw workflow_definition_mismatch
            else (find_by_approval approval.id >>= cancel_operation env task run approval))
          db)) [
            | true ↦ tt
            | false ↦
                cancel_operation-Effect env task run approval
                  (find (λ o. o.approval_id ≟ approval.id) db.operations) db u
                  (pending_is_free _ approval db u l (still_pending run.id) h)
          ]

pub cancel_awaiting-Effect :
    (env : Env) (version : ℕ) (task_id : String) (run : WorkflowRun) (db : Db)
    → NodupIds db.approvals
    → Linked db.operations db.approvals
    → Post (OfLease db) (cancel_awaiting env version task_id run db)
unfolding cancel_awaiting find_pending_by_run get_task ◌>>=◌
cancel_awaiting-Effect env version task_id run db u l =
    Post-lift (OfLease db) (or_fault (find (λ t. t.id ≟ task_id) db.tasks) not_found) _ db
      (λ task _.
        cancel_pending-Effect env version task run
          (find (λ a. same_value (some run.id) a.workflow_run_id && is_pending a) db.approvals) db u
          l refl)
