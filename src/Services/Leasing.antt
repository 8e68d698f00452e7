-- ===== src/Services/Leasing.antt =====
-- application/services/resolve_approval.py: the transactions that give a lease.
use ant_orchestrator.Prelude.{
  ℕ, ◌≡◌, refl, ap, ◌∙◌, true, false, List, [], ◌∷◌, ◌++◌, String, arith, if◌then◌else◌,
}
use mathlib.Core.Path.{subst}
use ant_orchestrator.Prelude.Equality.{string_eq}
use ant_orchestrator.Domain.Result.{ok, err, integrity_error}
use ant_orchestrator.Domain.Status.{ApprovalStatus, is_final_approval, approval_status_value}
use ant_orchestrator.Domain.Execution.{TransitionTrigger}
use ant_orchestrator.Domain.Entities.{Task, WorkflowRun, ResumeOperation, check_operation}
use ant_orchestrator.Domain.Approval.{Approval, Actor, resolve, check_approval}
use ant_orchestrator.Store.Rows.{any, insert}
use ant_orchestrator.Store.Tx.{continue, Db, Tx, ◌>>=◌}
use ant_orchestrator.Store.Gates.{
  add_operation, operation_clash, with_operations, resolve_with_version, is_at_version,
}
use ant_orchestrator.Store.Decisions.{NodupIds}
use ant_orchestrator.Store.Deciding.{
  Decided, decide, find-decide_decided, NodupIds-decide, decided_count-decide, decide-Decided,
}
use ant_orchestrator.Services.Support.{Env}
use ant_orchestrator.Services.Resolve.{
  Lease, acquire, take_lease, owned_operation, start_resume, append_lease_transitions,
}
use ant_orchestrator.Services.Effect.{
  Effect, Post, IsCalm, Linked-kept, Linked-append, Post-lift, Post-bind, then_calm, calm_rules,
}
use ant_orchestrator.Services.Calm.{table_rules}
use ant_orchestrator.Services.Quiet.{append_transition-IsCalm}

resolved_lem :
    (a : Approval) (decision : ApprovalStatus) (now : ℕ) (actor : Actor) (r : Approval)
    → resolve a decision now actor ≡ ok r
    → (r.id ≡ a.id) × (is_final_approval r.status ≡ true)
unfolding resolve check_approval
resolved_lem a decision now actor r h = ground arith

checked_operation : (a b : ResumeOperation) → check_operation a ≡ ok b → a ≡ b
unfolding check_operation
checked_operation a b h = ground arith

start_resume-IsCalm :
    (env : Env) (task : Task) (run : WorkflowRun) (op_id resolved : String)
    (trigger : TransitionTrigger)
    → IsCalm (start_resume env task run op_id resolved trigger)
unfolding start_resume append_lease_transitions
start_resume-IsCalm env task run op_id resolved trigger =
    search (calm_rules, table_rules, append_transition-IsCalm) depth 14

-- The tables of a lease.
abbrev leased_db : Db → ResumeOperation → ℕ → Approval → Db
leased_db db operation version new = record db {
  operations = db.operations ++ (operation ∷ []);
  approvals = decide new.id version new db.approvals;
}

leased-Effect :
    (db : Db) (operation : ResumeOperation) (version : ℕ) (new : Approval)
    → new.id ≡ operation.approval_id
    → is_final_approval new.status ≡ true
    → NodupIds db.approvals
    → any (is_at_version new.id version) db.approvals ≡ true
    → Effect true db (leased_db db operation version new)
leased-Effect db operation version new e final u applied = record {
  counted = decided_count-decide new.id version new final db.approvals u applied;
  kept = λ j a h d. find-decide_decided new.id version new j db.approvals a h d;
  distinct = λ v. NodupIds-decide new.id version new db.approvals v;
  linked = λ l.
      Linked-append db.operations operation rows
        (Linked-kept db.operations db.approvals rows
          (λ j a h d. find-decide_decided new.id version new j db.approvals a h d) l)
        (subst (λ id. Decided id rows) e
          (decide-Decided new.id version new final db.approvals u applied));
}
  where
    rows : List Approval
    rows = decide new.id version new db.approvals

pub Post-add :
    {B : Type 0} (R : B → Db → Type 0) (operation : ResumeOperation) (f : Unit {0} → Tx B) (db : Db)
    → Post R (f tt (record db { operations = db.operations ++ (operation ∷ []) }))
    → Post R ((add_operation operation >>= f) db)
unfolding ◌>>=◌ add_operation insert
Post-add R operation f db h =
    elim (any (operation_clash operation) db.operations)
      as (λ b. Post R (
        continue
          (with_operations db
            (if b then err integrity_error else ok (db.operations ++ (operation ∷ []))))
          f)) [ true ↦ tt | false ↦ h ]

taken-Effect :
    (env : Env) (task : Task) (run : WorkflowRun) (approval : Approval) (decision : ApprovalStatus)
    (trigger : TransitionTrigger) (db : Db) (operation : ResumeOperation) (new : Approval)
    → new.id ≡ operation.approval_id
    → is_final_approval new.status ≡ true
    → NodupIds db.approvals
    → Post
        (λ lease next. Effect lease.is_owner db next)
        ((resolve_with_version new approval.approval_row_version
            >>= take_lease env task run approval operation.id decision trigger)
          (record db { operations = db.operations ++ (operation ∷ []) }))
unfolding ◌>>=◌ resolve_with_version take_lease
taken-Effect env task run approval decision trigger db operation new e final u =
    let version = approval.approval_row_version in
    let next = leased_db db operation version new in
    elim (any (is_at_version new.id version) db.approvals)
        as (λ b.
          (any (is_at_version new.id version) db.approvals ≡ b)
          → Post (λ lease last. Effect lease.is_owner db last)
              (take_lease env task run approval operation.id decision trigger b next)) [
                | true ↦ λ applied.
                    Post-bind (λ lease last. Effect lease.is_owner db last)
                      (start_resume env task run operation.id (approval_status_value decision)
                        trigger)
                      _ next
                      (λ done last q.
                        then_calm true db next last
                          (leased-Effect db operation version new e final u applied)
                          (subst (Post (λ _ to. Effect false next to)) q (
                            (start_resume-IsCalm env task run operation.id
                                (approval_status_value decision) trigger).at
                              next)))
                | false ↦ λ applied. tt
              ]
      refl

pub acquire-Effect :
    (env : Env) (task : Task) (run : WorkflowRun) (approval : Approval) (decision : ApprovalStatus)
    (trigger : TransitionTrigger) (actor : Actor) (db : Db)
    → NodupIds db.approvals
    → Post
        (λ lease next. Effect lease.is_owner db next)
        (acquire env task run approval decision trigger actor db)
unfolding acquire owned_operation
acquire-Effect env task run approval decision trigger actor db u =
    Post-lift R (check_operation (owned_operation env run approval decision)) _ db (λ operation p.
      Post-add R operation _ db (
        Post-lift R (resolve approval decision env.now actor) _
          (record db { operations = db.operations ++ (operation ∷ []) })
          (λ new q.
            let (same_id, final) = resolved_lem approval decision env.now actor new q in
            let e =
              ap (λ (o : ResumeOperation). o.approval_id)
                (checked_operation (owned_operation env run approval decision) operation p) in
            taken-Effect env task run approval decision trigger db operation new (same_id ∙ e) final
              u)))
  where
    R : Lease → Db → Type 0
    R lease next = Effect lease.is_owner db next
