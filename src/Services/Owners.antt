-- ===== src/Services/Owners.antt =====
-- application/services/resolve_approval.py: the transactions of an approval and a rejection.
use ant_orchestrator.Prelude.{
  ℕ, ◌≡◌, refl, sym, Bool, true, false, not, ◌&&◌, Option, none, some, List, String, if◌then◌else◌,
  ◌==◌,
}
use mathlib.Core.Path.{subst}
use ant_orchestrator.Prelude.Equality.{string_eq, ◌≟◌}
use ant_orchestrator.Domain.Result.{
  not_found, or_fault, approval_rule_violation, approval_state_conflict,
  workflow_definition_mismatch,
}
use ant_orchestrator.Domain.Status.{
  ApprovalStatus, WorkflowRunStatus, is_final_task, is_active_run, task_status_value,
  approval_status_is_eq, workflow_run_status_is_eq,
}
use ant_orchestrator.Domain.Execution.{resume_operation_status_is_eq}
use ant_orchestrator.Domain.Entities.{Task, WorkflowRun, ResumeOperation}
use ant_orchestrator.Domain.Approval.{Approval, Actor}
use ant_orchestrator.Store.Rows.{find, same_value}
use ant_orchestrator.Store.Tx.{Db, ◌>>=◌, pure, throw}
use ant_orchestrator.Store.Runs.{get_task, find_active_by_task}
use ant_orchestrator.Store.Gates.{find_pending_by_run, find_by_approval, list_by_task, is_pending}
use ant_orchestrator.Store.Decisions.{NodupIds}
use ant_orchestrator.Services.Support.{Env, outcome_of, latest_persisted_decision}
use ant_orchestrator.Services.Resolve.{
  Lease, Ticket, answered, leased, join_operation, resolve_operation, resolve_pending, resolve_run,
  resolve_ticket, joined, resolve_inactive, resolve_active, resolve_tx, differs, decision_trigger,
}
use ant_orchestrator.Services.Calls.{owns}
use ant_orchestrator.Services.Effect.{Effect, Post, Post-lift, Post-bind, same}
use ant_orchestrator.Services.Leasing.{acquire-Effect}

abbrev pub OfLease : Db → Lease → Db → Type 0
OfLease db lease next = Effect lease.is_owner db next

abbrev pub OfTicket : Db → Ticket → Db → Type 0
OfTicket db ticket next = Effect (owns ticket) db next

-- Who joins an operation with no claim to its lease changes nothing.
join-Effect :
    (run : WorkflowRun) (decision : ApprovalStatus) (operation : ResumeOperation)
    (owner : ResumeOperation → Bool) (db : Db)
    → owner operation ≡ false
    → Post (OfLease db) (join_operation run decision operation owner db)
unfolding join_operation
join-Effect run decision operation owner db e =
    elim (operation.decision ≟ decision)
      as (λ b. Post (OfLease db) (
        (if b then pure (joined run operation (owner operation)) else throw approval_state_conflict)
          db)) [ true ↦ subst (λ b. Effect b db db) (sym e) (same db) | false ↦ tt ]

resolve_pending-Effect :
    (env : Env) (task : Task) (run : WorkflowRun) (decision : ApprovalStatus) (actor : Actor)
    (approval : Option Approval) (db : Db)
    → NodupIds db.approvals
    → Post (OfLease db) (resolve_pending env task run decision actor approval db)
unfolding resolve_pending find_by_approval resolve_operation ◌>>=◌
resolve_pending-Effect env task run decision actor none db u = tt
resolve_pending-Effect env task run decision actor (some approval) db u =
    elim (find (λ o. o.approval_id ≟ approval.id) db.operations)
      as (λ existing.
        Post (OfLease db) (resolve_operation env task run approval decision actor existing db)) [
          | none ↦
              acquire-Effect env task run approval decision (decision_trigger decision) actor db u
          | some operation ↦ join-Effect run decision operation (λ _. false) db refl
        ]

resolve_inactive-Effect :
    (task : Task) (decision : ApprovalStatus) (approvals : List Approval) (db : Db)
    → Post (OfTicket db) (resolve_inactive task decision approvals db)
unfolding resolve_inactive
resolve_inactive-Effect task decision approvals db =
    let status = outcome_of (task_status_value task.status) "" in
    elim (differs (latest_persisted_decision approvals) decision)
      as (λ b. Post (OfTicket db) (
        (if b
            then throw approval_state_conflict
            else if is_final_task task.status
            then pure (answered status)
            else throw approval_rule_violation)
          db)) [
            | true ↦ tt
            | false ↦
                elim (is_final_task task.status)
                  as (λ b.
                    Post (OfTicket db)
                      ((if b then pure (answered status) else throw approval_rule_violation) db)) [
                        | true ↦ same db
                        | false ↦ tt
                      ]
          ]

resolve_ticket-Effect :
    (env : Env) (task : Task) (run : WorkflowRun) (decision : ApprovalStatus) (actor : Actor)
    (db : Db)
    → NodupIds db.approvals
    → Post (OfTicket db) (resolve_ticket env task run decision actor db)
unfolding resolve_ticket find_pending_by_run ◌>>=◌
resolve_ticket-Effect env task run decision actor db u =
    Post-bind (OfTicket db) (resolve_pending env task run decision actor found)
      (λ lease. pure (leased lease)) db
      (λ lease next e.
        subst (Post (OfLease db)) e (resolve_pending-Effect env task run decision actor found db u))
  where
    found : Option Approval
    found = find (λ a. same_value (some run.id) a.workflow_run_id && is_pending a) db.approvals

resolve_run-Effect :
    (env : Env) (version : ℕ) (task : Task) (run : WorkflowRun) (decision : ApprovalStatus)
    (actor : Actor) (db : Db)
    → NodupIds db.approvals
    → Post (OfTicket db) (resolve_run env version task run decision actor db)
unfolding resolve_run
resolve_run-Effect env version task run decision actor db u =
    let rest = resolve_ticket env task run decision actor in
    elim (not (run.status ≟ WorkflowRunStatus.awaiting_approval))
      as (λ b. Post (OfTicket db) (
        (if b
            then throw approval_rule_violation
            else if not (run.workflow_definition_version == version)
            then throw workflow_definition_mismatch
            else rest)
          db)) [
            | true ↦ tt
            | false ↦
                elim (not (run.workflow_definition_version == version))
                  as (λ b.
                    Post (OfTicket db)
                      ((if b then throw workflow_definition_mismatch else rest) db)) [
                        | true ↦ tt
                        | false ↦ resolve_ticket-Effect env task run decision actor db u
                      ]
          ]

resolve_active-Effect :
    (env : Env) (version : ℕ) (task : Task) (decision : ApprovalStatus) (actor : Actor)
    (run : Option WorkflowRun) (db : Db)
    → NodupIds db.approvals
    → Post (OfTicket db) (resolve_active env version task decision actor run db)
unfolding resolve_active list_by_task ◌>>=◌
resolve_active-Effect env version task decision actor none db u =
    resolve_inactive-Effect task decision _ db
resolve_active-Effect env version task decision actor (some run) db u =
    resolve_run-Effect env version task run decision actor db u

pub resolve_tx-Effect :
    (env : Env) (version : ℕ) (task_id : String) (decision : ApprovalStatus) (actor : Actor)
    (db : Db)
    → NodupIds db.approvals
    → Post (OfTicket db) (resolve_tx env version task_id decision actor db)
unfolding resolve_tx find_active_by_task get_task ◌>>=◌
resolve_tx-Effect env version task_id decision actor db u =
    Post-lift (OfTicket db) (or_fault (find (λ t. t.id ≟ task_id) db.tasks) not_found) _ db
      (λ task _.
        resolve_active-Effect env version task decision actor
          (find (λ r. (r.task_id ≟ task_id) && is_active_run r.status) db.runs) db u)
