-- ===== src/Services/Leases.antt =====
-- application/services/: the leases and the decisions of any calls, in whatever order.
use ant_orchestrator.Prelude.{◌+◌, ◌≡◌, Bool, true, false, some, List, [], ◌∷◌, String, arith}
use mathlib.Core.Path.{subst}
use ant_orchestrator.Domain.Result.{Result, ok, err}
use ant_orchestrator.Domain.Status.{is_final_approval}
use ant_orchestrator.Domain.Approval.{Approval}
use ant_orchestrator.Store.Tx.{Db, Tx, pure}
use ant_orchestrator.Store.Decisions.{find_approval, NodupIds, decided_count}
use ant_orchestrator.Services.Resolve.{resolve_tx}
use ant_orchestrator.Services.Cancel.{cancel_awaiting}
use ant_orchestrator.Services.Calls.{
  Call, creates, pauses, resolves, cancels_created, cancels_awaiting, cancels_running, completes,
  settles, perform, plain, step, run, leases, owns, outcome,
}
use ant_orchestrator.Services.Effect.{Effect, Post, IsCalm, Linked, Post-bind, same}
use ant_orchestrator.Services.Quiet.{
  create_run-IsCalm, finalize_pause-IsCalm, cancel_created-IsCalm, cancel_running-IsCalm,
  finalize_completion-IsCalm, settle_operation-IsCalm,
}
use ant_orchestrator.Services.Owners.{resolve_tx-Effect, OfLease, OfTicket}
use ant_orchestrator.Services.Cancelling.{cancel_awaiting-Effect}

-- No two approvals have one identifier, and every lease is for a decided approval.
pub record IsConsistent (db : Db) : Type 0 where
  pub distinct : NodupIds db.approvals
  pub linked : Linked db.operations db.approvals

abbrev Answer : Db → Bool → Db → Type 0
Answer db owner next = Effect owner db next

plain_answer : {A : Type 0} (m : Tx A) (db : Db) → IsCalm m → Post (Answer db) (plain m db)
unfolding plain
plain_answer m db calm =
    Post-bind (Answer db) m (λ _. pure false) db
      (λ a next e. subst (Post (λ _ to. Effect false db to)) e (calm.at db))

perform_answer : (call : Call) (db : Db) → IsConsistent db → Post (Answer db) (perform call db)
unfolding perform
perform_answer (creates env task) db c = plain_answer _ db (create_run-IsCalm env task)
perform_answer (pauses env r interrupt checkpoint) db c =
    plain_answer _ db (finalize_pause-IsCalm env r interrupt checkpoint)
perform_answer (resolves env version task decision actor) db c =
    Post-bind (Answer db) (resolve_tx env version task decision actor)
      (λ ticket. pure (owns ticket)) db
      (λ ticket next e.
        subst (Post (OfTicket db)) e
          (resolve_tx-Effect env version task decision actor db c.distinct))
perform_answer (cancels_created env task) db c = plain_answer _ db (cancel_created-IsCalm env task)
perform_answer (cancels_awaiting env version task r) db c =
    Post-bind (Answer db) (cancel_awaiting env version task r) (λ lease. pure lease.is_owner) db
      (λ lease next e.
        subst (Post (OfLease db)) e
          (cancel_awaiting-Effect env version task r db c.distinct c.linked))
perform_answer (cancels_running env r) db c = plain_answer _ db (cancel_running-IsCalm env r)
perform_answer (completes env r o checkpoint operation) db c =
    plain_answer _ db (finalize_completion-IsCalm env r o checkpoint operation)
perform_answer (settles env operation) db c =
    plain_answer _ db (settle_operation-IsCalm env operation)

outcome_answer :
    (db : Db) (r : Result (Bool × Db))
    → Post (Answer db) r
    → Effect (outcome db r).0 db (outcome db r).1
outcome_answer db (ok (owner, next)) h = h
outcome_answer db (err e) h = same db

pub step-Effect :
    (call : Call) (db : Db) → IsConsistent db → Effect (step call db).0 db (step call db).1
unfolding step
step-Effect call db c = outcome_answer db (perform call db) (perform_answer call db c)

pub step-IsConsistent : (call : Call) (db : Db) → IsConsistent db → IsConsistent (step call db).1
step-IsConsistent call db c =
    let e = step-Effect call db c in
    record { distinct = e.distinct c.distinct; linked = e.linked c.linked }

-- From consistent tables, any sequence of the transactions of the services, whatever they raise,
-- leads to consistent tables: no two approvals have one identifier, and every resume operation is
-- for an approval that is stored and decided.
pub run-IsConsistent : (calls : List Call) (db : Db) → IsConsistent db → IsConsistent (run calls db)
unfolding run
run-IsConsistent [] db c = c
run-IsConsistent (call ∷ calls) db c =
    run-IsConsistent calls (step call db).1 (step-IsConsistent call db c)

-- From consistent tables, in any sequence of the transactions of the services, whatever they raise,
-- the leases to resume the graph that are given are as many as the approvals that come to be decided:
-- the tables then hold as many decided approvals as before, and one more for each lease.
pub one_lease_per_decision :
    (calls : List Call) (db : Db)
    → IsConsistent db
    → decided_count (run calls db).approvals ≡ leases calls db + decided_count db.approvals
unfolding run leases
one_lease_per_decision [] db c = omega arith
one_lease_per_decision (call ∷ calls) db c =
    let e = step-Effect call db c in
    ground (
      arith,
      one_lease_per_decision calls (step call db).1 (step-IsConsistent call db c),
      e.counted,
    )

-- From consistent tables, an approval that is decided stays as it is, in every field, through any
-- sequence of the transactions of the services.
pub decided_for_good :
    (calls : List Call) (db : Db) (id : String) (a : Approval)
    → IsConsistent db
    → find_approval id db.approvals ≡ some a
    → is_final_approval a.status ≡ true
    → find_approval id (run calls db).approvals ≡ some a
unfolding run
decided_for_good [] db id a c h d = h
decided_for_good (call ∷ calls) db id a c h d =
    let e = step-Effect call db c in
    decided_for_good calls (step call db).1 id a (step-IsConsistent call db c) (e.kept id a h d) d
