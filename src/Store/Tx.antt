-- ===== src/Store/Tx.antt =====
-- persistence/unit_of_work.py: the database of the workflow services, and transactions on it. A
-- transaction that raises leaves nothing, so that it needs no state beside the exception.
use ant_orchestrator.Prelude.{List}
use ant_orchestrator.Domain.Result.{Fault, Result, ok, err}
use ant_orchestrator.Domain.Entities.{
  Task, WorkflowRun, StatusTransition, ResumeOperation, ExecutionAttempt,
}
use ant_orchestrator.Domain.Approval.{Approval}

pub record Db : Type 0 where
  pub tasks : List Task
  pub runs : List WorkflowRun
  pub approvals : List Approval
  pub transitions : List StatusTransition
  pub operations : List ResumeOperation
  pub attempts : List ExecutionAttempt

abbrev pub Tx : Type 0 → Type 0
Tx A = Db → Result (A × Db)

module _ {A : Type 0} where
  abbrev pub pure : A → Tx A
  pure a db = ok (a, db)

  abbrev pub throw : Fault → Tx A
  throw e db = err e

  abbrev pub lift : Result A → Tx A
  lift (ok a) db = ok (a, db)
  lift (err e) db = err e

  -- A read of the tables.
  abbrev pub gets : (Db → A) → Tx A
  gets f db = ok (f db, db)

module _ {A B : Type 0} where
  abbrev pub continue : Result (A × Db) → (A → Tx B) → Result (B × Db)
  continue (ok (a, db)) f = f a db
  continue (err e) f = err e

  infixl 5 ◌>>=◌ ◌>>◌
  unfoldable pub ◌>>=◌ : Tx A → (A → Tx B) → Tx B
  ◌>>=◌ m f db = continue (m db) f

  abbrev pub ◌>>◌ : Tx A → Tx B → Tx B
  m >> n = m >>= λ _. n

-- `with uow_factory() as uow`: commit on a clean exit, roll back on an exception.
unfoldable pub atomically : {A : Type 0} → Tx A → Db → Result A × Db
atomically m db = elim (m db) [ ok (a, after) ↦ (ok a, after) | err e ↦ (err e, db) ]
