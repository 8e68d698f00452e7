-- ===== src/Store/Gates.antt =====
-- persistence/repositories/approval.py and resume_operation.py.
use ant_orchestrator.Prelude.{
  ℕ, Bool, true, false, not, ◌&&◌, ◌||◌, Option, some, List, [], ◌∷◌, String, if◌then◌else◌, ltb,
  ◌==◌,
}
use Prim.Native.Char.{code}
use ant_orchestrator.Prelude.Equality.{string_eq, ◌≟◌}
use ant_orchestrator.Domain.Result.{Result, ok, err, not_found, integrity_error, or_fault}
use ant_orchestrator.Domain.Status.{approval_status_is_eq, is_final_approval}
use ant_orchestrator.Domain.Entities.{ResumeOperation}
use ant_orchestrator.Domain.Approval.{Approval}
use ant_orchestrator.Store.Rows.{find, filter, any, update, insert, same_value}
use ant_orchestrator.Store.Tx.{Db, Tx, lift, gets}

-- `status = 'pending'`
unfoldable pub is_pending : Approval → Bool
is_pending approval = not (is_final_approval approval.status)

-- The primary key, `ux_appr_gate_instance` and `ux_appr_pending_run`.
unfoldable pub approval_clash : Approval → Approval → Bool
unfolding is_pending
approval_clash new old =
    (new.id ≟ old.id)
    || same_value new.gate_instance_id old.gate_instance_id
    || (is_pending new && is_pending old && same_value new.workflow_run_id old.workflow_run_id)

abbrev pub with_approvals : Db → Result (List Approval) → Result ((Unit {0}) × Db)
with_approvals db (ok rows) = ok (tt, record db { approvals = rows })
with_approvals db (err e) = err e

unfoldable pub add_approval : Approval → Tx (Unit {0})
add_approval approval db = with_approvals db (insert approval_clash approval db.approvals)

-- The columns that a resolve sets.
unfoldable pub set_approval : Approval → Approval → Approval
set_approval new old = record old {
  status = new.status;
  reason = new.reason;
  decided_at = new.decided_at;
  actor_source = new.actor_source;
  actor_label = new.actor_label;
  approval_row_version = new.approval_row_version;
}

-- The rows that `resolve_with_version` sets.
unfoldable pub is_at_version : String → ℕ → Approval → Bool
unfolding is_pending
is_at_version id version row =
    (row.id ≟ id) && is_pending row && (row.approval_row_version == version)

-- `resolve_with_version`: whether a row was set.
unfoldable pub resolve_with_version : Approval → ℕ → Tx Bool
resolve_with_version approval expected db =
    let matches = is_at_version approval.id expected in
    ok (
      any matches db.approvals,
      record db { approvals = update matches (set_approval approval) db.approvals },
    )

unfoldable pub find_by_gate_instance : String → Tx (Option Approval)
find_by_gate_instance gate =
    gets (λ db. find (λ a. same_value (some gate) a.gate_instance_id) db.approvals)

unfoldable pub find_pending_by_run : String → Tx (Option Approval)
unfolding is_pending
find_pending_by_run run_id =
    gets (λ db. find (λ a. same_value (some run_id) a.workflow_run_id && is_pending a) db.approvals)

-- The order of texts by their code points.
unfoldable pub text_before : String → String → Bool
text_before s String.[] = false
text_before String.[] (String.◌∷◌ d t) = true
text_before (String.◌∷◌ c s) (String.◌∷◌ d t) =
    ltb (code c) (code d) || ((code c == code d) && text_before s t)

-- `ORDER BY requested_at, id`
unfoldable pub requested_before : Approval → Approval → Bool
unfolding text_before
requested_before a b =
    ltb a.requested_at b.requested_at
    || ((a.requested_at == b.requested_at) && text_before a.id b.id)

unfoldable pub place : Approval → List Approval → List Approval
place a [] = a ∷ []
place a (b ∷ rest) =
    let later = place a rest in if requested_before b a then b ∷ later else a ∷ b ∷ rest

unfoldable pub in_order : List Approval → List Approval
unfolding place
in_order [] = []
in_order (a ∷ rest) = place a (in_order rest)

unfoldable pub list_by_task : String → Tx (List Approval)
unfolding in_order
list_by_task task_id = gets (λ db. in_order (filter (λ a. a.task_id ≟ task_id) db.approvals))

-- The primary key, `ux_resume_approval` and `ux_resume_interrupt`.
unfoldable pub interrupt_clash : ResumeOperation → ResumeOperation → Bool
interrupt_clash new old =
    (new.workflow_run_id ≟ old.workflow_run_id)
    && same_value new.langgraph_interrupt_id old.langgraph_interrupt_id

unfoldable pub operation_clash : ResumeOperation → ResumeOperation → Bool
unfolding interrupt_clash
operation_clash new old =
    (new.id ≟ old.id) || (new.approval_id ≟ old.approval_id) || interrupt_clash new old

abbrev pub with_operations : Db → Result (List ResumeOperation) → Result ((Unit {0}) × Db)
with_operations db (ok rows) = ok (tt, record db { operations = rows })
with_operations db (err e) = err e

unfoldable pub add_operation : ResumeOperation → Tx (Unit {0})
add_operation operation db = with_operations db (insert operation_clash operation db.operations)

unfoldable pub get_operation : String → Tx ResumeOperation
get_operation id db = lift (or_fault (find (λ o. o.id ≟ id) db.operations) not_found) db

unfoldable pub find_by_approval : String → Tx (Option ResumeOperation)
find_by_approval approval_id = gets (λ db. find (λ o. o.approval_id ≟ approval_id) db.operations)

-- The columns that an update of an operation sets.
unfoldable pub set_operation : ResumeOperation → ResumeOperation → ResumeOperation
set_operation new old = record old {
  decision = new.decision;
  status = new.status;
  langgraph_checkpoint_id = new.langgraph_checkpoint_id;
  langgraph_interrupt_id = new.langgraph_interrupt_id;
  owner_token = new.owner_token;
  lease_expires_at = new.lease_expires_at;
  completed_at = new.completed_at;
}

unfoldable pub update_operation : ResumeOperation → Tx (Unit {0})
update_operation operation db =
    if any (λ o. o.id ≟ operation.id) db.operations
    then if any (λ o. not (o.id ≟ operation.id) && interrupt_clash operation o) db.operations
      then err integrity_error
      else ok (
        tt,
        record db {
          operations = update (λ o. o.id ≟ operation.id) (set_operation operation) db.operations;
        },
      )
    else err not_found
