-- ===== src/Store/Attempts.antt =====
-- persistence/repositories/execution_attempt.py.
use ant_orchestrator.Prelude.{
  Bool, not, ◌&&◌, ◌||◌, Option, none, some, List, [], ◌∷◌, String, ltb, ◌==◌, if◌then◌else◌,
}
use ant_orchestrator.Prelude.Equality.{string_eq, ◌≟◌}
use ant_orchestrator.Domain.Result.{Result, ok, err, not_found, integrity_error, or_fault}
use ant_orchestrator.Domain.Execution.{
  ExecutionAttemptStatus, execution_attempt_status_is_eq, is_active_attempt,
}
use ant_orchestrator.Domain.Entities.{ExecutionAttempt}
use ant_orchestrator.Store.Rows.{find, filter, any, update, insert}
use ant_orchestrator.Store.Tx.{Db, Tx, lift, gets}

-- The rows of one logical action of a run.
unfoldable pub is_of : String → String → ExecutionAttempt → Bool
is_of run_id action a = (a.workflow_run_id ≟ run_id) && (a.logical_action_id ≟ action)

-- The primary key, `ux_attempt_no` and `ux_attempt_active`.
unfoldable pub attempt_clash : ExecutionAttempt → ExecutionAttempt → Bool
unfolding is_of
attempt_clash new old =
    (new.id ≟ old.id)
    || (is_of new.workflow_run_id new.logical_action_id old
        && ((new.attempt_no == old.attempt_no)
            || (is_active_attempt new.status && is_active_attempt old.status)))

abbrev pub with_attempts : Db → Result (List ExecutionAttempt) → Result ((Unit {0}) × Db)
with_attempts db (ok rows) = ok (tt, record db { attempts = rows })
with_attempts db (err e) = err e

unfoldable pub add_attempt : ExecutionAttempt → Tx (Unit {0})
add_attempt attempt db = with_attempts db (insert attempt_clash attempt db.attempts)

unfoldable pub get_attempt : String → Tx ExecutionAttempt
get_attempt id db = lift (or_fault (find (λ a. a.id ≟ id) db.attempts) not_found) db

-- The columns that an update sets.
unfoldable pub set_attempt : ExecutionAttempt → ExecutionAttempt → ExecutionAttempt
set_attempt new old = record old {
  status = new.status;
  owner_token = new.owner_token;
  lease_expires_at = new.lease_expires_at;
  started_at = new.started_at;
  completed_at = new.completed_at;
  outcome = new.outcome;
}

-- An update, too, is refused where it would make a second active attempt of an action.
unfoldable pub revives : ExecutionAttempt → ExecutionAttempt → Bool
unfolding is_of
revives new old =
    not (old.id ≟ new.id)
    && is_of new.workflow_run_id new.logical_action_id old
    && is_active_attempt new.status
    && is_active_attempt old.status

unfoldable pub update_attempt : ExecutionAttempt → Tx (Unit {0})
update_attempt attempt db =
    if any (λ a. a.id ≟ attempt.id) db.attempts
    then if any (revives attempt) db.attempts
      then err integrity_error
      else ok (
        tt,
        record db { attempts = update (λ a. a.id ≟ attempt.id) (set_attempt attempt) db.attempts },
      )
    else err not_found

unfoldable pub find_active : String → String → Tx (Option ExecutionAttempt)
unfolding is_of
find_active run_id action =
    gets (λ db. find (λ a. is_of run_id action a && is_active_attempt a.status) db.attempts)

-- `ORDER BY attempt_no DESC LIMIT 1`: the row with the greatest number.
unfoldable pub latest : List ExecutionAttempt → Option ExecutionAttempt
latest [] = none
latest (a ∷ rest) = elim (latest rest) [
  | none ↦ some a
  | some b ↦ some (if ltb a.attempt_no b.attempt_no then b else a)
]

unfoldable pub is_settled : ExecutionAttempt → Bool
is_settled a =
    (a.status ≟ ExecutionAttemptStatus.succeeded) || (a.status ≟ ExecutionAttemptStatus.failed)

unfoldable pub find_settled_succeeded : String → String → Tx (Option ExecutionAttempt)
unfolding is_of latest
find_settled_succeeded run_id action = gets (λ db. latest (
    filter (λ a. is_of run_id action a && (a.status ≟ ExecutionAttemptStatus.succeeded))
      db.attempts))

unfoldable pub find_latest_settled_attempt : String → String → Tx (Option ExecutionAttempt)
unfolding is_of latest is_settled
find_latest_settled_attempt run_id action =
    gets (λ db. latest (filter (λ a. is_of run_id action a && is_settled a) db.attempts))

-- The rows of an action; their order is not read.
unfoldable pub list_for_action : String → String → Tx (List ExecutionAttempt)
unfolding is_of
list_for_action run_id action = gets (λ db. filter (is_of run_id action) db.attempts)
