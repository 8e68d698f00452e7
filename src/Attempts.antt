-- ===== src/Attempts.antt =====
-- workflows/attempt_orchestrator.py: the attempt round one invocation of a worker.
pub mod Starting
pub mod Recovery
pub mod Answers
pub mod RoundTrip
pub mod Tests
use ant_orchestrator.Prelude.{
  ℕ, zero, suc, ◌+◌, ◌*◌, Bool, true, false, not, ◌&&◌, ◌||◌, Option, none, some, List, [], ◌∷◌,
  String, ltb, if◌then◌else◌,
}
use ant_orchestrator.Prelude.Dict.{is_there}
use ant_orchestrator.Prelude.Equality.{◌≟◌}
use ant_orchestrator.Domain.Execution.{ExecutionAttemptStatus, execution_attempt_status_is_eq}
use ant_orchestrator.Domain.Entities.{ExecutionAttempt, check_attempt, attempt_with_status}
use ant_orchestrator.Store.Tx.{Tx, pure, lift, ◌>>=◌}
use ant_orchestrator.Store.Attempts.{
  find_active, update_attempt, list_for_action, add_attempt, get_attempt,
  find_latest_settled_attempt, find_settled_succeeded,
}
use ant_orchestrator.Services.Support.{Env}
use ant_orchestrator.Workflow.Port.{
  WorkerOutcome, success, retryable_failure, permanent_failure, validation_failure, review_regroup,
  escalation,
}

-- `_OUTCOME_STATUS`
unfoldable pub outcome_status : WorkerOutcome → ExecutionAttemptStatus
outcome_status success = ExecutionAttemptStatus.succeeded
outcome_status review_regroup = ExecutionAttemptStatus.succeeded
outcome_status retryable_failure = ExecutionAttemptStatus.failed
outcome_status permanent_failure = ExecutionAttemptStatus.failed
outcome_status validation_failure = ExecutionAttemptStatus.failed
outcome_status escalation = ExecutionAttemptStatus.failed

abbrev is_before : Option ℕ → ℕ → Bool
is_before none now = false
is_before (some t) now = ltb t now

-- `_is_stale`: a started attempt whose lease has expired.
unfoldable pub is_stale : ExecutionAttempt → ℕ → Bool
is_stale attempt now =
    (attempt.status ≟ ExecutionAttemptStatus.started) && is_before attempt.lease_expires_at now

-- `max(..., default=0)`
abbrev pub max_no : List ExecutionAttempt → ℕ
max_no [] = 0
max_no (a ∷ rest) = if ltb (max_no rest) a.attempt_no then a.attempt_no else max_no rest

-- EXECUTION_ATTEMPT_LEASE_SECONDS, in microseconds.
abbrev pub attempt_lease : ℕ
attempt_lease = 300 * 1000000

unfoldable pub started_attempt : Env → String → String → List ExecutionAttempt → ExecutionAttempt
started_attempt env run_id action previous = record {
  id = env.new_id 0;
  workflow_run_id = run_id;
  logical_action_id = action;
  attempt_no = max_no previous + 1;
  status = ExecutionAttemptStatus.started;
  created_at = env.now;
  owner_token = some (env.new_id 1);
  lease_expires_at = some (env.now + attempt_lease);
  started_at = some env.now;
  completed_at = none;
  outcome = none;
}

-- A new attempt, with the next number of its action.
unfoldable pub start_attempt : Env → String → String → Tx String
start_attempt env run_id action = do
  previous ← list_for_action run_id action
  attempt ← lift (check_attempt (started_attempt env run_id action previous))
  _ ← add_attempt attempt
  pure attempt.id

-- A stale attempt becomes indeterminate.
unfoldable pub give_up : Env → ExecutionAttempt → Tx (Unit {0})
give_up env active = do
  lost ← lift (attempt_with_status active ExecutionAttemptStatus.indeterminate (some env.now) none)
  update_attempt lost

unfoldable pub continue_or_start : Env → String → String → Option ExecutionAttempt → Tx String
continue_or_start env run_id action none = start_attempt env run_id action
continue_or_start env run_id action (some active) =
    if is_stale active env.now
    then (do _ ← give_up env active; start_attempt env run_id action)
    else pure active.id

-- `before_execute`: the identifier of the attempt that is active.
unfoldable pub before_execute : Env → String → String → Tx String
before_execute env run_id action = do
  active ← find_active run_id action
  continue_or_start env run_id action active

-- `after_execute`
unfoldable pub after_execute : Env → String → WorkerOutcome → Option String → Tx (Unit {0})
after_execute env attempt_id outcome compact_json = do
  attempt ← get_attempt attempt_id
  settled ← lift (attempt_with_status attempt (outcome_status outcome) (some env.now) compact_json)
  update_attempt settled

unfoldable pub get_attempt_no : String → Tx ℕ
get_attempt_no attempt_id = do attempt ← get_attempt attempt_id; pure attempt.attempt_no

pub record RecoveredAttempt : Type 0 where
  pub attempt_id : String
  pub compact_json : Option String
  pub is_succeeded : Bool

abbrev pub recovered : Option ExecutionAttempt → Option RecoveredAttempt
recovered none = none
recovered (some a) = some (record {
  attempt_id = a.id;
  compact_json = a.outcome;
  is_succeeded = a.status ≟ ExecutionAttemptStatus.succeeded;
})

-- An active attempt is an ordinary concurrent run: nothing is recovered.
unfoldable pub find_recoverable_settled_attempt : String → String → Tx (Option RecoveredAttempt)
find_recoverable_settled_attempt run_id action = do
  active ← find_active run_id action
  settled ← find_latest_settled_attempt run_id action
  pure (if is_there active then none else recovered settled)

abbrev id_of : Option ExecutionAttempt → Option String
id_of none = none
id_of (some a) = some a.id

unfoldable pub find_recoverable_window3 : String → String → Tx (Option String)
find_recoverable_window3 run_id action = do
  active ← find_active run_id action
  settled ← find_settled_succeeded run_id action
  pure (if is_there active then none else id_of settled)
