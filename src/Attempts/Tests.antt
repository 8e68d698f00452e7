-- ===== src/Attempts/Tests.antt =====
-- Concrete attempts, and the theorems about them applied.
use ant_orchestrator.Prelude.{◌≡◌, refl, false, none, some, [], ◌∷◌, String, ℕ, ◌==◌, if◌then◌else◌}
use ant_orchestrator.Domain.Result.{ok}
use ant_orchestrator.Domain.Execution.{
  ExecutionAttemptStatus, is_active_attempt, execution_attempt_status_eq,
  execution_attempt_status_value, execution_attempt_status_is_eq,
}
use ant_orchestrator.Domain.Entities.{ExecutionAttempt, check_attempt, attempt_with_status}
use ant_orchestrator.Store.Tx.{Db, ◌>>=◌}
use ant_orchestrator.Services.Support.{Env}
use ant_orchestrator.Workflow.Port.{success}
use ant_orchestrator.Attempts.{
  before_execute, continue_or_start, start_attempt, started_attempt, after_execute, outcome_status,
  find_recoverable_settled_attempt, is_stale, give_up,
}
use ant_orchestrator.Attempts.Starting.{current, before_execute_joins}
use ant_orchestrator.Attempts.Answers.{IsAnswer, before_execute_lem}
use ant_orchestrator.Attempts.RoundTrip.{recovery_finds_outcome}
use ant_orchestrator.Prelude.Equality.{◌≟◌}
use ant_orchestrator.Store.Rows.{insert, find, filter, any, update}
use ant_orchestrator.Store.Attempts.{
  find_active, list_for_action, is_of, add_attempt, attempt_clash, get_attempt, update_attempt,
  revives, set_attempt,
}

-- The first identifier is the attempt's, the second its owner's.
abbrev at_time : ℕ → String → Env
at_time now name = record {
  now = now;
  new_id = λ n. if n == 0 then name else "token";
  sha256 = λ s. s;
}

abbrev empty_db : Db
empty_db = record {
  tasks = [];
  runs = [];
  approvals = [];
  transitions = [];
  operations = [];
  attempts = [];
}

abbrev first : ExecutionAttempt
first = record {
  id = "a0";
  workflow_run_id = "run";
  logical_action_id = "act";
  attempt_no = 1;
  status = ExecutionAttemptStatus.started;
  created_at = 5;
  owner_token = some "token";
  lease_expires_at = some 300000005;
  started_at = some 5;
  completed_at = none;
  outcome = none;
}

abbrev with_first : Db
with_first = record empty_db { attempts = first ∷ [] }

starts : before_execute (at_time 5 "a0") "run" "act" empty_db ≡ ok ("a0", with_first)
unfolding before_execute continue_or_start start_attempt find_active list_for_action is_of
    check_attempt started_attempt add_attempt attempt_clash insert find filter any ◌>>=◌
    is_active_attempt
starts = refl

-- The first attempt is lost, and the second one follows it.
abbrev second : ExecutionAttempt
second = record first {
  id = "b1";
  attempt_no = 2;
  created_at = 400000000;
  lease_expires_at = some 700000000;
  started_at = some 400000000;
}

abbrev with_second : Db
with_second = record empty_db {
  attempts =
      record first { status = ExecutionAttemptStatus.indeterminate; completed_at = some 400000000 }
      ∷ second
      ∷ [];
}

restarts : before_execute (at_time 400000000 "b1") "run" "act" with_first ≡ ok ("b1", with_second)
unfolding before_execute continue_or_start start_attempt find_active list_for_action is_of
    check_attempt started_attempt add_attempt attempt_clash insert find filter any ◌>>=◌
    is_active_attempt is_stale give_up attempt_with_status update_attempt revives set_attempt update
    execution_attempt_status_eq execution_attempt_status_value
restarts = refl

before_execute_lem_example : IsAnswer 400000000 "run" "act" with_first "b1" with_second
before_execute_lem_example =
    before_execute_lem (at_time 400000000 "b1") "run" "act" "b1" with_first with_second restarts

is_first : current "run" "act" with_first.attempts ≡ some first
unfolding find is_of is_active_attempt
is_first = refl

still_fresh : is_stale first 9 ≡ false
unfolding is_stale execution_attempt_status_eq execution_attempt_status_value
still_fresh = refl

before_execute_joins_example :
    before_execute (at_time 9 "b0") "run" "act" with_first ≡ ok ("a0", with_first)
before_execute_joins_example =
    before_execute_joins (at_time 5 "a0") (at_time 9 "b0") "run" "act" "a0" empty_db with_first
      first starts is_first still_fresh

abbrev with_settled : Db
with_settled = record empty_db {
  attempts =
      record first {
        status = ExecutionAttemptStatus.succeeded;
        completed_at = some 8;
        outcome = some "{}";
      }
      ∷ [];
}

settles : after_execute (at_time 8 "c") "a0" success (some "{}") with_first ≡ ok (tt, with_settled)
unfolding before_execute continue_or_start start_attempt find_active list_for_action is_of
    check_attempt started_attempt add_attempt attempt_clash insert find filter any ◌>>=◌
    is_active_attempt after_execute get_attempt update_attempt attempt_with_status outcome_status
    revives set_attempt update
settles = refl

idle : current "run" "act" empty_db.attempts ≡ none
unfolding find
idle = refl

recovery_finds_outcome_example :
    find_recoverable_settled_attempt "run" "act" with_settled
    ≡ ok (
      some (record {
        attempt_id = "a0";
        compact_json = some "{}";
        is_succeeded = ExecutionAttemptStatus.succeeded ≟ ExecutionAttemptStatus.succeeded;
      }),
      with_settled,
    )
unfolding outcome_status
recovery_finds_outcome_example =
    recovery_finds_outcome (at_time 5 "a0") (at_time 8 "c") "run" "act" success (some "{}") empty_db
      "a0" with_first with_settled idle starts settles
