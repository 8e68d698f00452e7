-- ===== src/Attempts/RoundTrip.antt =====
-- workflows/attempt_orchestrator.py: an attempt from its start to its recovery.
use ant_orchestrator.Prelude.{
  ◌≡◌, refl, sym, ap, ◌∙◌, Bool, true, false, ◌&&◌, ◌||◌, Option, none, some, [], ◌∷◌, ◌++◌, String,
  arith, if◌then◌else◌,
}
use mathlib.Core.Path.{subst}
use ant_orchestrator.Prelude.Dict.{is_there}
use ant_orchestrator.Prelude.Equality.{string_eq, ◌≟◌, ≟_refl}
use ant_orchestrator.Domain.Result.{ok_injective, ok, or_fault, not_found}
use ant_orchestrator.Domain.Execution.{
  ExecutionAttemptStatus, is_active_attempt, execution_attempt_status_is_eq,
  execution_attempt_status_eq, execution_attempt_status_value,
}
use ant_orchestrator.Domain.Entities.{ExecutionAttempt, check_attempt, attempt_with_status, or_kept}
use ant_orchestrator.Store.Rows.{find, any, filter}
use ant_orchestrator.Store.Tx.{Db, pure, lift, ◌>>=◌}
use ant_orchestrator.Store.Attempts.{
  is_of, attempt_clash, set_attempt, latest, is_settled, update_attempt, get_attempt, find_active,
  find_latest_settled_attempt, list_for_action,
}
use ant_orchestrator.Services.Support.{Env}
use ant_orchestrator.Services.Effect.{Post, Post-lift}
use ant_orchestrator.Workflow.Port.{
  WorkerOutcome, success, retryable_failure, permanent_failure, validation_failure, review_regroup,
  escalation,
}
use ant_orchestrator.Attempts.{
  outcome_status, started_attempt, start_attempt, before_execute, continue_or_start, after_execute,
  find_recoverable_settled_attempt, RecoveredAttempt, recovered,
}
use ant_orchestrator.Attempts.Starting.{current, checked_attempt, Post-add}
use ant_orchestrator.Attempts.Recovery.{
  max_no-Below, latest-append, filter-append_true, Below-filter, current-append_settled, find-last,
  update-last, Post-update,
}

and_left : (p q : ExecutionAttempt → Bool) (a : ExecutionAttempt) → (p a && q a) ≡ true → p a ≡ true
and_left p q a h = ground arith

or_kept-none : {A : Type 0} (o : Option A) → or_kept o none ≡ o
or_kept-none none = refl
or_kept-none (some a) = refl

statuses_settle :
    (outcome : WorkerOutcome)
    → ((outcome_status outcome ≟ ExecutionAttemptStatus.succeeded)
        || (outcome_status outcome ≟ ExecutionAttemptStatus.failed))
      ≡ true
unfolding outcome_status execution_attempt_status_eq execution_attempt_status_value
statuses_settle success = refl
statuses_settle retryable_failure = refl
statuses_settle permanent_failure = refl
statuses_settle validation_failure = refl
statuses_settle review_regroup = refl
statuses_settle escalation = refl

abbrev answer : Option ExecutionAttempt → Option ExecutionAttempt → Option RecoveredAttempt
answer active found = if is_there active then none else recovered found

module _ (env later : Env) (run_id action : String) (outcome : WorkerOutcome) (json : Option String)
    (db : Db) where
  abbrev started : ExecutionAttempt
  started = started_attempt env run_id action (filter (is_of run_id action) db.attempts)

  abbrev with_started : Db
  with_started = record db { attempts = db.attempts ++ (started ∷ []) }

  abbrev settled : ExecutionAttempt
  settled = record started {
    status = outcome_status outcome;
    completed_at = or_kept (some later.now) started.completed_at;
    outcome = or_kept json started.outcome;
  }

  IsStarted : String → Db → Type 0
  IsStarted id mid =
      (any (attempt_clash started) db.attempts ≡ false) × (id ≡ started.id) × (mid ≡ with_started)

  start_attempt-IsStarted : Post IsStarted (start_attempt env run_id action db)
  unfolding start_attempt list_for_action ◌>>=◌ IsStarted
  start_attempt-IsStarted = Post-lift IsStarted (check_attempt started) _ db (λ new e.
      Post-add IsStarted new (λ _. pure new.id) db
        (λ free.
          subst
            (λ n.
              any (attempt_clash n) db.attempts ≡ false
              → IsStarted n.id (record db { attempts = db.attempts ++ (n ∷ []) }))
            (checked_attempt started new e) (λ f. (f, refl, refl)) free))

  IsSettled : Unit {0} → Db → Type 0
  IsSettled done next = next.attempts ≡ db.attempts ++ (settled ∷ [])

  update_attempt-IsSettled :
      any (attempt_clash started) db.attempts ≡ false
      → Post IsSettled (update_attempt settled with_started)
  unfolding IsSettled set_attempt
  update_attempt-IsSettled free =
      Post-update IsSettled settled with_started (update-last db.attempts started settled refl free)

  after_execute-IsSettled :
      any (attempt_clash started) db.attempts ≡ false
      → Post IsSettled (after_execute later started.id outcome json with_started)
  unfolding after_execute get_attempt attempt_with_status ◌>>=◌
  after_execute-IsSettled free =
      Post-lift IsSettled (or_fault (find (λ a. a.id ≟ started.id) with_started.attempts) not_found)
        _ with_started
        (λ a e.
          subst
            (λ x. Post IsSettled (
              (lift (attempt_with_status x (outcome_status outcome) (some later.now) json)
                  >>= update_attempt)
                with_started))
            (ok_injective
              (ap (λ o. or_fault o not_found) (sym (find-last db.attempts started free)) ∙ e))
            (Post-lift IsSettled (check_attempt settled) update_attempt with_started (λ s q.
              subst (λ y. Post IsSettled (update_attempt y with_started))
                (checked_attempt settled s q) (update_attempt-IsSettled free))))

  is_inactive : is_active_attempt (outcome_status outcome) ≡ false
  unfolding is_active_attempt outcome_status
  is_inactive = ground arith

  abbrev settled_rows : ExecutionAttempt → Bool
  settled_rows a = is_of run_id action a && is_settled a

  settled_row : settled_rows settled ≡ true
  unfolding is_of is_settled started_attempt
  settled_row = simp (≟_refl run_id, ≟_refl action) (statuses_settle outcome)

  -- The new attempt has the greatest number of its action.
  found_latest : latest (filter settled_rows (db.attempts ++ (settled ∷ []))) ≡ some settled
  unfolding started_attempt
  found_latest =
      ap latest (filter-append_true settled_rows db.attempts settled settled_row)
      ∙ latest-append (filter settled_rows db.attempts) settled (
          Below-filter settled_rows (is_of run_id action) db.attempts settled.attempt_no
            (and_left (is_of run_id action) is_settled)
            (max_no-Below (filter (is_of run_id action) db.attempts) settled.attempt_no
              (omega arith)))

  IsRecovered : Db → Type 0
  IsRecovered next =
      find_recoverable_settled_attempt run_id action next
      ≡ ok (
        some (record {
          attempt_id = started.id;
          compact_json = json;
          is_succeeded = outcome_status outcome ≟ ExecutionAttemptStatus.succeeded;
        }),
        next,
      )

  settled-IsRecovered :
      (next : Db)
      → current run_id action db.attempts ≡ none
      → next.attempts ≡ db.attempts ++ (settled ∷ [])
      → IsRecovered next
  unfolding IsRecovered find_recoverable_settled_attempt find_active find_latest_settled_attempt
      started_attempt ◌>>=◌
  settled-IsRecovered next idle e =
      let idle_still =
        ap (current run_id action) e
        ∙ current-append_settled run_id action db.attempts settled idle is_inactive in
      let found = ap (λ rows. latest (filter settled_rows rows)) e ∙ found_latest in
      ap (λ o. ok (answer o (latest (filter settled_rows next.attempts)), next)) idle_still
      ∙ ap (λ l. ok (answer none l, next)) found
      ∙ ap
          (λ j. ok (
            some (record {
              attempt_id = started.id;
              compact_json = j;
              is_succeeded = outcome_status outcome ≟ ExecutionAttemptStatus.succeeded;
            }),
            next,
          ))
          (or_kept-none json)

  before_execute-IsStarted :
      current run_id action db.attempts ≡ none
      → Post IsStarted (before_execute env run_id action db)
  unfolding before_execute find_active continue_or_start ◌>>=◌
  before_execute-IsStarted idle =
      subst (λ o. Post IsStarted (continue_or_start env run_id action o db)) (sym idle)
        start_attempt-IsStarted

  -- Where an action has no active attempt, and `before_execute` starts one that `after_execute` then
  -- settles, the recovery finds that attempt, of all that are settled: its identifier, the text that it
  -- was settled with and whether its outcome counts as a success. It changes nothing.
  pub recovery_finds_outcome :
      (id : String) (mid next : Db)
      → current run_id action db.attempts ≡ none
      → before_execute env run_id action db ≡ ok (id, mid)
      → after_execute later id outcome json mid ≡ ok (tt, next)
      → find_recoverable_settled_attempt run_id action next
        ≡ ok (
          some (record {
            attempt_id = id;
            compact_json = json;
            is_succeeded = outcome_status outcome ≟ ExecutionAttemptStatus.succeeded;
          }),
          next,
        )
  unfolding IsStarted IsSettled IsRecovered
  recovery_finds_outcome id mid next idle started_ok settled_ok =
      let (free, named, stored) =
        subst (Post IsStarted) started_ok (before_execute-IsStarted idle) in
      let settled_there =
        subst (λ m. after_execute later started.id outcome json m ≡ ok (tt, next)) stored
          (subst (λ i. after_execute later i outcome json mid ≡ ok (tt, next)) named settled_ok) in
      let rows = subst (Post IsSettled) settled_there (after_execute-IsSettled free) in
      subst
        (λ i.
          find_recoverable_settled_attempt run_id action next
          ≡ ok (
            some (record {
              attempt_id = i;
              compact_json = json;
              is_succeeded = outcome_status outcome ≟ ExecutionAttemptStatus.succeeded;
            }),
            next,
          ))
        (sym named) (settled-IsRecovered next idle rows)
