-- ===== src/Attempts/Starting.antt =====
-- workflows/attempt_orchestrator.py, before_execute: which attempt is active after it.
use ant_orchestrator.Prelude.{
  ◌≡◌, refl, sym, ap, ◌∙◌, Bool, true, false, ◌&&◌, ◌||◌, Option, none, some, List, [], ◌∷◌, ◌++◌,
  String, arith, if◌then◌else◌,
}
use mathlib.Core.Path.{subst}
use mathlib.Core.Option.{some-injective}
use ant_orchestrator.Prelude.Equality.{string_eq, ◌≟◌, ≟_refl}
use ant_orchestrator.Domain.Result.{ok, err, integrity_error}
use ant_orchestrator.Domain.Execution.{is_active_attempt}
use ant_orchestrator.Domain.Entities.{ExecutionAttempt, check_attempt}
use ant_orchestrator.Store.Rows.{find, any, insert}
use ant_orchestrator.Store.Tx.{Db, Tx, continue, pure, ◌>>=◌}
use ant_orchestrator.Store.Attempts.{
  is_of, attempt_clash, add_attempt, with_attempts, find_active, list_for_action,
}
use ant_orchestrator.Services.Support.{Env}
use ant_orchestrator.Services.Effect.{Post, Post-bind, Post-lift}
use ant_orchestrator.Attempts.{
  before_execute, continue_or_start, start_attempt, started_attempt, give_up, is_stale,
}

-- The active attempt of an action.
abbrev pub is_current : String → String → ExecutionAttempt → Bool
is_current run_id action a = is_of run_id action a && is_active_attempt a.status

abbrev pub current : String → String → List ExecutionAttempt → Option ExecutionAttempt
current run_id action rows = find (is_current run_id action) rows

-- The answer names the attempt that is active.
pub IsCurrent : String → String → String → Db → Type 0
IsCurrent run_id action id db =
    (a : ExecutionAttempt) × (current run_id action db.attempts ≡ some a) × (a.id ≡ id)

or_false : (a b : Bool) → (a || b) ≡ false → (a ≡ false) × (b ≡ false)
or_false a b h = ground arith

-- A new active attempt that no row clashes with.
pub clash_active :
    (new old : ExecutionAttempt)
    → is_active_attempt new.status ≡ true
    → attempt_clash new old ≡ false
    → is_current new.workflow_run_id new.logical_action_id old ≡ false
unfolding attempt_clash
clash_active new old active h =
    let later = (or_false (new.id ≟ old.id) _ h).1 in ground (arith, later)

pub clash_id :
    (new old : ExecutionAttempt) → attempt_clash new old ≡ false → (new.id ≟ old.id) ≡ false
unfolding attempt_clash
clash_id new old h = (or_false (new.id ≟ old.id) _ h).0

pub own_action : (a : ExecutionAttempt) → is_of a.workflow_run_id a.logical_action_id a ≡ true
unfolding is_of
own_action a = simp ≟_refl

current-append :
    (new : ExecutionAttempt) (rows : List ExecutionAttempt)
    → is_active_attempt new.status ≡ true
    → any (attempt_clash new) rows ≡ false
    → current new.workflow_run_id new.logical_action_id (rows ++ (new ∷ [])) ≡ some new
unfolding find any
current-append new [] active h = ground (arith, own_action new)
current-append new (a ∷ rows) active h =
    ground (arith, clash_active new a active, current-append new rows active)

pub Post-add :
    {B : Type 0} (R : B → Db → Type 0) (new : ExecutionAttempt) (f : Unit {0} → Tx B) (db : Db)
    → (any (attempt_clash new) db.attempts ≡ false
        → Post R (f tt (record db { attempts = db.attempts ++ (new ∷ []) })))
    → Post R ((add_attempt new >>= f) db)
unfolding ◌>>=◌ add_attempt insert
Post-add R new f db h =
    elim (any (attempt_clash new) db.attempts)
        as (λ b.
          (any (attempt_clash new) db.attempts ≡ b)
          → Post R (
              continue
                (with_attempts db
                  (if b then err integrity_error else ok (db.attempts ++ (new ∷ []))))
                f)) [ true ↦ λ e. tt | false ↦ λ e. h e ]
      refl

pub checked_attempt : (a b : ExecutionAttempt) → check_attempt a ≡ ok b → a ≡ b
unfolding check_attempt
checked_attempt a b h = ground arith

started-IsCurrent :
    (env : Env) (run_id action : String) (db : Db) (previous : List ExecutionAttempt)
    (new : ExecutionAttempt)
    → check_attempt (started_attempt env run_id action previous) ≡ ok new
    → any (attempt_clash new) db.attempts ≡ false
    → IsCurrent run_id action new.id (record db { attempts = db.attempts ++ (new ∷ []) })
unfolding IsCurrent started_attempt is_active_attempt
started-IsCurrent env run_id action db previous new e free =
    subst
      (λ n.
        any (attempt_clash n) db.attempts ≡ false
        → IsCurrent run_id action n.id (record db { attempts = db.attempts ++ (n ∷ []) }))
      (checked_attempt started new e)
      (λ f. (started, current-append started db.attempts refl f, refl)) free
  where
    started : ExecutionAttempt
    started = started_attempt env run_id action previous

start_attempt-IsCurrent :
    (env : Env) (run_id action : String) (db : Db)
    → Post (IsCurrent run_id action) (start_attempt env run_id action db)
unfolding start_attempt list_for_action ◌>>=◌
start_attempt-IsCurrent env run_id action db =
    Post-lift (IsCurrent run_id action) (check_attempt (started_attempt env run_id action _)) _ db
      (λ new e.
        Post-add (IsCurrent run_id action) new (λ _. pure new.id) db
          (started-IsCurrent env run_id action db _ new e))

continue_or_start-IsCurrent :
    (env : Env) (run_id action : String) (active : Option ExecutionAttempt) (db : Db)
    → current run_id action db.attempts ≡ active
    → Post (IsCurrent run_id action) (continue_or_start env run_id action active db)
unfolding continue_or_start IsCurrent
continue_or_start-IsCurrent env run_id action none db h =
    start_attempt-IsCurrent env run_id action db
continue_or_start-IsCurrent env run_id action (some a) db h =
    let restart = (give_up env a >>= λ _. start_attempt env run_id action) in
    elim (is_stale a env.now)
      as (λ b. Post (IsCurrent run_id action) ((if b then restart else pure a.id) db)) [
        | true ↦
            Post-bind (IsCurrent run_id action) (give_up env a)
              (λ _. start_attempt env run_id action) db
              (λ done mid e. start_attempt-IsCurrent env run_id action mid)
        | false ↦ (a, h, refl)
      ]

-- Where `before_execute` returns, its answer names the attempt that is active.
pub before_execute-IsCurrent :
    (env : Env) (run_id action : String) (db : Db)
    → Post (IsCurrent run_id action) (before_execute env run_id action db)
unfolding before_execute find_active ◌>>=◌
before_execute-IsCurrent env run_id action db =
    continue_or_start-IsCurrent env run_id action (current run_id action db.attempts) db refl

-- After a `before_execute` that returned, a later one for the same action, as long as the attempt that
-- is active is not stale then, returns the same identifier and changes nothing.
pub before_execute_joins :
    (env later : Env) (run_id action id : String) (db next : Db) (a : ExecutionAttempt)
    → before_execute env run_id action db ≡ ok (id, next)
    → current run_id action next.attempts ≡ some a
    → is_stale a later.now ≡ false
    → before_execute later run_id action next ≡ ok (id, next)
unfolding before_execute find_active ◌>>=◌ continue_or_start IsCurrent
before_execute_joins env later run_id action id db next a h found fresh =
    let (b, stored, named) =
      subst (Post (IsCurrent run_id action)) h (before_execute-IsCurrent env run_id action db) in
    let same = some-injective b a (sym stored ∙ found) in
    simp (found, fresh, ap (λ (x : ExecutionAttempt). x.id) (sym same), named) refl
