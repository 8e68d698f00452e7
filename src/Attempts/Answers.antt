-- ===== src/Attempts/Answers.antt =====
-- workflows/attempt_orchestrator.py, before_execute: when it joins an attempt and when it starts one.
use ant_orchestrator.Prelude.{
  ℕ, ◌+◌, ◌≡◌, refl, sym, ap, ◌∙◌, true, false, Option, none, some, List, [], ◌∷◌, ◌++◌, String,
  arith, if◌then◌else◌, ◌⊎◌, inl, inr,
}
use mathlib.Core.Path.{subst}
use ant_orchestrator.Prelude.Equality.{string_eq, ◌≟◌}
use ant_orchestrator.Domain.Result.{ok}
use ant_orchestrator.Domain.Execution.{
  ExecutionAttemptStatus, is_active_attempt, execution_attempt_status_is_eq,
}
use ant_orchestrator.Domain.Entities.{ExecutionAttempt, check_attempt, attempt_with_status}
use ant_orchestrator.Store.Rows.{find, any, filter, update}
use ant_orchestrator.Store.Tx.{Db, pure, ◌>>=◌}
use ant_orchestrator.Store.Attempts.{
  is_of, attempt_clash, list_for_action, find_active, set_attempt, update_attempt, add_attempt,
}
use ant_orchestrator.Services.Support.{Env}
use ant_orchestrator.Services.Effect.{Post, Post-bind, Post-lift, Post-map}
use ant_orchestrator.Attempts.{
  before_execute, continue_or_start, start_attempt, started_attempt, give_up, is_stale, max_no,
}
use ant_orchestrator.Attempts.Starting.{
  is_current, current, clash_active, clash_id, checked_attempt, own_action, Post-add,
}
use ant_orchestrator.Attempts.Recovery.{Below, max_no-Below, Post-update}

-- An active attempt that is given up: indeterminate, and completed now.
abbrev given_up : ℕ → ExecutionAttempt → ExecutionAttempt
given_up now a = record a { status = ExecutionAttemptStatus.indeterminate; completed_at = some now }

-- The rows that a new attempt follows: no attempt was active, or a stale one, which is given up.
abbrev pub IsVacated :
    ℕ → Option ExecutionAttempt → List ExecutionAttempt → List ExecutionAttempt → Type 0
IsVacated now none before rows = rows ≡ before
IsVacated now (some a) before rows =
    (is_stale a now ≡ true)
    × (rows ≡ update (λ x. x.id ≟ a.id) (set_attempt (given_up now a)) before)

-- A new attempt after some rows: its identifier is new, its number the greatest of its action and
-- its lease not expired, and it is the only active attempt of the action.
abbrev pub IsBegun : ℕ → String → String → List ExecutionAttempt → ExecutionAttempt → Type 0
IsBegun now run_id action rows a =
    (find (λ x. x.id ≟ a.id) rows ≡ none)
    × Below a.attempt_no (filter (is_of run_id action) rows)
    × (is_stale a now ≡ false)
    × (filter (is_current run_id action) (rows ++ (a ∷ [])) ≡ a ∷ [])

-- An attempt that was active, and is joined with nothing changed.
abbrev pub IsJoined : ℕ → String → String → Db → String → Db → Type 0
IsJoined now run_id action db id next =
    (a : ExecutionAttempt) × (current run_id action db.attempts ≡ some a)
    × (is_stale a now ≡ false)
    × (a.id ≡ id)
    × (next ≡ db)

abbrev pub IsAnew : ℕ → String → String → Db → String → Db → Type 0
IsAnew now run_id action db id next =
    (rows : List ExecutionAttempt) × (a : ExecutionAttempt) × IsVacated now
      (current run_id action db.attempts) db.attempts rows
    × IsBegun now run_id action rows a
    × (a.id ≡ id)
    × (next ≡ record db { attempts = rows ++ (a ∷ []) })

abbrev StartsAt : ℕ → String → String → Db → String → Db → Type 0
StartsAt now run_id action db id next =
    (a : ExecutionAttempt) × IsBegun now run_id action db.attempts a
    × (a.id ≡ id)
    × (next ≡ record db { attempts = db.attempts ++ (a ∷ []) })

find-fresh :
    (new : ExecutionAttempt) (rows : List ExecutionAttempt)
    → any (attempt_clash new) rows ≡ false
    → find (λ x. x.id ≟ new.id) rows ≡ none
unfolding find any
find-fresh new [] h = refl
find-fresh new (a ∷ rows) h = ground (
  arith,
  clash_id new a,
  find-fresh new rows,
  string_eq.beq_iff new.id a.id,
  string_eq.beq_iff a.id new.id,
)

filter-only :
    (new : ExecutionAttempt) (rows : List ExecutionAttempt)
    → is_active_attempt new.status ≡ true
    → any (attempt_clash new) rows ≡ false
    → filter (is_current new.workflow_run_id new.logical_action_id) (rows ++ (new ∷ [])) ≡ new ∷ []
unfolding filter any
filter-only new [] active h = ground (arith, own_action new)
filter-only new (a ∷ rows) active h =
    ground (arith, clash_active new a active, filter-only new rows active)

fresh_lease :
    (env : Env) (run_id action : String) (previous : List ExecutionAttempt)
    → is_stale (started_attempt env run_id action previous) env.now ≡ false
unfolding is_stale started_attempt
fresh_lease env run_id action previous = ground arith

started-IsBegun :
    (env : Env) (run_id action : String) (rows : List ExecutionAttempt)
    → let new = started_attempt env run_id action (filter (is_of run_id action) rows) in
      any (attempt_clash new) rows ≡ false → IsBegun env.now run_id action rows new
unfolding started_attempt is_active_attempt
started-IsBegun env run_id action rows free =
    let previous = filter (is_of run_id action) rows in
    let new : ExecutionAttempt = started_attempt env run_id action previous in
    (
      find-fresh new rows free,
      max_no-Below previous (max_no previous + 1) (omega arith),
      fresh_lease env run_id action previous,
      filter-only new rows refl free,
    )

start_attempt-StartsAt :
    (env : Env) (run_id action : String) (db : Db)
    → Post (StartsAt env.now run_id action db) (start_attempt env run_id action db)
unfolding start_attempt list_for_action ◌>>=◌
start_attempt-StartsAt env run_id action db =
    let new : ExecutionAttempt =
      started_attempt env run_id action (filter (is_of run_id action) db.attempts) in
    Post-lift R (check_attempt new) _ db (λ checked e.
      subst (λ n. Post R ((add_attempt n >>= λ _. pure n.id) db)) (checked_attempt new checked e)
        (Post-add R new (λ _. pure new.id) db
          (λ free. (new, started-IsBegun env run_id action db.attempts free, refl, refl))))
  where
    R : String → Db → Type 0
    R id next = StartsAt env.now run_id action db id next

give_up-IsVacated :
    (env : Env) (a : ExecutionAttempt) (db : Db)
    → Post
        (λ _ mid. mid ≡ record db {
          attempts = update (λ x. x.id ≟ a.id) (set_attempt (given_up env.now a)) db.attempts;
        })
        (give_up env a db)
unfolding give_up attempt_with_status
give_up-IsVacated env a db =
    Post-lift R (check_attempt (given_up env.now a)) update_attempt db (λ lost e.
      subst (λ n. Post R (update_attempt n db)) (checked_attempt (given_up env.now a) lost e)
        (Post-update R (given_up env.now a) db refl))
  where
    R : Unit {0} → Db → Type 0
    R done mid = mid ≡ record db {
      attempts = update (λ x. x.id ≟ a.id) (set_attempt (given_up env.now a)) db.attempts;
    }

-- What either way of `before_execute` leads to.
abbrev pub IsAnswer : ℕ → String → String → Db → String → Db → Type 0
IsAnswer now run_id action db id next =
    IsJoined now run_id action db id next ⊎ IsAnew now run_id action db id next

continue_or_start-IsAnswer :
    (env : Env) (run_id action : String) (active : Option ExecutionAttempt) (db : Db)
    → current run_id action db.attempts ≡ active
    → Post (IsAnswer env.now run_id action db) (continue_or_start env run_id action active db)
unfolding continue_or_start
continue_or_start-IsAnswer env run_id action none db h =
    Post-map (start_attempt env run_id action db) (start_attempt-StartsAt env run_id action db)
      (λ id next (a, begun, named, left). inr (
        db.attempts,
        a,
        subst (λ o. IsVacated env.now o db.attempts db.attempts) (sym h) refl,
        begun,
        named,
        left,
      ))
continue_or_start-IsAnswer env run_id action (some s) db h =
    let restart = (give_up env s >>= λ _. start_attempt env run_id action) in
    elim (is_stale s env.now)
        as (λ b.
          (is_stale s env.now ≡ b)
          → Post (IsAnswer env.now run_id action db) ((if b then restart else pure s.id) db)) [
            | true ↦ λ stale.
                Post-bind (IsAnswer env.now run_id action db) (give_up env s)
                  (λ _. start_attempt env run_id action) db
                  (λ done mid e.
                    restarted stale mid (subst (Post (Vacates s)) e (give_up-IsVacated env s db)))
            | false ↦ λ fresh. inl (s, h, fresh, refl, refl)
          ]
      refl
  where
    Vacates : ExecutionAttempt → Unit {0} → Db → Type 0
    Vacates a done mid = mid ≡ record db {
      attempts = update (λ x. x.id ≟ a.id) (set_attempt (given_up env.now a)) db.attempts;
    }

    restarted :
        is_stale s env.now ≡ true
        → (mid : Db) → Vacates s tt mid
        → Post (IsAnswer env.now run_id action db) (start_attempt env run_id action mid)
    restarted stale mid same =
        Post-map (start_attempt env run_id action mid)
          (start_attempt-StartsAt env run_id action mid)
          (λ id next (a, begun, named, left). inr (
            mid.attempts,
            a,
            subst (λ o. IsVacated env.now o db.attempts mid.attempts) (sym h)
                (stale, ap (λ (x : Db). x.attempts) same),
            begun,
            named,
            left ∙ ap (λ (x : Db). record x { attempts = mid.attempts ++ (a ∷ []) }) same,
          ))

-- Where `before_execute` returns an identifier, on any tables, one of two things has happened. Either
-- an attempt of the action was active and not stale, the identifier is that attempt's, and nothing is
-- changed. Or none was active, or a stale one, which becomes indeterminate; then the identifier is that
-- of a new attempt behind all rows, which no row had before: its number is greater than every other of
-- the action, its lease has not expired, and it is now the only active attempt of the action.
pub before_execute_lem :
    (env : Env) (run_id action id : String) (db next : Db)
    → before_execute env run_id action db ≡ ok (id, next)
    → IsAnswer env.now run_id action db id next
unfolding before_execute find_active ◌>>=◌
before_execute_lem env run_id action id db next h =
    subst (Post (IsAnswer env.now run_id action db)) h
      (continue_or_start-IsAnswer env run_id action (current run_id action db.attempts) db refl)
