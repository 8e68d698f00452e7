-- ===== src/Attempts/Recovery.antt =====
-- workflows/attempt_orchestrator.py: what after_execute stores, and the recovery that reads it.
use ant_orchestrator.Prelude.{
  ℕ, ◌<◌, ◌≡◌, refl, Bool, true, false, none, some, List, [], ◌∷◌, ◌++◌, String, arith,
  if◌then◌else◌, All,
}
use ant_orchestrator.Prelude.Equality.{string_eq, ◌≟◌, ≟_refl}
use ant_orchestrator.Domain.Result.{ok, err, integrity_error, not_found}
use ant_orchestrator.Domain.Execution.{is_active_attempt}
use ant_orchestrator.Domain.Entities.{ExecutionAttempt}
use ant_orchestrator.Store.Rows.{find, any, filter, update}
use ant_orchestrator.Store.Tx.{Db}
use ant_orchestrator.Store.Attempts.{attempt_clash, set_attempt, revives, latest, update_attempt}
use ant_orchestrator.Services.Effect.{Post}
use ant_orchestrator.Attempts.{max_no}
use ant_orchestrator.Attempts.Starting.{current, clash_id}

-- Every number of a list of attempts is below a bound.
abbrev pub Below : ℕ → List ExecutionAttempt → Type 0
Below n rows = All (λ a. a.attempt_no < n) rows

pub max_no-Below : (rows : List ExecutionAttempt) (n : ℕ) → max_no rows < n → Below n rows
max_no-Below [] n h = tt
max_no-Below (a ∷ rows) n h = (ground arith, max_no-Below rows n (ground arith))

-- A row with a greater number than all others is the latest.
pub latest-append :
    (rows : List ExecutionAttempt) (new : ExecutionAttempt)
    → Below new.attempt_no rows
    → latest (rows ++ (new ∷ [])) ≡ some new
unfolding latest
latest-append [] new h = refl
latest-append (a ∷ rows) new h =
    let ih = latest-append rows new h.1 in simp ih (ground (arith, h.0))

pub filter-append_true :
    (p : ExecutionAttempt → Bool) (rows : List ExecutionAttempt) (new : ExecutionAttempt)
    → p new ≡ true
    → filter p (rows ++ (new ∷ [])) ≡ filter p rows ++ (new ∷ [])
unfolding filter
filter-append_true p [] new h = rw h refl
filter-append_true p (a ∷ rows) new h = ground (arith, filter-append_true p rows new h)

-- A stronger test keeps a bound.
pub Below-filter :
    (p q : ExecutionAttempt → Bool) (rows : List ExecutionAttempt) (n : ℕ)
    → ((a : ExecutionAttempt) → p a ≡ true → q a ≡ true)
    → Below n (filter q rows)
    → Below n (filter p rows)
unfolding filter
Below-filter p q [] n imp h = tt
Below-filter p q (a ∷ rows) n imp h = ground (arith, imp a, Below-filter p q rows n imp)

pub current-append_settled :
    (run_id action : String) (rows : List ExecutionAttempt) (new : ExecutionAttempt)
    → current run_id action rows ≡ none
    → is_active_attempt new.status ≡ false
    → current run_id action (rows ++ (new ∷ [])) ≡ none
unfolding find
current-append_settled run_id action [] new h e = ground (arith)
current-append_settled run_id action (a ∷ rows) new h e =
    ground (arith, current-append_settled run_id action rows new)

-- The last row is found by its identifier, and it alone is set.
pub find-last :
    (rows : List ExecutionAttempt) (new : ExecutionAttempt)
    → any (attempt_clash new) rows ≡ false
    → find (λ a. a.id ≟ new.id) (rows ++ (new ∷ [])) ≡ some new
unfolding find any
find-last [] new h = rw (≟_refl new.id) refl
find-last (a ∷ rows) new h = ground (
  arith,
  clash_id new a,
  find-last rows new,
  string_eq.beq_iff new.id a.id,
  string_eq.beq_iff a.id new.id,
)

pub update-last :
    (rows : List ExecutionAttempt) (new settled : ExecutionAttempt)
    → settled.id ≡ new.id
    → any (attempt_clash new) rows ≡ false
    → update (λ a. a.id ≟ settled.id) (set_attempt settled) (rows ++ (new ∷ []))
      ≡ rows ++ (set_attempt settled new ∷ [])
unfolding update any
update-last [] new settled e h = simp (e, ≟_refl new.id) refl
update-last (a ∷ rows) new settled e h =
    let apart : (a.id ≟ settled.id) ≡ false =
      ground
        (arith, clash_id new a, string_eq.beq_iff new.id a.id, string_eq.beq_iff a.id settled.id) in
    simp (apart, update-last rows new settled e (ground arith)) refl

pub Post-update :
    (R : Unit {0} → Db → Type 0) (a : ExecutionAttempt) (db : Db)
    → R tt (record db { attempts = update (λ x. x.id ≟ a.id) (set_attempt a) db.attempts })
    → Post R (update_attempt a db)
unfolding update_attempt
Post-update R a db h =
    let next = record db { attempts = update (λ x. x.id ≟ a.id) (set_attempt a) db.attempts } in
    elim (any (λ x. x.id ≟ a.id) db.attempts)
      as (λ b. Post R (
        if b
        then (if any (revives a) db.attempts then err integrity_error else ok (tt, next))
        else err not_found)) [
          | true ↦
              elim (any (revives a) db.attempts)
                as (λ b. Post R (if b then err integrity_error else ok (tt, next))) [
                  | true ↦ tt
                  | false ↦ h
                ]
          | false ↦ tt
        ]
