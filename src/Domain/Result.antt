-- ===== src/Domain/Result.antt =====
-- core/domain/errors.py and application/errors.py: an exception as a value.
use ant_orchestrator.Prelude.{◌≡◌, refl, ap, Bool, true, false, Option, none, some}

pub data Fault : Type 0 where
  invariant_violation approval_already_resolved not_found integrity_error : Fault
  approval_rule_violation approval_state_conflict workflow_state_error : Fault
  invalid_status_value key_error : Fault
  unknown_command_key test_command_policy_denied test_target_rejected : Fault
  checkpoint_recovery_error workflow_definition_mismatch unsupported_graph_state_schema : Fault

pub data Result {ℓ} (A : Type ℓ) : Type ℓ where
  ok : A → Result A
  err : Fault → Result A

infixl 5 ◌>>=◌
abbrev pub ◌>>=◌ {κ μ} : {T : Type κ} {U : Type μ} → Result T → (T → Result U) → Result U
err fault >>= next = err fault
ok t >>= next = next t

-- `if b: raise e`, and else `a`.
abbrev pub raise_if {ℓ} : {A : Type ℓ} → Bool → Fault → A → Result A
raise_if true e a = err e
raise_if false e a = ok a

abbrev pub or_fault {ℓ} : {A : Type ℓ} → Option A → Fault → Result A
or_fault none e = err e
or_fault (some a) e = ok a

pub ok_injective {ℓ} : {A : Type ℓ} {a b : A} → ok a ≡ ok b → a ≡ b
ok_injective h = cc

-- A block that returns has passed each of its steps.
pub bind-ok {κ μ} :
    {T : Type κ} {U : Type μ} (first : Result T) (next : T → Result U) {answer : U}
    → (first >>= next) ≡ ok answer
    → (t : T) × (first ≡ ok t) × (next t ≡ ok answer)
bind-ok (err fault) next h = cc
bind-ok (ok t) next h = (t, refl, h)

pub or_fault-ok {ℓ} :
    {A : Type ℓ} (o : Option A) (e : Fault) {a : A} → or_fault o e ≡ ok a → o ≡ some a
or_fault-ok none e h = cc
or_fault-ok (some b) e h = ap some (ok_injective h)
