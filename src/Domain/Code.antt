-- ===== src/Domain/Code.antt =====
-- core/domain/enums.py, _StrEnum: `parse` looks a text up among the values of the members, and a
-- member is equal to another when their values are.
use mathlib.Core.Option.{some-injective}
use ant_orchestrator.Prelude.{
  ◌≡◌, sym, ap, ◌∙◌, ◌↔◌, true, false, Option, none, some, List, [], ◌∷◌, String, refl,
  if◌then◌else◌,
}
use ant_orchestrator.Prelude.Equality.{string_eq, ◌≟◌, ≟_refl}

module _ {A : Type 0} (value : A → String) where
  -- `cls(raw)`; `none` where it raises.
  unfoldable pub parse : List A → String → Option A
  parse [] raw = none
  parse (m ∷ ms) raw = if raw ≟ value m then some m else parse ms raw

  pub parse_sound : (ms : List A) (raw : String) (s : A) → parse ms raw ≡ some s → raw ≡ value s
  unfolding parse
  parse_sound [] raw s h = cc
  parse_sound (m ∷ ms) raw s h =
      elim (raw ≟ value m)
          as (λ b.
            ((raw ≟ value m) ≡ b) → (if b then some m else parse ms raw) ≡ some s → raw ≡ value s) [
              | true ↦
                  λ e q. (string_eq.beq_iff raw (value m)).0 e ∙ ap value (some-injective m s q)
              | false ↦ λ e q. parse_sound ms raw s q
            ]
        refl h

  pub eq_of_code :
      (ms : List A)
      → ((s : A) → parse ms (value s) ≡ some s)
      → (a b : A) → ((value a ≟ value b) ≡ true) ↔ (a ≡ b)
  eq_of_code ms round a b = (forward, backward)
    where
      forward : (value a ≟ value b) ≡ true → a ≡ b
      forward e =
          some-injective a b
            (sym (round a) ∙ ap (parse ms) ((string_eq.beq_iff (value a) (value b)).0 e) ∙ round b)

      backward : a ≡ b → (value a ≟ value b) ≡ true
      backward e = rw e (≟_refl (value b))
