-- ===== src/Store/Rows.antt =====
-- Rows of a table, in insertion order: `SELECT ... WHERE`, `UPDATE ... WHERE` with its row count,
-- and `INSERT` under the unique indexes of persistence/schema_workflow.py.
use ant_orchestrator.Prelude.{
  Bool, false, ◌||◌, Option, none, some, List, [], ◌∷◌, ◌++◌, String, if◌then◌else◌,
}
use ant_orchestrator.Prelude.Equality.{◌≟◌, string_eq}
use ant_orchestrator.Domain.Result.{Result, ok, err, integrity_error}

module _ {A : Type 0} where
  -- The first row that a test accepts, as `fetchone` gives it.
  unfoldable pub find : (A → Bool) → List A → Option A
  find p [] = none
  find p (x ∷ xs) = if p x then some x else find p xs

  -- Every row that a test accepts, as `fetchall` gives them.
  unfoldable pub filter : (A → Bool) → List A → List A
  filter p [] = []
  filter p (x ∷ xs) = let rest = filter p xs in if p x then x ∷ rest else rest

  -- Whether a statement touches a row: `rowcount > 0`.
  unfoldable pub any : (A → Bool) → List A → Bool
  any p [] = false
  any p (x ∷ xs) = p x || any p xs

  unfoldable pub update : (A → Bool) → (A → A) → List A → List A
  update p f [] = []
  update p f (x ∷ xs) = (if p x then f x else x) ∷ update p f xs

  -- A row that clashes with a stored one is refused.
  unfoldable pub insert : (A → A → Bool) → A → List A → Result (List A)
  unfolding any
  insert clash x xs = if any (clash x) xs then err integrity_error else ok (xs ++ (x ∷ []))

-- Two values of a column under a unique index that skips `NULL`.
abbrev pub same_value : Option String → Option String → Bool
same_value none b = false
same_value (some a) none = false
same_value (some a) (some b) = a ≟ b
