-- ===== src/Prelude/Text.antt =====
-- Python's strings: truth, `+`, `or`, and the decimal digits of a number.
use Prim.Native.Nat.{ℕ, zero, suc, ◌/◌, ◌%◌}
use Prim.Native.String.{String, ◌++◌ as append}
use mathlib.Core.Bool.{Bool}
use mathlib.Core.List.{List, [], ◌∷◌}
use ant_orchestrator.Prelude.Tests.{ltb, if◌then◌else◌}
use ant_orchestrator.Prelude.Equality.{string_eq, ◌≟◌}

-- `a + b`
infixr 66 ◌⊕◌
abbrev pub ◌⊕◌ : String → String → String
◌⊕◌ = append

-- `not s`
abbrev pub is_blank : String → Bool
is_blank s = s ≟ ""

-- `s or d`
abbrev pub or_else : String → String → String
or_else s d = if is_blank s then d else s

nth : ℕ → List String → String
nth n [] = ""
nth zero (s ∷ rest) = s
nth (suc n) (s ∷ rest) = nth n rest

digit : ℕ → String
digit n = nth n ("0" ∷ "1" ∷ "2" ∷ "3" ∷ "4" ∷ "5" ∷ "6" ∷ "7" ∷ "8" ∷ "9" ∷ [])

digits : ℕ → ℕ → String
digits zero n = ""
digits (suc fuel) n =
    let front = digits fuel (n / 10) in if ltb n 10 then digit n else front ⊕ digit (n % 10)

-- `str(n)`: a number has at most as many digits as it counts, and one more.
pub str : ℕ → String
str n = digits (suc n) n
