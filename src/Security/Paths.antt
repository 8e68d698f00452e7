-- ===== src/Security/Paths.antt =====
-- security/windows_path.py: the lexical guard of a path. Python's case mapping is a parameter.
use Prim.Native.Char.{Char, code}
use text.Mathlib.Text.{find?}
use ant_orchestrator.Prelude.{
  ℕ, Bool, false, ◌&&◌, ◌||◌, List, [], ◌∷◌, String, ◌==◌, if◌then◌else◌,
}
use ant_orchestrator.Prelude.Dict.{is_there}
use ant_orchestrator.Prelude.Equality.{string_eq, ◌≟◌, contains}
use ant_orchestrator.Prelude.Text.{is_blank}

-- `str.lower` and `str.upper`.
pub record Casing : Type 0 where
  pub lower : String → String
  pub upper : String → String

-- `t in s`
abbrev pub has_part : String → String → Bool
has_part s t = is_there (find? s t)

-- Whether a text starts with the character of a code.
abbrev pub begins : ℕ → String → Bool
begins k String.[] = false
begins k (String.◌∷◌ c s) = code c == k

-- `\` becomes `/`.
unfoldable pub normalize_separators : String → String
normalize_separators String.[] = String.[]
normalize_separators (String.◌∷◌ c s) =
    let rest = normalize_separators s in
    if code c == 92 then String.◌∷◌ "/" rest else String.◌∷◌ c rest

abbrev push : Char → List String → List String
push c [] = String.◌∷◌ c String.[] ∷ []
push c (w ∷ ws) = String.◌∷◌ c w ∷ ws

-- `s.split(sep)`, at the character of a code.
unfoldable pub split : ℕ → String → List String
split k String.[] = String.[] ∷ []
split k (String.◌∷◌ c s) =
    let rest = split k s in if code c == k then String.[] ∷ rest else push c rest

abbrev pub first_of : List String → String
first_of [] = ""
first_of (w ∷ ws) = w

-- `s[-1] in (".", " ")`
unfoldable pub ends_loosely : String → Bool
ends_loosely String.[] = false
ends_loosely (String.◌∷◌ c String.[]) = (code c == 46) || (code c == 32)
ends_loosely (String.◌∷◌ c (String.◌∷◌ d s)) = ends_loosely (String.◌∷◌ d s)

-- `RESERVED_DEVICE_NAMES`
abbrev pub reserved_device_names : List String
reserved_device_names =
    "CON" ∷ "PRN" ∷ "AUX" ∷ "NUL" ∷ "COM1" ∷ "COM2" ∷ "COM3" ∷ "COM4" ∷ "COM5" ∷ "COM6" ∷ "COM7"
    ∷ "COM8" ∷ "COM9" ∷ "LPT1" ∷ "LPT2" ∷ "LPT3" ∷ "LPT4" ∷ "LPT5" ∷ "LPT6" ∷ "LPT7" ∷ "LPT8"
    ∷ "LPT9" ∷ []

unfoldable pub unsafe_component : Casing → String → Bool
unfolding ends_loosely
unsafe_component casing component =
    if is_blank component || (component ≟ ".") || (component ≟ "..")
    then false
    else ends_loosely component
      || contains (casing.upper (first_of (split 46 component))) reserved_device_names

unfoldable pub any_component : (String → Bool) → List String → Bool
any_component p [] = false
any_component p (c ∷ cs) = p c || any_component p cs

-- `normalized.startswith("//")`
abbrev pub begins_twice : ℕ → String → Bool
begins_twice k String.[] = false
begins_twice k (String.◌∷◌ c s) = (code c == k) && begins k s

unfoldable pub is_lexically_unsafe : Casing → String → Bool
unfolding unsafe_component
is_lexically_unsafe casing normalized =
    has_part normalized ":"
    || begins_twice 47 normalized
    || any_component (unsafe_component casing) (split 47 normalized)
