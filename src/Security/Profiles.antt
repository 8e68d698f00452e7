-- ===== src/Security/Profiles.antt =====
-- security/test_command_profile.py: from a trusted key to the command that a test run executes.
use Prim.Native.Char.{code}
use ant_orchestrator.Prelude.{
  ℕ, Bool, true, false, not, ◌&&◌, ◌||◌, none, some, List, [], ◌∷◌, ◌++◌, String, leb, ltb, ◌==◌,
  if◌then◌else◌,
}
use ant_orchestrator.Prelude.Dict.{Dict, get, has, put}
use ant_orchestrator.Prelude.Equality.{string_eq, contains}
use ant_orchestrator.Prelude.Text.{is_blank}
use ant_orchestrator.Domain.Result.{
  Result, ok, err, ◌>>=◌, invariant_violation, unknown_command_key, test_command_policy_denied,
  test_target_rejected, raise_if, or_fault,
}
use ant_orchestrator.Security.Paths.{
  Casing, begins, normalize_separators, split, is_lexically_unsafe, first_of,
}
use ant_orchestrator.Security.Commands.{CommandRule, CommandDecision, check}

pub data TestCommandKind : Type 0 where
  acceptance diagnostic : TestCommandKind

-- `_validate_target`
unfoldable pub validate_target : Casing → String → Result String
validate_target casing target =
    let normalized = normalize_separators target in
    if is_blank target
    then err test_target_rejected
    else if begins 45 target
    then err test_target_rejected
    else if begins 47 normalized
    then err test_target_rejected
    else if is_lexically_unsafe casing normalized
    then err test_target_rejected
    else if contains ".." (split 47 normalized)
    then err test_target_rejected
    else ok normalized

pub record TestCommandProfile : Type 0 where
  pub command_key : String
  pub kind : TestCommandKind
  pub base_argv : List String
  pub version : ℕ
  pub allows_targets : Bool

-- The characters of `_COMMAND_KEY_RE`: those that may stand first, and those that may follow.
unfoldable pub is_key_start : ℕ → Bool
is_key_start c = (leb b'a' c && leb c b'z') || (leb b'0' c && leb c b'9')

unfoldable pub is_key_rest : String → Bool
unfolding is_key_start
is_key_rest String.[] = true
is_key_rest (String.◌∷◌ c s) =
    (is_key_start (code c) || (code c == b'.') || (code c == b'_') || (code c == b'-'))
    && is_key_rest s

unfoldable pub is_command_key : String → Bool
unfolding is_key_start is_key_rest
is_command_key String.[] = false
is_command_key (String.◌∷◌ c s) = is_key_start (code c) && is_key_rest s

-- `__post_init__`
unfoldable pub check_profile : (String → Bool) → TestCommandProfile → Result TestCommandProfile
check_profile is_space profile =
    raise_if
      (not (is_command_key profile.command_key)
        || is_space (first_of profile.base_argv)
        || ltb profile.version 1)
      invariant_violation profile

unfoldable pub validate_targets : Casing → List String → Result (List String)
validate_targets casing [] = ok []
validate_targets casing (t ∷ ts) = do
  target ← validate_target casing t
  targets ← validate_targets casing ts
  ok (target ∷ targets)

abbrev pub is_some : List String → Bool
is_some [] = false
is_some (t ∷ ts) = true

-- `TestCommandProfile.resolve`
unfoldable pub resolve_profile : Casing → TestCommandProfile → List String → Result (List String)
resolve_profile casing profile targets =
    if is_some targets && not profile.allows_targets
    then err test_target_rejected
    else (do validated ← validate_targets casing targets; ok (profile.base_argv ++ validated))

-- `TestCommandRegistry.__init__`
unfoldable pub registry_of :
    List TestCommandProfile
    → Dict String TestCommandProfile
    → Result (Dict String TestCommandProfile)
registry_of [] by_key = ok by_key
registry_of (profile ∷ rest) by_key =
    let next = registry_of rest (put profile.command_key profile by_key) in
    if has profile.command_key by_key then err invariant_violation else next

unfoldable pub approved : List String → CommandDecision → Result (List String)
approved argv none = ok argv
approved argv (some reason) = err test_command_policy_denied

-- `TestCommandResolver.resolve`
unfoldable pub resolve :
    Casing
    → (String → Bool)
    → Dict String TestCommandProfile
    → Dict String CommandRule
    → String
    → List String
    → Result (List String)
unfolding approved
resolve casing is_space registry rules key targets = do
  profile ← or_fault (get key registry) unknown_command_key
  argv ← resolve_profile casing profile targets
  approved argv (check casing is_space rules argv)

-- `default_test_command_registry`
abbrev pub acceptance_profile : TestCommandProfile
acceptance_profile = record {
  command_key = "pytest.acceptance";
  kind = acceptance;
  base_argv = "python" ∷ "-m" ∷ "pytest" ∷ [];
  version = 1;
  allows_targets = true;
}
