-- ===== src/Security/Resolved.antt =====
-- security/test_command_profile.py: what the resolver appends to the command of a profile.
use Prim.Native.Char.{code}
use mathlib.Core.Path.{subst}
use ant_orchestrator.Prelude.{
  suc, ◌≡◌, refl, sym, ap, Bool, true, false, not, ◌&&◌, none, some, List, [], ◌∷◌, ◌++◌, String,
  arith, if◌then◌else◌, ◌==◌, All, length,
}
use ant_orchestrator.Prelude.Dict.{Dict, get}
use ant_orchestrator.Prelude.Equality.{string_eq, contains}
use ant_orchestrator.Domain.Result.{
  ok, err, ◌>>=◌, or_fault, bind-ok, or_fault-ok, ok_injective, unknown_command_key,
  test_target_rejected,
}
use ant_orchestrator.Security.Paths.{
  Casing, begins, normalize_separators, split, is_lexically_unsafe,
}
use ant_orchestrator.Security.Commands.{CommandRule, CommandDecision, check}
use ant_orchestrator.Security.Profiles.{
  TestCommandProfile, validate_target, validate_targets, resolve_profile, approved, resolve,
  is_some,
}

-- A relative path that is no option and leads nowhere up.
abbrev pub IsTarget : Casing → String → Type 0
IsTarget casing t =
    (begins b'-' t ≡ false)
    × (begins b'/' t ≡ false)
    × (is_lexically_unsafe casing t ≡ false)
    × (contains ".." (split b'/' t) ≡ false)

normalize_no_option :
    (t : String) → begins b'-' t ≡ false → begins b'-' (normalize_separators t) ≡ false
unfolding normalize_separators
normalize_no_option String.[] h = refl
normalize_no_option (String.◌∷◌ c s) h =
    elim (code c == 92)
      as (λ b.
        begins b'-' (
          if b
          then String.◌∷◌ "/" (normalize_separators s)
          else String.◌∷◌ c (normalize_separators s))
        ≡ false) [ true ↦ refl | false ↦ h ]

validate_target_lem :
    (casing : Casing) (target t : String) → validate_target casing target ≡ ok t → IsTarget casing t
unfolding validate_target
validate_target_lem casing target t h = ground (arith, normalize_no_option target)

validate_targets_lem :
    (casing : Casing) (targets ts : List String)
    → validate_targets casing targets ≡ ok ts
    → All (IsTarget casing) ts × (length ts ≡ length targets)
unfolding validate_targets
validate_targets_lem casing [] ts h =
    subst (λ r. All (IsTarget casing) r × (length r ≡ 0)) (ok_injective h) (tt, refl)
validate_targets_lem casing (target ∷ targets) ts h =
    let (t, valid, more) = bind-ok (validate_target casing target) _ h in
    let (rest, others, done) = bind-ok (validate_targets casing targets) _ more in
    let (all, size) = validate_targets_lem casing targets rest others in
    subst (λ r. All (IsTarget casing) r × (length r ≡ suc (length targets))) (ok_injective done)
      ((validate_target_lem casing target t valid, all), ap suc size)

-- The validated targets of a resolved command.
abbrev pub IsAppended : Casing → List String → List String → List String → Type 0
IsAppended casing base targets argv =
    (ts : List String) × (argv ≡ base ++ ts)
    × All (IsTarget casing) ts
    × (length ts ≡ length targets)

resolve_profile_lem :
    (casing : Casing) (profile : TestCommandProfile) (targets argv : List String)
    → resolve_profile casing profile targets ≡ ok argv
    → IsAppended casing profile.base_argv targets argv
unfolding resolve_profile
resolve_profile_lem casing profile targets argv h =
    let rest = (validate_targets casing targets >>= λ ts. ok (profile.base_argv ++ ts)) in
    elim (is_some targets && not profile.allows_targets)
        as (λ b.
          (if b then err test_target_rejected else rest) ≡ ok argv
          → IsAppended casing profile.base_argv targets argv) [
            | true ↦ λ q. cc
            | false ↦ λ q.
                let (ts, valid, done) = bind-ok (validate_targets casing targets) _ q in
                let (all, size) = validate_targets_lem casing targets ts valid in
                (ts, sym (ok_injective done), all, size)
          ]
      h

approved_lem :
    (argv result : List String) (decision : CommandDecision)
    → approved argv decision ≡ ok result
    → (argv ≡ result) × (decision ≡ none)
unfolding approved
approved_lem argv result decision h = ground arith

-- Where a key and targets resolve to a command, the key is of a profile of the registry, the command
-- is the profile's own words with as many targets appended as were given, none of which is an option,
-- an absolute path, a lexically unsafe path or a path with a part "..", and the policy allows it.
pub resolve_lem :
    (casing : Casing) (is_space : String → Bool) (registry : Dict String TestCommandProfile)
    (rules : Dict String CommandRule) (key : String) (targets argv : List String)
    → resolve casing is_space registry rules key targets ≡ ok argv
    → (profile : TestCommandProfile) × (get key registry ≡ some profile)
      × IsAppended casing profile.base_argv targets argv
      × (check casing is_space rules argv ≡ none)
unfolding resolve
resolve_lem casing is_space registry rules key targets argv h =
    let (profile, found, more) = bind-ok (or_fault (get key registry) unknown_command_key) _ h in
    let (given, resolved, last) = bind-ok (resolve_profile casing profile targets) _ more in
    let (same, allowed) = approved_lem given argv (check casing is_space rules given) last in
    (
      profile,
      or_fault-ok (get key registry) unknown_command_key found,
      subst (IsAppended casing profile.base_argv targets) same
          (resolve_profile_lem casing profile targets given resolved),
      subst (λ a. check casing is_space rules a ≡ none) same allowed,
    )
