-- ===== src/Security/Allowed.antt =====
-- security/command_policy.py: what an allowed command is.
use ant_orchestrator.Prelude.{
  ◌≡◌, refl, ◌⊎◌, inl, inr, Bool, true, false, ◌&&◌, ◌||◌, Option, none, some, List, [], ◌∷◌, ◌++◌,
  String, arith,
}
use ant_orchestrator.Prelude.Dict.{Dict, get}
use ant_orchestrator.Prelude.Equality.{string_eq, ◌≟◌, contains}
use ant_orchestrator.Security.Paths.{Casing}
use ant_orchestrator.Security.Commands.{
  CommandRule, check, check_found, check_rule_args, any_has_control_char, any_has_metachar,
  shell_wrapper_names, any_forbidden, args_match_prefixes, matches_prefix,
}

-- One of the prefixes begins the arguments; where no more may follow, it is the arguments.
abbrev pub Begins : List String → List (List String) → Bool → Type 0
Begins args [] trailing = ⊥
Begins args (prefix ∷ prefixes) trailing =
    ((rest : List String) × (args ≡ prefix ++ rest) × ((trailing ≡ true) ⊎ (rest ≡ [])))
    ⊎ Begins args prefixes trailing

-- No shell and no shell syntax, and arguments that the executable's rule names.
abbrev pub IsAllowed : Casing → Dict String CommandRule → String → List String → Type 0
IsAllowed casing rules executable args =
    (any_has_control_char (executable ∷ args) ≡ false)
    × (any_has_metachar (executable ∷ args) ≡ false)
    × (contains (casing.lower executable) shell_wrapper_names ≡ false)
    × (rule : CommandRule) × (get executable rules ≡ some rule)
    × (any_forbidden rule.forbidden_args args ≡ false)
    × Begins args rule.allowed_arg_prefixes rule.allow_trailing_args

matches_prefix_lem :
    (args prefix : List String) (trailing : Bool)
    → matches_prefix args prefix trailing ≡ true
    → (rest : List String) × (args ≡ prefix ++ rest) × ((trailing ≡ true) ⊎ (rest ≡ []))
unfolding matches_prefix
matches_prefix_lem [] [] trailing h = ([], refl, inr refl)
matches_prefix_lem (arg ∷ args) [] trailing h = (arg ∷ args, refl, inl h)
matches_prefix_lem [] (p ∷ prefix) trailing h = cc
matches_prefix_lem (arg ∷ args) (p ∷ prefix) trailing h =
    let (first, others) = and_both (arg ≟ p) (matches_prefix args prefix trailing) h in
    let (rest, same, ends) = matches_prefix_lem args prefix trailing others in
    (rest, cc ((string_eq.beq_iff arg p).0 first, same), ends)
  where
    and_both : (a b : Bool) → (a && b) ≡ true → (a ≡ true) × (b ≡ true)
    and_both a b q = ground arith

args_match_lem :
    (args : List String) (prefixes : List (List String)) (trailing : Bool)
    → args_match_prefixes args prefixes trailing ≡ true
    → Begins args prefixes trailing
unfolding args_match_prefixes
args_match_lem args [] trailing h = cc
args_match_lem args (prefix ∷ prefixes) trailing h =
    elim (matches_prefix args prefix trailing)
        as (λ b.
          (matches_prefix args prefix trailing ≡ b)
          → (b || args_match_prefixes args prefixes trailing) ≡ true
          → Begins args (prefix ∷ prefixes) trailing) [
            | true ↦ λ e q. inl (matches_prefix_lem args prefix trailing e)
            | false ↦ λ e q. inr (args_match_lem args prefixes trailing q)
          ]
      refl h

rule_args_lem :
    (rule : CommandRule) (args : List String)
    → check_rule_args rule args ≡ none
    → (any_forbidden rule.forbidden_args args ≡ false)
      × (args_match_prefixes args rule.allowed_arg_prefixes rule.allow_trailing_args ≡ true)
unfolding check_rule_args
rule_args_lem rule args h = ground arith

found_lem :
    (executable : String) (args : List String) (found : Option CommandRule)
    → check_found executable args found ≡ none
    → (rule : CommandRule) × (found ≡ some rule) × (check_rule_args rule args ≡ none)
unfolding check_found
found_lem executable args none h = ground arith
found_lem executable args (some rule) h = (rule, refl, h)

guards_lem :
    (casing : Casing) (is_space : String → Bool) (rules : Dict String CommandRule)
    (executable : String) (args : List String)
    → check casing is_space rules (executable ∷ args) ≡ none
    → (any_has_control_char (executable ∷ args) ≡ false)
      × (any_has_metachar (executable ∷ args) ≡ false)
      × (contains (casing.lower executable) shell_wrapper_names ≡ false)
      × (check_found executable args (get executable rules) ≡ none)
unfolding check
guards_lem casing is_space rules executable args h = ground arith

-- A command that the policy allows has no control character and no shell metacharacter in any of its
-- words, its executable is no shell in any case of its letters, and there is a rule for that
-- executable: none of the arguments is forbidden by it, and one of its prefixes begins the arguments,
-- or is all of them where nothing may follow.
pub check_lem :
    (casing : Casing) (is_space : String → Bool) (rules : Dict String CommandRule)
    (executable : String) (args : List String)
    → check casing is_space rules (executable ∷ args) ≡ none
    → IsAllowed casing rules executable args
check_lem casing is_space rules executable args h =
    let (control, meta, wrapper, found) = guards_lem casing is_space rules executable args h in
    let (rule, stored, checked) = found_lem executable args (get executable rules) found in
    let (free, matched) = rule_args_lem rule args checked in
    (
      control,
      meta,
      wrapper,
      rule,
      stored,
      free,
      args_match_lem args rule.allowed_arg_prefixes rule.allow_trailing_args matched,
    )
