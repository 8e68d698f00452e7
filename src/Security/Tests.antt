-- ===== src/Security/Tests.antt =====
-- A command that the production registry resolves.
use ant_orchestrator.Prelude.{◌≡◌, refl, true, none, some, List, [], ◌∷◌, String}
use ant_orchestrator.Prelude.Dict.{Dict, get}
use ant_orchestrator.Prelude.Equality.{string_eq}
use ant_orchestrator.Prelude.Text.{is_blank}
use ant_orchestrator.Domain.Result.{ok}
use ant_orchestrator.Security.Paths.{
  Casing, normalize_separators, is_lexically_unsafe, any_component, split,
}
use ant_orchestrator.Security.Commands.{
  CommandRule, check, any_has_control_char, any_has_metachar, check_found, check_rule_args,
  any_forbidden, args_match_prefixes,
}
use ant_orchestrator.Security.Allowed.{IsAllowed, check_lem}
use ant_orchestrator.Security.Profiles.{
  TestCommandProfile, acceptance_profile, resolve, resolve_profile, validate_targets,
  validate_target,
}
use ant_orchestrator.Security.Resolved.{IsAppended, resolve_lem}

-- The case mapping of texts that have one case.
abbrev one_case : Casing
one_case = record { lower = λ s. s; upper = λ s. s }

abbrev registry : Dict String TestCommandProfile
registry = ("pytest.acceptance", acceptance_profile) ∷ []

abbrev rules : Dict String CommandRule
rules =
    (
      "python",
      record {
        executable = "python";
        allowed_arg_prefixes = ("-m" ∷ "pytest" ∷ []) ∷ [];
        allow_trailing_args = true;
        forbidden_args = [];
      },
    )
    ∷ []

abbrev command : List String
command = "python" ∷ "-m" ∷ "pytest" ∷ "tests/unit" ∷ []

resolves :
    resolve one_case is_blank registry rules "pytest.acceptance" ("tests\\unit" ∷ []) ≡ ok command
unfolding resolve get resolve_profile validate_targets validate_target normalize_separators
    is_lexically_unsafe any_component split check any_has_control_char any_has_metachar check_found
    check_rule_args any_forbidden args_match_prefixes
resolves = refl

resolve_lem_example :
    (profile : TestCommandProfile) × (get "pytest.acceptance" registry ≡ some profile)
    × IsAppended one_case profile.base_argv ("tests\\unit" ∷ []) command
    × (check one_case is_blank rules command ≡ none)
resolve_lem_example =
    resolve_lem one_case is_blank registry rules "pytest.acceptance" ("tests\\unit" ∷ []) command
      resolves

is_allowed : check one_case is_blank rules command ≡ none
unfolding check get any_has_control_char any_has_metachar any_component check_found check_rule_args
    any_forbidden args_match_prefixes
is_allowed = refl

check_lem_example : IsAllowed one_case rules "python" ("-m" ∷ "pytest" ∷ "tests/unit" ∷ [])
check_lem_example =
    check_lem one_case is_blank rules "python" ("-m" ∷ "pytest" ∷ "tests/unit" ∷ []) is_allowed
