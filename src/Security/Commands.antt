-- ===== src/Security/Commands.antt =====
-- security/command_policy.py: the allowlist of commands.
use ant_orchestrator.Prelude.{
  Bool, true, false, ◌&&◌, ◌||◌, Option, none, some, List, [], ◌∷◌, String, if◌then◌else◌,
}
use ant_orchestrator.Prelude.Dict.{Dict, get, put}
use ant_orchestrator.Prelude.Equality.{string_eq, ◌≟◌, contains}
use ant_orchestrator.Prelude.Text.{is_blank}
use ant_orchestrator.Domain.Result.{Result, invariant_violation, raise_if}
use ant_orchestrator.Security.Paths.{Casing, has_part, any_component}

pub data CommandDenyReason : Type 0 where
  empty_argv empty_executable executable_not_allowed : CommandDenyReason
  executable_path_not_allowed shell_wrapper_not_allowed : CommandDenyReason
  shell_metacharacter argument_policy_violation control_character : CommandDenyReason

-- `_SHELL_WRAPPER_NAMES`
abbrev pub shell_wrapper_names : List String
shell_wrapper_names =
    "sh" ∷ "bash" ∷ "zsh" ∷ "dash" ∷ "cmd" ∷ "cmd.exe" ∷ "powershell" ∷ "powershell.exe" ∷ "pwsh"
    ∷ "pwsh.exe" ∷ []

-- `_SHELL_METACHAR_TOKENS`
abbrev shell_metachar_tokens : List String
shell_metachar_tokens = "&&" ∷ "||" ∷ "|" ∷ ";" ∷ ">" ∷ "<" ∷ "$(" ∷ "`" ∷ []

-- `_CONTROL_CHARS`
abbrev control_chars : List String
control_chars = "\0" ∷ "\n" ∷ "\r" ∷ []

pub record CommandRule : Type 0 where
  pub executable : String
  pub allowed_arg_prefixes : List (List String)
  pub allow_trailing_args : Bool
  pub forbidden_args : List String

unfoldable pub check_rule : CommandRule → Result CommandRule
check_rule rule = raise_if (is_blank rule.executable) invariant_violation rule

-- A decision with no reason is ALLOW, and one with a reason DENY: the constructor asks for it.
abbrev pub CommandDecision : Type 0
CommandDecision = Option CommandDenyReason

abbrev pub allow : CommandDecision
allow = none

abbrev pub deny : CommandDenyReason → CommandDecision
deny reason = some reason

-- `CommandPolicy.__init__`: the last rule of an executable holds.
unfoldable pub rules_of : List CommandRule → Dict String CommandRule → Dict String CommandRule
rules_of [] rules = rules
rules_of (r ∷ rest) rules = rules_of rest (put r.executable r rules)

unfoldable pub has_any : List String → String → Bool
has_any [] element = false
has_any (token ∷ tokens) element = has_part element token || has_any tokens element

unfoldable pub any_has_control_char : List String → Bool
unfolding has_any
any_has_control_char argv = any_component (has_any control_chars) argv

unfoldable pub any_has_metachar : List String → Bool
unfolding has_any
any_has_metachar argv = any_component (has_any shell_metachar_tokens) argv

unfoldable pub has_path_separator : String → Bool
has_path_separator s = has_part s "/" || has_part s "\\"

-- `args[:n] == prefix`, and whether nothing follows where nothing may.
unfoldable pub matches_prefix : List String → List String → Bool → Bool
matches_prefix [] [] trailing = true
matches_prefix (arg ∷ args) [] trailing = trailing
matches_prefix [] (p ∷ prefix) trailing = false
matches_prefix (arg ∷ args) (p ∷ prefix) trailing = (arg ≟ p) && matches_prefix args prefix trailing

unfoldable pub args_match_prefixes : List String → List (List String) → Bool → Bool
unfolding matches_prefix
args_match_prefixes args [] trailing = false
args_match_prefixes args (prefix ∷ prefixes) trailing =
    matches_prefix args prefix trailing || args_match_prefixes args prefixes trailing

unfoldable pub any_forbidden : List String → List String → Bool
any_forbidden forbidden args = any_component (λ a. contains a forbidden) args

unfoldable pub check_rule_args : CommandRule → List String → CommandDecision
check_rule_args rule args =
    if any_forbidden rule.forbidden_args args
    then deny argument_policy_violation
    else if args_match_prefixes args rule.allowed_arg_prefixes rule.allow_trailing_args
    then allow
    else deny argument_policy_violation

unfoldable pub check_found : String → List String → Option CommandRule → CommandDecision
check_found executable args none =
    if has_path_separator executable
    then deny executable_path_not_allowed
    else deny executable_not_allowed
check_found executable args (some rule) = check_rule_args rule args

-- `check`; `is_space` is `not s.strip()`.
unfoldable pub check :
    Casing → (String → Bool) → Dict String CommandRule → List String → CommandDecision
check casing is_space rules [] = deny empty_argv
check casing is_space rules (executable ∷ args) =
    if is_space executable
    then deny empty_executable
    else if any_has_control_char (executable ∷ args)
    then deny control_character
    else if any_has_metachar (executable ∷ args)
    then deny shell_metacharacter
    else if contains (casing.lower executable) shell_wrapper_names
    then deny shell_wrapper_not_allowed
    else check_found executable args (get executable rules)
