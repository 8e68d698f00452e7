-- ===== src/Context/Budget.antt =====
-- context/budget.py, with the budget and the requests of application/ports/context_builder.py. Token
-- counts are natural numbers, as TokenCount of core/domain/value_objects.py checks.
use ant_orchestrator.Prelude.{
  ℕ, ◌+◌, ◌-◌, Bool, true, false, Option, none, some, String, ltb, leb, if◌then◌else◌,
}
use ant_orchestrator.Prelude.Text.{is_blank}

pub data ArtifactRequirement : Type 0 where
  required optional : ArtifactRequirement

pub record ArtifactRequest : Type 0 where
  pub path : String
  pub requirement : ArtifactRequirement

-- `ArtifactRequest.__post_init__`: `none` where it raises.
unfoldable pub new_artifact_request : String → ArtifactRequirement → Option ArtifactRequest
new_artifact_request path requirement =
    if is_blank path then none else some (record { path = path; requirement = requirement })

pub record ContextBudget : Type 0 where
  pub max_input_tokens : ℕ
  pub max_files : ℕ
  pub max_file_tokens : ℕ
  pub allow_full_file : Bool

-- `ContextBudget.__post_init__`: `none` where it raises.
unfoldable pub check_context_budget : ContextBudget → Option ContextBudget
check_context_budget budget =
    if leb budget.max_input_tokens 0
    then none
    else if leb budget.max_files 0
    then none
    else if leb budget.max_file_tokens 0
    then none
    else if ltb budget.max_input_tokens budget.max_file_tokens
    then none
    else some budget

pub record BudgetUsage : Type 0 where
  pub tokens : ℕ
  pub files : ℕ

pub record BudgetTracker : Type 0 where
  pub budget : ContextBudget
  pub tokens_used : ℕ
  pub files_used : ℕ

unfoldable pub new_tracker : ContextBudget → BudgetTracker
new_tracker budget = record { budget = budget; tokens_used = 0; files_used = 0 }

abbrev pub usage : BudgetTracker → BudgetUsage
usage t = record { tokens = t.tokens_used; files = t.files_used }

unfoldable pub can_fit : ℕ → BudgetTracker → Bool
can_fit tokens t =
    if ltb t.budget.max_file_tokens tokens
    then false
    else if leb t.budget.max_files t.files_used
    then false
    else if ltb t.budget.max_input_tokens (t.tokens_used + tokens)
    then false
    else true

-- `consume`: the tracker after it, `none` where it raises.
unfoldable pub consume : ℕ → BudgetTracker → Option BudgetTracker
consume tokens t =
    if can_fit tokens t
    then some (record t { tokens_used = t.tokens_used + tokens; files_used = t.files_used + 1 })
    else none

-- `max(0, a - b)` is the subtraction of natural numbers.
unfoldable pub remaining : BudgetTracker → BudgetUsage
remaining t = record {
  tokens = t.budget.max_input_tokens - t.tokens_used;
  files = t.budget.max_files - t.files_used;
}
