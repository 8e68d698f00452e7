-- ===== src/Context/Selection.antt =====
-- context/selection.py: which candidates go into a context. `none` stands for an exception.
pub mod Limits
pub mod Paths
pub mod Whole
use ant_orchestrator.Prelude.{
  ℕ, ◌+◌, Bool, true, false, not, ◌&&◌, ◌||◌, Option, none, some, List, [], ◌∷◌, ◌++◌, String, map,
  ltb, ◌==◌, leb, if◌then◌else◌,
}
use ant_orchestrator.Prelude.Equality.{string_eq, contains}
use ant_orchestrator.Prelude.Dict.{Dict, get, put}
use ant_orchestrator.Context.Budget.{
  ArtifactRequirement, required, optional, ArtifactRequest, ContextBudget, BudgetUsage,
  BudgetTracker, new_tracker, usage, can_fit, consume, remaining,
}

pub data SelectionReason : Type 0 where
  requested_required requested_optional : SelectionReason

pub data RejectionReason : Type 0 where
  outside_scope excluded binary oversized secret_file budget_exceeded invalid_request :
      RejectionReason

pub record ArtifactCandidate : Type 0 where
  pub request : ArtifactRequest
  pub estimated_tokens : ℕ
  pub eligible : Bool
  pub rejection_reason : Option RejectionReason
  pub original_order : ℕ

abbrev has_reason : Option RejectionReason → Bool
has_reason none = false
has_reason (some _) = true

-- `ArtifactCandidate.__post_init__`
unfoldable pub check_candidate : ArtifactCandidate → Option ArtifactCandidate
check_candidate c =
    if c.eligible && has_reason c.rejection_reason
    then none
    else if not c.eligible && not (has_reason c.rejection_reason)
    then none
    else some c

pub record SelectedArtifact : Type 0 where
  pub path : String
  pub estimated_tokens : ℕ
  pub reason : SelectionReason

pub record RejectedArtifact : Type 0 where
  pub path : String
  pub reason : RejectionReason

pub record ContextSelectionResult : Type 0 where
  pub selected : List SelectedArtifact
  pub rejected : List RejectedArtifact
  pub budget_initial : ContextBudget
  pub budget_used : BudgetUsage
  pub budget_remaining : BudgetUsage
  pub required_failure : Bool

abbrev pub is_required : ArtifactCandidate → Bool
is_required c = elim c.request.requirement [ required ↦ true | optional ↦ false ]

-- A REQUIRED request for a path that was OPTIONAL, which keeps its place in the order.
abbrev merged : ArtifactCandidate → ArtifactCandidate → ArtifactCandidate
merged c existing = record c {
  request = record { path = c.request.path; requirement = required };
  original_order = existing.original_order;
}

-- The body of the loop of `_deduplicate`.
unfoldable pub merge :
    ArtifactCandidate → Dict String ArtifactCandidate → Dict String ArtifactCandidate
merge c seen = elim (get c.request.path seen) [
  | none ↦ put c.request.path c seen
  | some existing ↦
      if is_required c && not (is_required existing)
      then put c.request.path (merged c existing) seen
      else seen
]

unfoldable pub merge_all :
    List ArtifactCandidate → Dict String ArtifactCandidate → Dict String ArtifactCandidate
merge_all [] seen = seen
merge_all (c ∷ cs) seen = merge_all cs (merge c seen)

-- `_deduplicate`
unfoldable pub deduplicate : List ArtifactCandidate → List ArtifactCandidate
deduplicate cs = map (λ e. e.1) (merge_all cs [])

-- The order of the keys of `sorted`: required first, then by the original order.
unfoldable pub key_leb : ArtifactCandidate → ArtifactCandidate → Bool
key_leb a b =
    if is_required a
    then (if is_required b then leb a.original_order b.original_order else true)
    else if is_required b
    then false
    else leb a.original_order b.original_order

-- `sorted` is stable: of two equal keys the earlier stays first.
unfoldable pub insert : ArtifactCandidate → List ArtifactCandidate → List ArtifactCandidate
insert c [] = c ∷ []
insert c (d ∷ ds) = if key_leb c d then c ∷ d ∷ ds else d ∷ insert c ds

unfoldable pub sorted : List ArtifactCandidate → List ArtifactCandidate
sorted [] = []
sorted (c ∷ cs) = insert c (sorted cs)

-- The variables of the loop of `select`.
pub record Selecting : Type 0 where
  pub tracker : BudgetTracker
  pub selected : List SelectedArtifact
  pub rejected : List RejectedArtifact
  pub required_failure : Bool

abbrev pub reject : ArtifactCandidate → RejectionReason → Selecting → Selecting
reject c reason s = record s {
  rejected = s.rejected ++ record { path = c.request.path; reason = reason } ∷ [];
  required_failure = is_required c || s.required_failure;
}

abbrev pub accept : ArtifactCandidate → BudgetTracker → Selecting → Selecting
accept c tracker s = record s {
  tracker = tracker;
  selected =
      s.selected
      ++ record {
        path = c.request.path;
        estimated_tokens = c.estimated_tokens;
        reason = if is_required c then requested_required else requested_optional;
      }
        ∷ [];
}

-- The body of the loop of `select`.
unfoldable pub select_one : List String → ArtifactCandidate → Selecting → Option Selecting
select_one excluded_paths c s =
    if contains c.request.path excluded_paths
    then some (reject c excluded s)
    else if not c.eligible
    then elim c.rejection_reason [ none ↦ none | some reason ↦ some (reject c reason s) ]
    else if not (can_fit c.estimated_tokens s.tracker)
    then some (reject c budget_exceeded s)
    else elim (consume c.estimated_tokens s.tracker) [ none ↦ none | some t ↦ some (accept c t s) ]

unfoldable pub select_all : List String → List ArtifactCandidate → Selecting → Option Selecting
select_all excluded_paths [] s = some s
select_all excluded_paths (c ∷ cs) s = elim (select_one excluded_paths c s) [
  | none ↦ none
  | some t ↦ select_all excluded_paths cs t
]

-- What `select` makes of the variables of its loop.
abbrev pub result_of : ContextBudget → Selecting → ContextSelectionResult
result_of budget s = record {
  selected = s.selected;
  rejected = s.rejected;
  budget_initial = budget;
  budget_used = usage s.tracker;
  budget_remaining = remaining s.tracker;
  required_failure = s.required_failure;
}

abbrev pub begin : ContextBudget → Selecting
begin budget = record {
  tracker = new_tracker budget;
  selected = [];
  rejected = [];
  required_failure = false;
}

unfoldable pub select :
    List ArtifactCandidate → List String → ContextBudget → Option ContextSelectionResult
select cs excluded_paths budget =
    elim (select_all excluded_paths (sorted (deduplicate cs)) (begin budget)) [
      | none ↦ none
      | some s ↦ some (result_of budget s)
    ]
