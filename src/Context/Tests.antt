-- ===== src/Context/Tests.antt =====
-- A concrete selection, and the theorem about it.
use ant_orchestrator.Prelude.{◌≡◌, refl, true, false, none, some, List, [], ◌∷◌, All}
use ant_orchestrator.Context.Budget.{ContextBudget, required, optional}
use ant_orchestrator.Context.Selection.{
  ArtifactCandidate, oversized, ContextSelectionResult, check_candidate, select,
}
use ant_orchestrator.Context.Selection.Limits.{IsCandidate}
use ant_orchestrator.Context.Selection.Whole.{IsSelection, select_lem}

abbrev budget : ContextBudget
budget = record {
  max_input_tokens = 100;
  max_files = 2;
  max_file_tokens = 60;
  allow_full_file = false;
}

abbrev readme : ArtifactCandidate
readme = record {
  request = record { path = "README.md"; requirement = optional };
  estimated_tokens = 50;
  eligible = true;
  rejection_reason = none;
  original_order = 0;
}

abbrev readme_again : ArtifactCandidate
readme_again = record {
  request = record { path = "README.md"; requirement = required };
  estimated_tokens = 50;
  eligible = true;
  rejection_reason = none;
  original_order = 1;
}

abbrev too_large : ArtifactCandidate
too_large = record {
  request = record { path = "data.bin"; requirement = optional };
  estimated_tokens = 0;
  eligible = false;
  rejection_reason = some oversized;
  original_order = 2;
}

abbrev candidates : List ArtifactCandidate
candidates = readme ∷ readme_again ∷ too_large ∷ []

are_candidates : All IsCandidate candidates
unfolding check_candidate
are_candidates = (refl, (refl, (refl, tt)))

select_lem_example :
    (r : ContextSelectionResult) × (select candidates [] budget ≡ some r)
    × IsSelection candidates budget r
select_lem_example = select_lem candidates [] budget are_candidates
