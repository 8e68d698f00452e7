-- ===== src/Context/Selection/Whole.antt =====
-- The whole of `ContextSelector.select` (context/selection.py).
use ant_orchestrator.Prelude.{
  ◌+◌, ◌≤◌, ◌≡◌, refl, sym, ap, ◌∙◌, none, some, List, [], String, inl, inr, arith, if◌then◌else◌,
  Option-cases, length, All,
}
use ant_orchestrator.Prelude.Equality.{string_eq, contains}
use ant_orchestrator.Context.Budget.{ContextBudget, new_tracker}
use ant_orchestrator.Context.Selection.{
  ArtifactCandidate, ContextSelectionResult, merge_all, deduplicate, sorted, Selecting, select_all,
  select, begin, result_of,
}
use ant_orchestrator.Context.Selection.Limits.{
  IsCandidate, Fits, times, tokens_of, selected_paths, rejected_paths, candidate_paths, After,
  select_all-After,
}
use ant_orchestrator.Context.Selection.Paths.{
  IsSeen, merge_all-IsSeen, values-All, sorted-All, ordered-times, zero_add,
}

-- What a selection promises: it keeps to the budget, and answers each requested path once.
pub record IsSelection (cs : List ArtifactCandidate) (b : ContextBudget)
    (r : ContextSelectionResult) : Type 0 where
  pub tokens_fit : tokens_of r.selected ≤ b.max_input_tokens
  pub files_fit : length r.selected ≤ b.max_files
  pub each_fits : All (λ a. a.estimated_tokens ≤ b.max_file_tokens) r.selected
  pub usage_exact :
      (r.budget_used.tokens ≡ tokens_of r.selected) × (r.budget_used.files ≡ length r.selected)
  pub answered_once :
      (p : String)
      → times p (selected_paths r.selected) + times p (rejected_paths r.rejected)
        ≡ (if contains p (candidate_paths cs) then 1 else 0)

begins : (b : ContextBudget) → Fits b (begin b)
unfolding new_tracker
begins b = record {
  same = refl;
  tokens = refl;
  files = refl;
  tokens_fit = omega arith;
  files_fit = omega arith;
  each_fits = tt;
}

select_of :
    (cs : List ArtifactCandidate) (ex : List String) (b : ContextBudget) (s : Selecting)
    → select_all ex (sorted (deduplicate cs)) (begin b) ≡ some s
    → select cs ex b ≡ some (result_of b s)
unfolding select
select_of cs ex b s e = ap (λ o. elim o [ none ↦ none | some x ↦ some (result_of b x) ]) e

-- On candidates that their constructor accepts, `select` raises nothing. What it selects keeps to the
-- budget's tokens, files and tokens of one file, the usage that it reports is what is selected, and
-- each path of the candidates is answered exactly once, selected or rejected, and no other path is.
pub select_lem :
    (cs : List ArtifactCandidate) (ex : List String) (b : ContextBudget)
    → All IsCandidate cs
    → (r : ContextSelectionResult) × (select cs ex b ≡ some r) × IsSelection cs b r
unfolding deduplicate
select_lem cs ex b ok =
    let seen : IsSeen (merge_all cs []) =
      merge_all-IsSeen cs [] ok (record { nodup = tt; keyed = tt; valid = tt }) in
    let ordered : List ArtifactCandidate = sorted (deduplicate cs) in
    let start : Selecting = begin b in
    let after : After b start (candidate_paths ordered) (select_all ex ordered start) =
      select_all-After b ex ordered start
        (sorted-All (deduplicate cs) (values-All (merge_all cs []) seen.valid)) (begins b) in
    elim (Option-cases (select_all ex ordered start)) [
      | inl e ↦ absurd (rw e at after)
      | inr (s, e) ↦
          let end : After b start (candidate_paths ordered) (some s) = rw e at after in
          (
            result_of b s,
            select_of cs ex b s e,
            record {
              tokens_fit = omega (arith, end.0.tokens, end.0.tokens_fit);
              files_fit = omega (arith, end.0.files, end.0.files_fit);
              each_fits = end.0.each_fits;
              usage_exact = (sym end.0.tokens, sym end.0.files);
              answered_once = λ p. end.1 p ∙ zero_add _ ∙ ordered-times p cs ok;
            },
          )
    ]
