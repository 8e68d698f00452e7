-- ===== src/Context/Selection/Limits.antt =====
-- The loop of `ContextSelector.select` (context/selection.py) and the budget.
use mathlib.Core.Path.{subst}
use ant_orchestrator.Prelude.{
  ℕ, ◌+◌, ◌≤◌, ◌≡◌, true, Option, none, some, List, [], ◌∷◌, ◌++◌, String, map, inl, inr, arith,
  if◌then◌else◌, Bool-cases, Option-cases, length, length-append, All, All-append,
}
use ant_orchestrator.Prelude.Equality.{string_eq, contains, ◌≟◌}
use ant_orchestrator.Context.Budget.{ContextBudget, BudgetTracker, can_fit, consume}
use ant_orchestrator.Context.Selection.{
  ArtifactCandidate, RejectionReason, SelectedArtifact, RejectedArtifact, check_candidate,
  Selecting, reject, accept, select_one, select_all,
}

abbrev pub tokens_of : List SelectedArtifact → ℕ
tokens_of [] = 0
tokens_of (a ∷ as') = a.estimated_tokens + tokens_of as'

-- What the constructor of a candidate accepts.
abbrev pub IsCandidate : ArtifactCandidate → Type 0
IsCandidate c = check_candidate c ≡ some c

-- The tracker agrees with what is selected, which keeps to the budget.
pub record Fits (b : ContextBudget) (s : Selecting) : Type 0 where
  pub same : s.tracker.budget ≡ b
  pub tokens : tokens_of s.selected ≡ s.tracker.tokens_used
  pub files : length s.selected ≡ s.tracker.files_used
  pub tokens_fit : s.tracker.tokens_used ≤ b.max_input_tokens
  pub files_fit : s.tracker.files_used ≤ b.max_files
  pub each_fits : All (λ a. a.estimated_tokens ≤ b.max_file_tokens) s.selected

used : ArtifactCandidate → BudgetTracker → BudgetTracker
used c t = record t {
  tokens_used = t.tokens_used + c.estimated_tokens;
  files_used = t.files_used + 1;
}

-- A candidate is rejected or fits and is accepted: nothing raises.
select_one_rule :
    (P : Option Selecting → Type 0) (ex : List String) (c : ArtifactCandidate) (s : Selecting)
    → IsCandidate c
    → ((r : RejectionReason) → P (some (reject c r s)))
    → (can_fit c.estimated_tokens s.tracker ≡ true → P (some (accept c (used c s.tracker) s)))
    → P (select_one ex c s)
unfolding select_one consume check_candidate used
select_one_rule P ex c s ok refuse take = elim (Bool-cases (contains c.request.path ex)) [
  | inl e ↦ rw (select_one, e) (refuse _)
  | inr e ↦ elim (Bool-cases c.eligible) [
    | inr n ↦ elim (Option-cases c.rejection_reason) [
      | inl q ↦ absurd (ground arith)
      | inr (r, q) ↦ simp (e, n, q) (refuse r)
    ]
    | inl y ↦ elim (Bool-cases (can_fit c.estimated_tokens s.tracker)) [
      | inl f ↦ simp (e, y, f) (take f)
      | inr f ↦ simp (e, y, f) (refuse _)
    ]
  ]
]

-- How often a path stands in a list of paths.
abbrev pub times : String → List String → ℕ
times p [] = 0
times p (q ∷ qs) = (if p ≟ q then 1 else 0) + times p qs

times-map_last :
    {A : Type 0} (p : String) (f : A → String) (xs : List A) (x : A)
    → times p (map f (xs ++ x ∷ [])) ≡ times p (map f xs) + times p (f x ∷ [])
times-map_last p f [] x = omega arith
times-map_last p f (y ∷ ys) x = omega (arith, times-map_last p f ys x)

abbrev pub selected_paths : List SelectedArtifact → List String
selected_paths = map (λ a. a.path)

abbrev pub rejected_paths : List RejectedArtifact → List String
rejected_paths = map (λ a. a.path)

abbrev pub candidate_paths : List ArtifactCandidate → List String
candidate_paths = map (λ c. c.request.path)

-- How often a path is answered.
abbrev pub answered : String → Selecting → ℕ
answered p s = times p (selected_paths s.selected) + times p (rejected_paths s.rejected)

-- The loop has not raised, keeps to the budget, and has answered these paths besides.
abbrev pub After : ContextBudget → Selecting → List String → Option Selecting → Type 0
After b s paths none = ⊥
After b s paths (some t) = Fits b t × ((p : String) → answered p t ≡ answered p s + times p paths)

tokens-append : (xs ys : List SelectedArtifact) → tokens_of (xs ++ ys) ≡ tokens_of xs + tokens_of ys
tokens-append [] ys = omega arith
tokens-append (x ∷ xs) ys = omega (arith, tokens-append xs ys)

fits_of :
    (n : ℕ) (t : BudgetTracker)
    → can_fit n t ≡ true
    → (n ≤ t.budget.max_file_tokens)
      × (t.files_used + 1 ≤ t.budget.max_files)
      × (t.tokens_used + n ≤ t.budget.max_input_tokens)
unfolding can_fit
fits_of n t h = ground arith

accept-Fits :
    (b : ContextBudget) (c : ArtifactCandidate) (s : Selecting)
    → Fits b s
    → can_fit c.estimated_tokens s.tracker ≡ true
    → Fits b (accept c (used c s.tracker) s)
unfolding used
accept-Fits b c s f h =
    let (file, files, input) =
      subst
        (λ x.
          (c.estimated_tokens ≤ x.max_file_tokens)
          × (s.tracker.files_used + 1 ≤ x.max_files)
          × (s.tracker.tokens_used + c.estimated_tokens ≤ x.max_input_tokens))
        f.same (fits_of c.estimated_tokens s.tracker h) in
    record {
      same = f.same;
      tokens = omega (arith, tokens-append s.selected _, f.tokens);
      files = omega (arith, length-append s.selected _, f.files);
      tokens_fit = input;
      files_fit = files;
      each_fits = All-append _ s.selected _ f.each_fits (file, tt);
    }

reject-Fits :
    (b : ContextBudget) (c : ArtifactCandidate) (r : RejectionReason) (s : Selecting)
    → Fits b s
    → Fits b (reject c r s)
reject-Fits b c r s f = record {
  same = f.same;
  tokens = f.tokens;
  files = f.files;
  tokens_fit = f.tokens_fit;
  files_fit = f.files_fit;
  each_fits = f.each_fits;
}

select_one-After :
    (b : ContextBudget) (ex : List String) (c : ArtifactCandidate) (s : Selecting)
    → IsCandidate c
    → Fits b s
    → After b s (c.request.path ∷ []) (select_one ex c s)
select_one-After b ex c s ok f =
    select_one_rule (After b s (c.request.path ∷ [])) ex c s ok
      (λ r.
        (reject-Fits b c r s f, λ p. omega (arith, times-map_last p (λ a. a.path) s.rejected _)))
      (λ h.
        (accept-Fits b c s f h, λ p. omega (arith, times-map_last p (λ a. a.path) s.selected _)))

After-then :
    (b : ContextBudget) (s t : Selecting) (q : String) (qs : List String) (o : Option Selecting)
    → ((p : String) → answered p t ≡ answered p s + times p (q ∷ []))
    → After b t qs o
    → After b s (q ∷ qs) o
After-then b s t q qs none one rest = rest
After-then b s t q qs (some u) one rest = (rest.0, λ p. omega (arith, one p, rest.1 p))

pub select_all-After :
    (b : ContextBudget) (ex : List String) (cs : List ArtifactCandidate) (s : Selecting)
    → All IsCandidate cs
    → Fits b s
    → After b s (candidate_paths cs) (select_all ex cs s)
unfolding select_all
select_all-After b ex [] s ok f = (f, λ p. omega arith)
select_all-After b ex (c ∷ cs) s ok f =
    let one : After b s (c.request.path ∷ []) (select_one ex c s) =
      select_one-After b ex c s ok.0 f in
    elim (Option-cases (select_one ex c s)) [
      | inl e ↦ absurd (rw e at one)
      | inr (t, e) ↦
          let first : After b s (c.request.path ∷ []) (some t) = rw e at one in
          let rest : After b t (candidate_paths cs) (select_all ex cs t) =
            select_all-After b ex cs t ok.1 first.0 in
          rw (select_all, e) (After-then b s t c.request.path (candidate_paths cs) _ first.1 rest)
    ]
