-- ===== src/Context/Selection/Paths.antt =====
-- The deduplication and the order of `ContextSelector.select` (context/selection.py), path by path.
use ant_orchestrator.Prelude.{
  ℕ, ◌+◌, ◌≡◌, refl, ap, ◌∙◌, Bool, true, false, not, ◌||◌, ◌&&◌, Option, none, some, List, [], ◌∷◌,
  String, map, inl, inr, arith, if◌then◌else◌, Bool-cases, All,
}
use ant_orchestrator.Prelude.Equality.{string_eq, contains, ◌≟◌}
use ant_orchestrator.Prelude.Dict.{
  Dict, get, put, has, is_there, NodupKeys, All-put, get-put, put-NodupKeys,
}
use ant_orchestrator.Context.Selection.{
  ArtifactCandidate, check_candidate, merge, merged, merge_all, deduplicate, key_leb, insert,
  sorted, is_required,
}
use ant_orchestrator.Context.Selection.Limits.{IsCandidate, times, candidate_paths}

insert-times :
    (p : String) (c : ArtifactCandidate) (cs : List ArtifactCandidate)
    → times p (candidate_paths (insert c cs)) ≡ times p (candidate_paths (c ∷ cs))
unfolding insert
insert-times p c [] = refl
insert-times p c (d ∷ ds) = elim (Bool-cases (key_leb c d)) [
  | inl e ↦ rw (insert, e) refl
  | inr e ↦ rw (insert, e) (omega (arith, insert-times p c ds))
]

sorted-times :
    (p : String) (cs : List ArtifactCandidate)
    → times p (candidate_paths (sorted cs)) ≡ times p (candidate_paths cs)
unfolding sorted
sorted-times p [] = refl
sorted-times p (c ∷ cs) = omega (arith, insert-times p c (sorted cs), sorted-times p cs)

insert-All :
    (c : ArtifactCandidate) (cs : List ArtifactCandidate)
    → IsCandidate c
    → All IsCandidate cs
    → All IsCandidate (insert c cs)
unfolding insert
insert-All c [] h hs = (h, tt)
insert-All c (d ∷ ds) h hs = elim (Bool-cases (key_leb c d)) [
  | inl e ↦ rw (insert, e) (h, hs)
  | inr e ↦ rw (insert, e) (hs.0, insert-All c ds h hs.1)
]

pub sorted-All : (cs : List ArtifactCandidate) → All IsCandidate cs → All IsCandidate (sorted cs)
unfolding sorted
sorted-All [] h = tt
sorted-All (c ∷ cs) h = insert-All c (sorted cs) h.0 (sorted-All cs h.1)

-- Every candidate stands under its own path.
abbrev pub IsKeyed : Dict String ArtifactCandidate → Type 0
IsKeyed [] = Unit
IsKeyed ((k, c) ∷ d) = (c.request.path ≡ k) × IsKeyed d

put-IsKeyed :
    (k : String) (c : ArtifactCandidate) (d : Dict String ArtifactCandidate)
    → c.request.path ≡ k
    → IsKeyed d
    → IsKeyed (put k c d)
unfolding put
put-IsKeyed k c [] h hs = (h, tt)
put-IsKeyed k c ((j, x) ∷ d) h hs = elim (Bool-cases (k ≟ j)) [
  | inl e ↦ rw (put, e) (h ∙ (string_eq.beq_iff k j).0 e, hs.1)
  | inr e ↦ rw (put, e) (hs.0, put-IsKeyed k c d h hs.1)
]

pub zero_add : (n : ℕ) → 0 + n ≡ n
zero_add n = omega arith

-- In a dict of candidates by path, a path stands once if it is a key, else never.
keyed-times :
    (p : String) (d : Dict String ArtifactCandidate)
    → NodupKeys d
    → IsKeyed d
    → times p (candidate_paths (map (λ e. e.1) d)) ≡ (if has p d then 1 else 0)
unfolding has get
keyed-times p [] u h = refl
keyed-times p ((k, c) ∷ d) u h = elim (Bool-cases (p ≟ k)) [
  | inl e ↦
      let same : p ≡ k = (string_eq.beq_iff p k).0 e in
      let absent : get p d ≡ none = rw same u.0 in
      let rest : times p (candidate_paths (map (λ x. x.1) d)) ≡ 0 =
        rw (has, absent) at (keyed-times p d u.1 h.1) in
      simp (h.0, e, rest) refl
  | inr e ↦ simp (h.0, e) (zero_add _ ∙ keyed-times p d u.1 h.1)
]

-- The dict of the loop of `_deduplicate`.
pub record IsSeen (d : Dict String ArtifactCandidate) : Type 0 where
  pub nodup : NodupKeys d
  pub keyed : IsKeyed d
  pub valid : All (λ e. IsCandidate e.1) d

put-IsSeen :
    (c : ArtifactCandidate) (d : Dict String ArtifactCandidate)
    → IsCandidate c
    → IsSeen d
    → IsSeen (put c.request.path c d)
put-IsSeen c d h s = record {
  nodup = put-NodupKeys c.request.path c d s.nodup;
  keyed = put-IsKeyed c.request.path c d refl s.keyed;
  valid = All-put IsCandidate c.request.path c d h s.valid;
}

merged-IsCandidate : (c x : ArtifactCandidate) → IsCandidate c → IsCandidate (merged c x)
unfolding check_candidate
merged-IsCandidate c x h = ground arith

-- What `merge` makes of the dict: a new entry, a merged one, or no change.
merge_rule :
    (P : Dict String ArtifactCandidate → Type 0) (c : ArtifactCandidate)
    (d : Dict String ArtifactCandidate)
    → P (put c.request.path c d)
    → ((x : ArtifactCandidate) → P (put c.request.path (merged c x) d))
    → ((x : ArtifactCandidate) → get c.request.path d ≡ some x → P d)
    → P (merge c d)
unfolding merge
merge_rule P c d new replaced kept =
    elim (get c.request.path d)
        as (λ o.
          (get c.request.path d ≡ o)
          → P (elim o [
            | none ↦ put c.request.path c d
            | some x ↦
                if is_required c && not (is_required x)
                then put c.request.path (merged c x) d
                else d
          ])) [
            | none ↦ λ e. new
            | some x ↦ λ e.
                elim (is_required c && not (is_required x))
                  as (λ b. P (if b then put c.request.path (merged c x) d else d)) [
                    | true ↦ replaced x
                    | false ↦ kept x e
                  ]
          ]
      refl

merge-IsSeen :
    (c : ArtifactCandidate) (d : Dict String ArtifactCandidate)
    → IsCandidate c
    → IsSeen d
    → IsSeen (merge c d)
merge-IsSeen c d h s =
    merge_rule IsSeen c d (put-IsSeen c d h s)
      (λ x. put-IsSeen (merged c x) d (merged-IsCandidate c x h) s) (λ x e. s)

there_if :
    (b : Bool) (c : ArtifactCandidate) (o : Option ArtifactCandidate)
    → is_there (if b then some c else o) ≡ (b || is_there o)
there_if true c o = refl
there_if false c o = refl

put-has :
    (p k : String) (c : ArtifactCandidate) (d : Dict String ArtifactCandidate)
    → has p (put k c d) ≡ ((p ≟ k) || has p d)
unfolding has
put-has p k c d = ap is_there (get-put k p c d) ∙ there_if (p ≟ k) c (get p d)

here-has :
    (p k : String) (x : ArtifactCandidate) (d : Dict String ArtifactCandidate)
    → get k d ≡ some x
    → has p d ≡ ((p ≟ k) || has p d)
unfolding has
here-has p k x d e = elim (Bool-cases (p ≟ k)) [
  | inl q ↦
      let found : get p d ≡ some x = rw ((string_eq.beq_iff p k).0 q) e in rw (q, has, found) refl
  | inr q ↦ rw q refl
]

merge-has :
    (p : String) (c : ArtifactCandidate) (d : Dict String ArtifactCandidate)
    → has p (merge c d) ≡ ((p ≟ c.request.path) || has p d)
merge-has p c d =
    merge_rule (λ m. has p m ≡ ((p ≟ c.request.path) || has p d)) c d (put-has p c.request.path c d)
      (λ x. put-has p c.request.path (merged c x) d) (λ x e. here-has p c.request.path x d e)

pub merge_all-IsSeen :
    (cs : List ArtifactCandidate) (d : Dict String ArtifactCandidate)
    → All IsCandidate cs
    → IsSeen d
    → IsSeen (merge_all cs d)
unfolding merge_all
merge_all-IsSeen [] d h s = s
merge_all-IsSeen (c ∷ cs) d h s = merge_all-IsSeen cs (merge c d) h.1 (merge-IsSeen c d h.0 s)

merge_all-has :
    (p : String) (cs : List ArtifactCandidate) (d : Dict String ArtifactCandidate)
    → has p (merge_all cs d) ≡ (contains p (candidate_paths cs) || has p d)
unfolding merge_all
merge_all-has p [] d = refl
merge_all-has p (c ∷ cs) d = merge_all-has p cs (merge c d) ∙ (rw (merge-has p c d) (ground arith))

pub values-All :
    (d : Dict String ArtifactCandidate)
    → All (λ e. IsCandidate e.1) d
    → All IsCandidate (map (λ e. e.1) d)
values-All [] h = tt
values-All ((k, c) ∷ d) h = (h.0, values-All d h.1)

abbrev no_entries : Dict String ArtifactCandidate
no_entries = []

or_no : (x : Bool) (p : String) → (x || has p no_entries) ≡ x
unfolding has get
or_no true p = refl
or_no false p = refl

-- Deduplication and order keep each path of the candidates once.
pub ordered-times :
    (p : String) (cs : List ArtifactCandidate)
    → All IsCandidate cs
    → times p (candidate_paths (sorted (deduplicate cs)))
      ≡ (if contains p (candidate_paths cs) then 1 else 0)
unfolding deduplicate
ordered-times p cs ok =
    let seen : IsSeen (merge_all cs []) =
      merge_all-IsSeen cs [] ok (record { nodup = tt; keyed = tt; valid = tt }) in
    sorted-times p (deduplicate cs)
    ∙ keyed-times p (merge_all cs []) seen.nodup seen.keyed
    ∙ ap (λ x. if x then 1 else 0)
        (merge_all-has p cs [] ∙ or_no (contains p (candidate_paths cs)) p)
