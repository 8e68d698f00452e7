-- ===== src/Prelude/Dict.antt =====
-- Python's dict as an association list in insertion order. Proofs elsewhere go by the laws.
use mathlib.Core.Path.{◌≡◌, refl, subst, ◌∙◌}
use mathlib.Core.Bool.{Bool, true, false}
use mathlib.Core.Option.{Option, none, some, some-injective}
use mathlib.Core.List.{List, [], ◌∷◌}
use native.Mathlib.Omega.{arith}
use ant_orchestrator.Prelude.Tests.{if◌then◌else◌}
use ant_orchestrator.Prelude.Lists.{All}
use ant_orchestrator.Prelude.Equality.{Eq, ◌≟◌, ≟_refl}

abbrev pub Dict : Type 0 → Type 0 → Type 0
Dict K V = List (K × V)

abbrev pub is_there {ℓ} : {A : Type ℓ} → Option A → Bool
is_there none = false
is_there (some _) = true

module _ {K V : Type 0} ⦃e : Eq K⦄ where
  -- `d.get(k)`
  unfoldable pub get : K → Dict K V → Option V
  get k [] = none
  get k ((j, v) ∷ d) = if k ≟ j then some v else get k d

  -- `k in d`
  unfoldable pub has : K → Dict K V → Bool
  unfolding get
  has k d = is_there (get k d)

  -- `d[k] = v`: the entry keeps its place, a new key goes last.
  unfoldable pub put : K → V → Dict K V → Dict K V
  put k v [] = (k, v) ∷ []
  put k v ((j, w) ∷ d) = if k ≟ j then (j, v) ∷ d else (j, w) ∷ put k v d

  -- What every dict satisfies: no key stands twice.
  abbrev pub NodupKeys : Dict K V → Type 0
  NodupKeys [] = Unit
  NodupKeys ((k, _) ∷ d) = (get k d ≡ none) × NodupKeys d

  pub get-put :
      (k j : K) (v : V) (d : Dict K V) → get j (put k v d) ≡ (if j ≟ k then some v else get j d)
  unfolding get put
  get-put k j v [] = refl
  get-put k j v ((i, w) ∷ d) =
      ground (arith, get-put k j v d, e.beq_iff k i, e.beq_iff j i, e.beq_iff j k)

  pub get-put_self : (k : K) (v : V) (d : Dict K V) → get k (put k v d) ≡ some v
  get-put_self k v d = get-put k k v d ∙ (rw (≟_refl k) refl)

  pub put-NodupKeys : (k : K) (v : V) (d : Dict K V) → NodupKeys d → NodupKeys (put k v d)
  unfolding get put
  put-NodupKeys k v [] h = (refl, tt)
  put-NodupKeys k v ((i, w) ∷ d) h =
      ground (arith, put-NodupKeys k v d h.1, get-put k i v d, e.beq_iff k i, e.beq_iff i k)

  -- A predicate on the values.
  pub All-put :
      (P : V → Type 0) (k : K) (v : V) (d : Dict K V)
      → P v
      → All (λ x. P x.1) d
      → All (λ x. P x.1) (put k v d)
  unfolding put
  All-put P k v [] hv h = (hv, tt)
  All-put P k v ((i, w) ∷ d) hv h =
      elim (k ≟ i) as (λ b. All (λ x. P x.1) (if b then (i, v) ∷ d else (i, w) ∷ put k v d)) [
        | true ↦ (hv, h.1)
        | false ↦ (h.0, All-put P k v d hv h.1)
      ]

  pub All-get :
      (P : V → Type 0) (k : K) (d : Dict K V) (v : V) → get k d ≡ some v → All (λ x. P x.1) d → P v
  unfolding get
  All-get P k [] v g h = cc
  All-get P k ((i, w) ∷ d) v g h =
      elim (k ≟ i) as (λ b. (if b then some w else get k d) ≡ some v → P v) [
        | true ↦ λ q. subst P (some-injective w v q) h.0
        | false ↦ λ q. All-get P k d v q h.1
      ]
        g
