-- ===== src/Energy/Routing/Laws.antt =====
-- When energy/routing.py takes the local route, and which downgrade it offers.
use ant_orchestrator.Prelude.{
  ◌≡◌, refl, ◌↔◌, ◌⊎◌, inl, inr, Option-cases, true, false, none, some, List, [], ◌∷◌, arith, All,
  ◌&&◌,
}
use ant_orchestrator.Prelude.Int.{ℤ, ltb_ℤ}
use ant_orchestrator.Energy.Port.{ResourceKind, EnergyBudget, EnergyActionPlan, route_local}
use ant_orchestrator.Energy.Ledger.{amount_of}
use ant_orchestrator.Energy.Routing.{
  Snapshot, available_in, check_kinds, check_local_budget, route, model_satisfies, is_deterministic,
  is_cloud_required,
}

-- The plan's estimate of a kind fits in what the snapshot has of it.
abbrev pub FitsKind : EnergyActionPlan → Snapshot → ResourceKind → Type 0
FitsKind plan available k =
    (a : ℤ) × (available_in k available ≡ some a)
    × (ltb_ℤ a (amount_of k plan.estimated_resources) ≡ false)

fits_here :
    (plan : EnergyActionPlan) (available : Snapshot) (k : ResourceKind) (ks : List ResourceKind)
    → (check_kinds plan available (k ∷ ks)).decision ≡ route_local
    → FitsKind plan available k × ((check_kinds plan available ks).decision ≡ route_local)
unfolding check_kinds
fits_here plan available k ks h = elim (Option-cases (available_in k available)) [
  | inl e ↦ absurd (ground arith)
  | inr (a, e) ↦ ((a, e, ground arith), ground arith)
]

fits_then :
    (plan : EnergyActionPlan) (available : Snapshot) (k : ResourceKind) (ks : List ResourceKind)
    → FitsKind plan available k
    → (check_kinds plan available ks).decision ≡ route_local
    → (check_kinds plan available (k ∷ ks)).decision ≡ route_local
unfolding check_kinds
fits_then plan available k ks (a, e, q) h = rw (check_kinds, e, q) h

check_kinds_iff :
    (plan : EnergyActionPlan) (available : Snapshot) (ks : List ResourceKind)
    → ((check_kinds plan available ks).decision ≡ route_local) ↔ All (FitsKind plan available) ks
unfolding check_kinds
check_kinds_iff plan available [] = (λ h. tt, λ h. refl)
check_kinds_iff plan available (k ∷ ks) = (
  λ h.
      let (now, later) = fits_here plan available k ks h in
      (now, (check_kinds_iff plan available ks).0 later),
  λ h. fits_then plan available k ks h.0 ((check_kinds_iff plan available ks).1 h.1),
)

-- What sends a plan past every other route to the local one.
pub record WantsLocal (plan : EnergyActionPlan) : Type 0 where
  pub no_tool : (plan.deterministic_available && is_deterministic plan.required_capability) ≡ false
  pub no_cache : plan.cache_valid ≡ false
  pub model : model_satisfies plan.required_capability ≡ true
  pub quality : is_cloud_required plan.quality_requirement ≡ false
  pub here : plan.local_available ≡ true

-- A plan is routed locally exactly when no tool and no valid cache serves it, a model can, cloud
-- quality is not required, the local model is there, and each required resource is governed with
-- an estimate that fits.
pub route_local_iff :
    (plan : EnergyActionPlan) (b : EnergyBudget) (available : Snapshot)
    → ((route plan b available).decision ≡ route_local)
      ↔ (WantsLocal plan × All (FitsKind plan available) plan.required_resources)
unfolding route check_local_budget
route_local_iff plan b available =
    let (down, up) = check_kinds_iff plan available plan.required_resources in
    (
      λ h. (
        record {
          no_tool = ground arith;
          no_cache = ground arith;
          model = ground arith;
          quality = ground arith;
          here = ground arith;
        },
        down (ground arith),
      ),
      λ (w, fits). ground (arith, up fits),
    )

check_kinds_downgrade :
    (plan : EnergyActionPlan) (available : Snapshot) (ks : List ResourceKind)
    → ((check_kinds plan available ks).downgrade_resources ≡ none)
      ⊎ ((check_kinds plan available ks).downgrade_resources ≡ plan.downgrade_resources)
unfolding check_kinds
check_kinds_downgrade plan available [] = inl refl
check_kinds_downgrade plan available (k ∷ ks) =
    ground (arith, check_kinds_downgrade plan available ks)

-- A route offers no downgrade but the plan's own.
pub route_downgrade :
    (plan : EnergyActionPlan) (b : EnergyBudget) (available : Snapshot)
    → ((route plan b available).downgrade_resources ≡ none)
      ⊎ ((route plan b available).downgrade_resources ≡ plan.downgrade_resources)
unfolding route check_local_budget
route_downgrade plan b available =
    ground (arith, check_kinds_downgrade plan available plan.required_resources)
