-- ===== src/Energy/Enforcement/Laws.antt =====
-- The budget coverage of energy/enforcement.py.
use ant_orchestrator.Prelude.{◌≡◌, ◌≢◌, false, none, List, [], ◌∷◌, arith, All}
use ant_orchestrator.Energy.Port.{ResourceKind, EnergyBudget, limit_for, EnergyActionPlan, allow}
use ant_orchestrator.Energy.Enforcement.{uncovered, check_budget_coverage}

covered-All :
    (ks : List ResourceKind) (b : EnergyBudget)
    → uncovered ks b ≡ false
    → All (λ k. limit_for b k ≢ none) ks
unfolding uncovered
covered-All [] b h = tt
covered-All (k ∷ ks) b h = (ground arith, covered-All ks b (ground arith))

-- A plan whose budget coverage is allowed names only governed resources.
pub coverage_governs :
    (plan : EnergyActionPlan) (b : EnergyBudget)
    → (check_budget_coverage plan b).decision ≡ allow
    → All (λ k. limit_for b k ≢ none) plan.required_resources
unfolding check_budget_coverage
coverage_governs plan b h = covered-All plan.required_resources b (ground arith)
