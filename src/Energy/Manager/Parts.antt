-- ===== src/Energy/Manager/Parts.antt =====
-- energy/manager.py: the results of the facade, its approvals, and its snapshot of the ledger.
use ant_orchestrator.Prelude.{Bool, false, Option, none, some, List, [], ◌∷◌, String, if◌then◌else◌}
use ant_orchestrator.Prelude.Int.{ltb_ℤ, ◌-ℤ◌}
use ant_orchestrator.Prelude.Dict.{put}
use ant_orchestrator.Energy.Port.{
  ResourceKind, kind_is_eq, Amounts, EnergyError, EnergyDecision, RoutingReason, EnforcementReason,
  ApprovalReason, EnergyActionPlan, EnergyActionResult, ApprovalRequest, route_local,
  escalate_cloud, action_rejected,
}
use ant_orchestrator.Energy.Ledger.{ReservationLedger, amount_of, release, available}
use ant_orchestrator.Energy.Routing.{RoutingDecision, Snapshot, available_in}
use ant_orchestrator.Energy.Audit.{Effect, Services, at_approval}

pub data Reason : Type 0 where
  routing : RoutingReason → Reason
  enforcement : EnforcementReason → Reason

pub record EnergyManagerResult : Type 0 where
  pub decision : EnergyDecision
  pub reason : Reason
  pub approval_request : Option ApprovalRequest
  pub action_result : Option EnergyActionResult
  pub reservation_id : Option String
  pub audit_failure : Bool

-- What an action does when it is run: it gives a result, or throws.
pub data ActionRun : Type 0 where
  gives : EnergyActionResult → ActionRun
  throws : ActionRun

-- What `execute` does: it returns, an exception of the component passes, or one of an action.
pub data Outcome : Type 0 where
  returned : EnergyManagerResult → Outcome
  raised_error : EnergyError → Outcome
  action_raised : Outcome

pub record World : Type 0 where
  pub ledger : ReservationLedger
  pub effects : List Effect

abbrev pub plain : EnergyDecision → Reason → EnergyManagerResult
plain d r = record {
  decision = d;
  reason = r;
  approval_request = none;
  action_result = none;
  reservation_id = none;
  audit_failure = false;
}

-- `_build_approval`
unfoldable pub build_approval :
    Services
    → EnergyActionPlan
    → ReservationLedger
    → ApprovalReason
    → Amounts
    → EnergyDecision
    → ApprovalRequest
build_approval env plan l reason additional proposed = record {
  task_id = plan.task_id;
  correlation_id = plan.correlation_id;
  action_kind = plan.action_kind;
  current_budget = l.budget;
  required_additional = additional;
  proposed_route = proposed;
  reason = reason;
  alternatives_tried = [];
  consequence_if_denied = action_rejected;
  created_at = env.now at_approval;
}

-- The loop of `_build_approval_from_routing`.
unfoldable pub missing_amounts : EnergyActionPlan → Snapshot → List ResourceKind → Amounts → Amounts
missing_amounts plan snapshot [] additional = additional
missing_amounts plan snapshot (kind ∷ rest) additional =
    let estimated = amount_of kind plan.estimated_resources in
    missing_amounts plan snapshot rest (elim (available_in kind snapshot) [
      | none ↦ put kind estimated additional
      | some avail ↦
          if ltb_ℤ avail estimated then put kind (estimated -ℤ avail) additional else additional
    ])

-- `reason_map.get(routing.reason, ApprovalReason.BUDGET_INSUFFICIENT)`
unfoldable pub approval_reason_for : RoutingReason → ApprovalReason
approval_reason_for RoutingReason.cloud_requires_approval = ApprovalReason.cloud_requires_approval
approval_reason_for RoutingReason.quality_requirement = ApprovalReason.cloud_requires_approval
approval_reason_for RoutingReason.context_budget_exceeded = ApprovalReason.context_budget_exceeded
approval_reason_for RoutingReason.retry_limit_exceeded = ApprovalReason.retry_limit_exceeded
approval_reason_for _ = ApprovalReason.budget_insufficient

unfoldable pub proposed_route_for : RoutingReason → EnergyDecision
proposed_route_for RoutingReason.cloud_requires_approval = escalate_cloud
proposed_route_for _ = route_local

unfoldable pub build_approval_from_routing :
    Services → EnergyActionPlan → ReservationLedger → RoutingDecision → Snapshot → ApprovalRequest
build_approval_from_routing env plan l r snapshot =
    build_approval env plan l (approval_reason_for r.reason)
      (missing_amounts plan snapshot plan.required_resources []) (proposed_route_for r.reason)

-- `{k: self._ledger.available(k) for k in kinds}`, kind by kind.
unfoldable pub snapshot_kinds : ReservationLedger → List ResourceKind → Snapshot → Snapshot
snapshot_kinds l [] s = s
snapshot_kinds l (kind ∷ rest) s = snapshot_kinds l rest (put kind (available kind l) s)

unfoldable pub snapshot_amounts : ReservationLedger → Amounts → Snapshot → Snapshot
snapshot_amounts l [] s = s
snapshot_amounts l ((kind, _) ∷ rest) s = snapshot_amounts l rest (put kind (available kind l) s)

-- `_available_snapshot`: the required kinds and the estimated ones.
unfoldable pub available_snapshot : EnergyActionPlan → ReservationLedger → Snapshot
available_snapshot plan l =
    snapshot_amounts l plan.estimated_resources (snapshot_kinds l plan.required_resources [])

-- `_safe_release`: an exception of `release` is swallowed.
unfoldable pub safe_release : String → World → World
safe_release rid w = record w { ledger = (release rid w.ledger).1 }
