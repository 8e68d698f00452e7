-- ===== src/Workflow/Routing.antt =====
-- workflows/routing.py: retry and regroup routing over counters, and the retry grant. The counters
-- begin at zero and only grow, and the base limit is a constant of config/constants.py: they are
-- natural numbers here.
use ant_orchestrator.Prelude.{ℕ, ◌+◌, Option, none, some, ltb, if◌then◌else◌}
use ant_orchestrator.Workflow.Port.{GateType, retry_limit, scope_change}

-- config/constants.py
abbrev pub workflow_max_retries : ℕ
workflow_max_retries = 2

abbrev pub workflow_max_retry_extensions : ℕ
workflow_max_retry_extensions = 1

abbrev pub workflow_max_regroups : ℕ
workflow_max_regroups = 1

pub data RetryDecision : Type 0 where
  retry escalate : RetryDecision

pub data RegroupDecision : Type 0 where
  regroup escalate : RegroupDecision

pub data GrantDecision : Type 0 where
  granted denied : GrantDecision

pub data RouteReason : Type 0 where
  within_retry_budget retry_budget_exhausted within_regroup_budget : RouteReason
  regroup_budget_exhausted extension_granted extension_bound_reached : RouteReason

pub record RetryRoute : Type 0 where
  pub decision : RetryDecision
  pub reason : RouteReason
  pub retry_count : ℕ
  pub gate_type : Option GateType

pub record RegroupRoute : Type 0 where
  pub decision : RegroupDecision
  pub reason : RouteReason
  pub regroup_count : ℕ
  pub gate_type : Option GateType

pub record GrantResult : Type 0 where
  pub decision : GrantDecision
  pub reason : RouteReason
  pub retry_extension_count : ℕ

abbrev pub effective_retry_limit : ℕ → ℕ → ℕ
effective_retry_limit base extensions = base + extensions

-- The two answers of `route_retry`.
abbrev pub retry_granted : ℕ → RetryRoute
retry_granted count = record {
  decision = retry;
  reason = within_retry_budget;
  retry_count = count + 1;
  gate_type = none;
}

abbrev pub retry_exhausted : ℕ → RetryRoute
retry_exhausted count = record {
  decision = RetryDecision.escalate;
  reason = retry_budget_exhausted;
  retry_count = count;
  gate_type = some retry_limit;
}

unfoldable pub route_retry : ℕ → ℕ → ℕ → RetryRoute
route_retry count base extensions =
    if ltb count (effective_retry_limit base extensions)
    then retry_granted count
    else retry_exhausted count

-- The two answers of `route_regroup`.
abbrev pub regroup_granted : ℕ → RegroupRoute
regroup_granted count = record {
  decision = regroup;
  reason = within_regroup_budget;
  regroup_count = count + 1;
  gate_type = none;
}

abbrev pub regroup_exhausted : ℕ → RegroupRoute
regroup_exhausted count = record {
  decision = RegroupDecision.escalate;
  reason = regroup_budget_exhausted;
  regroup_count = count;
  gate_type = some scope_change;
}

-- `max_regroups` has its default value, which is what every caller leaves it at.
unfoldable pub route_regroup : ℕ → RegroupRoute
route_regroup count =
    if ltb count workflow_max_regroups then regroup_granted count else regroup_exhausted count

-- `max_extensions` has its default value.
unfoldable pub grant_retry_extension : ℕ → GrantResult
grant_retry_extension count =
    if ltb count workflow_max_retry_extensions
    then record {
      decision = granted;
      reason = extension_granted;
      retry_extension_count = count + 1;
    }
    else record {
      decision = denied;
      reason = extension_bound_reached;
      retry_extension_count = count;
    }
