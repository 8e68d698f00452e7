-- ===== src/Workflow/Support.antt =====
-- workflows/graph_support.py and workflows/test_routing.py: the routes after a node, the approval
-- delta, and the two execution ports. `none` stands for an exception.
use ant_orchestrator.Prelude.{
  ℕ, Bool, true, false, not, ◌||◌, Option, none, some, List, [], ◌∷◌, ◌++◌, String, if◌then◌else◌,
}
use ant_orchestrator.Prelude.Equality.{string_eq, ◌≟◌}
use ant_orchestrator.Prelude.Text.{◌⊕◌, is_blank}
use ant_orchestrator.Workflow.Port.{
  GateType, retry_limit, scope_change, ApprovalContinuation, execute, replan, accept_result,
  WorkerOutcome, success, retryable_failure, permanent_failure, WorkerActionIntent, from_state_dict,
  DocumentationExecutionOutcome, TestExecutionOutcome,
}
use ant_orchestrator.Workflow.Routing.{
  RetryDecision, RegroupDecision, granted, denied, RetryRoute, RegroupRoute, effective_retry_limit,
  route_retry, route_regroup, grant_retry_extension,
}
use ant_orchestrator.Workflow.State.{
  GraphState, Phase, Status, pass, retryable, fatal, cancelled, ok, ActionIntent, Payload,
  ApprovalIntent,
}

-- `_CONTINUATION_PHASE`
unfoldable pub continuation_phase : ApprovalContinuation → Phase
continuation_phase execute = Phase.execute
continuation_phase replan = Phase.plan
continuation_phase accept_result = Phase.persist

-- `intent_from_state`
unfoldable pub intent_from_state : GraphState → Option WorkerActionIntent
intent_from_state state = from_state_dict state.action_intent.intent (state.task_id ⊕ "-act")

-- The mapping that a route function returns, whose keys but `phase` may be missing.
pub record Route : Type 0 where
  pub phase : Phase
  pub retry_count : Option ℕ
  pub regroup_count : Option ℕ
  pub gate : Option (GateType × ApprovalContinuation)

abbrev pub to_phase : Phase → Route
to_phase phase = record { phase = phase; retry_count = none; regroup_count = none; gate = none }

-- `_escalate`
abbrev pub escalate : GateType → ApprovalContinuation → Route
escalate gate continuation = record (to_phase Phase.prepare_intent) {
  gate = some (gate, continuation);
}

-- What the two callers of `route_retry` make of its answer.
abbrev pub follow_retry : Phase → RetryRoute → Route
follow_retry phase r = elim r.decision [
  | RetryDecision.retry ↦ record (to_phase phase) { retry_count = some r.retry_count }
  | RetryDecision.escalate ↦ escalate retry_limit execute
]

-- A retry to the given phase while the budget lasts, else the RETRY_LIMIT gate.
unfoldable pub retry_or_escalate : Phase → GraphState → Route
retry_or_escalate phase state =
    follow_retry phase
      (route_retry state.retry_count state.base_retry_limit state.retry_extension_count)

abbrev pub follow_regroup : RegroupRoute → Route
follow_regroup r = elim r.decision [
  | RegroupDecision.regroup ↦ record (to_phase Phase.plan) { regroup_count = some r.regroup_count }
  | RegroupDecision.escalate ↦ escalate scope_change replan
]

-- `_regroup_or_escalate`
unfoldable pub regroup_or_escalate : GraphState → Route
regroup_or_escalate state = follow_regroup (route_regroup state.regroup_count)

unfoldable pub route_after_validation : GraphState → Status → Route
route_after_validation state pass = to_phase Phase.review
route_after_validation state retryable = retry_or_escalate Phase.execute state
route_after_validation state Status.regroup = regroup_or_escalate state
route_after_validation state fatal = to_phase Phase.failed
route_after_validation state _ = escalate scope_change replan

unfoldable pub route_after_review : GraphState → Status → Route
route_after_review state ok = to_phase Phase.persist
route_after_review state Status.regroup = regroup_or_escalate state
route_after_review state _ = escalate scope_change replan

-- workflows/test_routing.py
unfoldable pub route_after_test_validation : GraphState → Status → Route
route_after_test_validation state pass = to_phase Phase.review
route_after_test_validation state retryable = retry_or_escalate Phase.test state
route_after_test_validation state fatal = to_phase Phase.failed
route_after_test_validation state cancelled = to_phase Phase.cancelled
route_after_test_validation state _ = escalate scope_change replan

-- `mark_pending_gate`
unfoldable pub mark_pending_gate :
    ActionIntent → GateType → Option ApprovalContinuation → String → ActionIntent
mark_pending_gate intent gate continuation reason = record intent {
  pending = some (record { gate_type = gate; continuation = continuation; reason = reason });
}

abbrev pub or_old {ℓ} : {A : Type ℓ} → Option A → A → A
or_old none old = old
or_old (some new) old = new

-- `build_escalation_payload`
unfoldable pub build_escalation_payload : GraphState → GateType → String → Payload
build_escalation_payload state gate reason =
    let bound = not (is_blank state.proposal_digest) in
    record {
      reason = reason;
      retry_count = elim gate [ retry_limit ↦ some state.retry_count | _ ↦ none ];
      effective_retry_limit = elim gate [
        | retry_limit ↦
            some (effective_retry_limit state.base_retry_limit state.retry_extension_count)
        | _ ↦ none
      ];
      regroup_count = elim gate [ scope_change ↦ some state.regroup_count | _ ↦ none ];
      proposal_ref = if bound then some state.proposal_ref else none;
      proposal_digest = if bound then some state.proposal_digest else none;
      manifest_digest = if bound then some state.manifest_digest else none;
    }

-- A RETRY_LIMIT approval to execute grants one extension, or fails closed.
unfoldable pub approve : GateType → ApprovalContinuation → GraphState → GraphState
approve retry_limit execute state =
    let g = grant_retry_extension state.retry_extension_count in
    elim g.decision [
      | granted ↦ record state {
        phase = Phase.execute;
        retry_extension_count = g.retry_extension_count;
      }
      | denied ↦ record state { phase = Phase.failed }
    ]
approve gate continuation state = record state { phase = continuation_phase continuation }

-- `apply_approval_delta`: `none` where the intent names no continuation.
unfoldable pub apply_approval_delta :
    Option ApprovalIntent → String → GraphState → Option GraphState
apply_approval_delta intent decision state =
    if decision ≟ "rejected"
    then some (record state { phase = Phase.rejected })
    else if decision ≟ "cancelled"
    then some (record state { phase = Phase.cancelled })
    else elim intent [
      | none ↦ none
      | some i ↦ some (approve i.gate_type i.approved_continuation state)
    ]

abbrev pub bound_digest : Option ApprovalIntent → Option String
bound_digest none = none
bound_digest (some i) = i.sanitized_payload.proposal_digest

abbrev pub gate_id : Option ApprovalIntent → String
gate_id none = ""
gate_id (some i) = i.gate_instance_id

-- `bound == proposal_digest`, where a missing value equals no string.
abbrev pub equals_bound : Option String → String → Bool
equals_bound none digest = false
equals_bound (some bound) digest = bound ≟ digest

abbrev pub is_execute : Phase → Bool
is_execute Phase.execute = true
is_execute _ = false

-- `bind_approval`
unfoldable pub bind_approval : Option ApprovalIntent → GraphState → GraphState
bind_approval intent state =
    if not (is_execute state.phase) || is_blank state.proposal_digest
    then state
    else if equals_bound (bound_digest intent) state.proposal_digest
    then record state { approval_ref = gate_id intent }
    else record state { phase = Phase.failed; error_summary = some "approval_binding_mismatch" }

-- `_TEST_STATUS`, whose missing outcomes escalate.
unfoldable pub test_status : WorkerOutcome → Status
test_status success = Status.pass
test_status retryable_failure = Status.retryable
test_status permanent_failure = Status.fatal
test_status _ = Status.escalate

-- `outcome.is_cancelled`
abbrev pub is_cancelled : TestExecutionOutcome → Bool
is_cancelled outcome = elim outcome.disposition [ none ↦ false | some d ↦ d ≟ "terminal_cancelled" ]

-- A list that replaces the old one unless it is empty.
abbrev pub or_old_list : List String → List String → List String
or_old_list [] old = old
or_old_list (x ∷ xs) old = x ∷ xs

-- `execute_test_port` on the port's answer.
unfoldable pub execute_test_port : TestExecutionOutcome → GraphState → GraphState
execute_test_port outcome state =
    if is_cancelled outcome then record state { phase = Phase.cancelled } else record state {
      phase = Phase.validate;
      test_status = some (test_status outcome.outcome);
      test_outcome = some outcome.outcome;
      test_attempt_ref = some outcome.attempt_ref;
      test_logical_action_ref = some outcome.attempt_ref;
      test_failure_category = elim outcome.category [
        | none ↦ state.test_failure_category
        | some c ↦ some c
      ];
      test_reason_code = elim outcome.reason_code [
        | none ↦ state.test_reason_code
        | some c ↦ some c
      ];
      test_recovery_disposition = elim outcome.disposition [
        | none ↦ state.test_recovery_disposition
        | some c ↦ some c
      ];
      test_evidence_refs = or_old_list outcome.evidence_refs state.test_evidence_refs;
    }

-- `execute_documentation_node` on the port's answer, `none` where the port raises.
unfoldable pub execute_documentation_node :
    Option DocumentationExecutionOutcome → GraphState → Phase → Option GraphState
execute_documentation_node answer state next =
    if is_blank state.proposal_ref || is_blank state.proposal_digest
    then some
        (record state { phase = Phase.failed; error_summary = some "missing_proposal_authority" })
    else elim answer [
      | none ↦ none
      | some outcome ↦ some (record state {
        action_intent = record state.action_intent { last_outcome = some outcome.outcome };
        evidence_refs = state.evidence_refs ++ outcome.evidence_refs;
        phase = next;
        execution_attempt_ref = some outcome.attempt_ref;
      })
    ]
