-- ===== src/Workflow/Graph.antt =====
-- workflows/graph.py: the nodes of the workflow graph. A node gives the state with its delta merged
-- in, which is what the graph runner, LangGraph, does with a delta. The answers of the ports are
-- given per step, so that a port may answer otherwise each time.
use ant_orchestrator.Prelude.{
  Bool, true, false, ◌&&◌, Option, none, some, ◌++◌, String, if◌then◌else◌,
}
use ant_orchestrator.Prelude.Text.{◌⊕◌, or_else}
use ant_orchestrator.Workflow.Port.{
  WorkerActionIntent, WorkerExecutionResult, DocumentationExecutionOutcome, TestExecutionOutcome,
}
use ant_orchestrator.Workflow.DecisionGate.{
  require_approval, DecisionGateResult, reason_value, evaluate_energy_gate, evaluate_unsafe_command,
  evaluate_significant_write,
}
use ant_orchestrator.Workflow.State.{GraphState, Phase, pass, ActionIntent}
use ant_orchestrator.Workflow.Nodes.{
  plan_node, context_node, decision_node, prepare_approval_intent, evaluate_validation,
  evaluate_review, validation_status, review_status,
}
use ant_orchestrator.Workflow.Support.{
  intent_from_state, Route, route_after_validation, route_after_review, route_after_test_validation,
  mark_pending_gate, or_old, build_escalation_payload, apply_approval_delta, bind_approval,
  execute_test_port, execute_documentation_node,
}

-- Which optional parts the graph is built with, and the hash of the gate identifiers.
pub record Wiring : Type 0 where
  pub attempt_orchestrator : Bool
  pub cancellation_probe : Bool
  pub documentation_execution : Bool
  pub test_execution : Bool
  pub sha256 : String → String

-- What the outside answers in one step; `none` where the port raises.
pub record Answers : Type 0 where
  pub cancel_requested : Bool
  pub attempt_id : Option String
  pub worker : Option WorkerExecutionResult
  pub documentation : Option DocumentationExecutionOutcome
  pub test : Option TestExecutionOutcome
  pub decision_token : String

pub data Node : Type 0 where
  plan context decision execute_stub test validate review : Node
  prepare_intent await_approval persist_handoff failed rejected cancelled : Node

-- `_apply_route`: the route's keys, and the gate that an escalation raises.
unfoldable pub apply_route : Route → GraphState → GraphState
apply_route route state = record state {
  phase = route.phase;
  retry_count = or_old route.retry_count state.retry_count;
  regroup_count = or_old route.regroup_count state.regroup_count;
  action_intent = elim route.gate [
    | none ↦ state.action_intent
    | some g ↦ mark_pending_gate state.action_intent g.0 (some g.1) "escalation"
  ];
}

-- The gate that the decision node evaluates.
unfoldable pub evaluate_gate : WorkerActionIntent → String → DecisionGateResult
evaluate_gate intent task_id =
    if intent.requires_energy_approval
    then evaluate_energy_gate task_id
    else if intent.requires_unsafe_command
    then evaluate_unsafe_command intent
    else evaluate_significant_write intent

-- The new `action_intent`: the intent's keys alone, and the gate of an approval.
unfoldable pub decided_intent : WorkerActionIntent → DecisionGateResult → ActionIntent
decided_intent intent result =
    let bare : ActionIntent = record { intent = intent; last_outcome = none; pending = none } in
    elim result.outcome [
      | require_approval ↦
          mark_pending_gate bare result.gate_type result.approved_continuation
            (reason_value result.reason)
      | _ ↦ bare
    ]

unfoldable pub decision_step : GraphState → Option GraphState
decision_step state = elim (intent_from_state state) [
  | none ↦ none
  | some intent ↦
      let result = evaluate_gate intent state.task_id in
      let next = decision_node state result.outcome (reason_value result.reason) in
      some (record next { action_intent = decided_intent intent result })
]

-- The attempt that the stub path records: no orchestrator, no attempt.
unfoldable pub begin_attempt : Bool → Option String → Option (Option String)
begin_attempt false answer = some none
begin_attempt true none = none
begin_attempt true (some attempt) = some (some attempt)

infixl 40 ◌>>=◌
abbrev ◌>>=◌ {ℓ κ} : {A : Type ℓ} {B : Type κ} → Option A → (A → Option B) → Option B
none >>= f = none
some a >>= f = f a

-- The stub worker's path of `execute_stub`.
unfoldable pub stub_step : Wiring → Answers → Phase → GraphState → Option GraphState
stub_step wiring answers next state = do
  intent ← intent_from_state state
  attempt ← begin_attempt wiring.attempt_orchestrator answers.attempt_id
  result ← answers.worker
  some (record state {
    action_intent = record state.action_intent { last_outcome = some result.outcome };
    evidence_refs = state.evidence_refs ++ result.evidence_refs;
    phase = next;
    execution_attempt_ref = attempt;
  })

unfoldable pub execute_step : Wiring → Answers → GraphState → Option GraphState
execute_step wiring answers state =
    let next = if wiring.test_execution then Phase.test else Phase.validate in
    if wiring.cancellation_probe && answers.cancel_requested
    then some (record state { phase = Phase.cancelled })
    else if wiring.documentation_execution
    then execute_documentation_node answers.documentation state next
    else stub_step wiring answers next state

unfoldable pub test_step : Wiring → Answers → GraphState → Option GraphState
test_step wiring answers state =
    if wiring.cancellation_probe && answers.cancel_requested
    then some (record state { phase = Phase.cancelled })
    else if wiring.test_execution
    then elim answers.test [ none ↦ none | some outcome ↦ some (execute_test_port outcome state) ]
    else some (record state { phase = Phase.validate; test_status = some pass })

unfoldable pub validate_step : GraphState → Option GraphState
validate_step state = elim state.test_status [
  | some status ↦ some (apply_route (route_after_test_validation state status) state)
  | none ↦ elim state.action_intent.last_outcome [
    | none ↦ none
    | some outcome ↦ some (
        apply_route (route_after_validation state (validation_status outcome))
          (evaluate_validation state outcome))
  ]
]

unfoldable pub review_step : GraphState → Option GraphState
review_step state = elim state.action_intent.last_outcome [
  | none ↦ none
  | some outcome ↦ some (
      apply_route (route_after_review state (review_status outcome))
        (evaluate_review state outcome))
]

unfoldable pub prepare_step : Wiring → GraphState → Option GraphState
prepare_step wiring state = elim state.action_intent.pending [
  | none ↦ none
  | some gate ↦ some (
      prepare_approval_intent wiring.sha256 state gate.gate_type
        (or_else state.action_intent.intent.logical_action_id (state.task_id ⊕ "-act"))
        (build_escalation_payload state gate.gate_type gate.reason) gate.continuation)
]

-- `await_approval` once the interrupt is answered.
unfoldable pub await_step : Answers → GraphState → Option GraphState
await_step answers state =
    elim (apply_approval_delta state.approval_intent answers.decision_token state) [
      | none ↦ none
      | some next ↦ some (
          bind_approval state.approval_intent (record next {
            approval_decision = some answers.decision_token;
            approval_intent = none;
          }))
    ]

unfoldable pub persist_step : Wiring → Answers → GraphState → GraphState
persist_step wiring answers state =
    if wiring.cancellation_probe && answers.cancel_requested
    then record state { phase = Phase.cancelled }
    else record state { final_outcome = some "completed"; phase = Phase.completed }

-- The node functions; `none` where one raises.
unfoldable pub run_node : Wiring → Answers → Node → GraphState → Option GraphState
run_node wiring answers plan state = some (plan_node state)
run_node wiring answers context state = some (context_node state)
run_node wiring answers decision state = decision_step state
run_node wiring answers execute_stub state = execute_step wiring answers state
run_node wiring answers test state = test_step wiring answers state
run_node wiring answers validate state = validate_step state
run_node wiring answers review state = review_step state
run_node wiring answers prepare_intent state = prepare_step wiring state
run_node wiring answers await_approval state = await_step answers state
run_node wiring answers persist_handoff state = some (persist_step wiring answers state)
run_node wiring answers failed state = some (record state { final_outcome = some "failed" })
run_node wiring answers rejected state = some (record state { final_outcome = some "rejected" })
run_node wiring answers cancelled state = some (record state { final_outcome = some "cancelled" })
