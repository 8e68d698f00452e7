-- ===== src/Workflow/State.antt =====
-- workflows/state.py: the graph state. An absent string key is the empty string, an absent count is
-- zero and an absent mapping is empty, which is how every reader of the state takes them.
use ant_orchestrator.Prelude.{ℕ, false, Option, none, List, [], String, ◌==◌, if◌then◌else◌}
use ant_orchestrator.Workflow.Port.{
  GateType, ApprovalContinuation, WorkerOutcome, WorkerActionIntent,
}

-- The values that the key `phase` takes (workflows/graph_support.py and nodes.py).
pub data Phase : Type 0 where
  plan context execute test prepare_intent await_approval validate review : Phase
  persist completed failed rejected cancelled : Phase

-- The `status` of a validation, a review or a test.
pub data Status : Type 0 where
  pass retryable escalate fatal cancelled regroup ok : Status

-- The keys `pending_gate_type`, `pending_continuation` and `pending_reason` of `action_intent`.
pub record PendingGate : Type 0 where
  pub gate_type : GateType
  pub continuation : Option ApprovalContinuation
  pub reason : String

-- The mapping `action_intent`: the intent's own keys, the last outcome, the pending gate.
pub record ActionIntent : Type 0 where
  pub intent : WorkerActionIntent
  pub last_outcome : Option WorkerOutcome
  pub pending : Option PendingGate

-- The payload of an approval: each key that may be missing is an option.
pub record Payload : Type 0 where
  pub reason : String
  pub retry_count : Option ℕ
  pub effective_retry_limit : Option ℕ
  pub regroup_count : Option ℕ
  pub proposal_ref : Option String
  pub proposal_digest : Option String
  pub manifest_digest : Option String

pub record ApprovalIntent : Type 0 where
  pub gate_instance_id : String
  pub gate_type : GateType
  pub logical_action_id : String
  pub approval_gate_sequence : ℕ
  pub approved_continuation : ApprovalContinuation
  pub sanitized_payload : Payload

pub record Plan : Type 0 where
  pub goal : String
  pub plan_revision : ℕ

pub record StatusResult : Type 0 where
  pub status : Status
  pub reason_code : WorkerOutcome

pub record GraphState : Type 0 where
  pub graph_state_schema_version : ℕ
  pub task_id : String
  pub workflow_run_id : String
  pub phase : Phase
  pub plan : Option Plan
  pub context_ref : String
  pub context_package_ref : String
  pub manifest_digest : String
  pub proposal_ref : String
  pub proposal_digest : String
  pub approval_ref : String
  pub action_intent : ActionIntent
  pub approval_intent : Option ApprovalIntent
  pub approval_decision : Option String
  pub validation_result : Option StatusResult
  pub review_result : Option StatusResult
  pub base_retry_limit : ℕ
  pub retry_count : ℕ
  pub retry_extension_count : ℕ
  pub regroup_count : ℕ
  pub approval_gate_sequence : ℕ
  pub execution_attempt_ref : Option String
  pub evidence_refs : List String
  pub final_outcome : Option String
  pub error_summary : Option String
  pub test_status : Option Status
  pub test_outcome : Option WorkerOutcome
  pub test_failure_category : Option String
  pub test_reason_code : Option String
  pub test_recovery_disposition : Option String
  pub test_attempt_ref : Option String
  pub test_logical_action_ref : Option String
  pub test_evidence_refs : List String

-- An empty `action_intent`.
abbrev pub no_intent : ActionIntent
no_intent = record {
  intent = record {
    logical_action_id = "";
    summary = "";
    requires_significant_write = false;
    requires_unsafe_command = false;
    requires_energy_approval = false;
    target_paths = [];
    command_argv = [];
  };
  last_outcome = none;
  pending = none;
}

abbrev pub graph_state_schema_version : ℕ
graph_state_schema_version = 2

pub data SchemaCompatibility : Type 0 where
  compatible unknown_version : SchemaCompatibility

unfoldable pub check_schema_version : GraphState → SchemaCompatibility
check_schema_version state =
    if state.graph_state_schema_version == graph_state_schema_version
    then compatible
    else unknown_version

unfoldable pub new_graph_state : String → String → ℕ → GraphState
new_graph_state task_id workflow_run_id base_retry_limit = record {
  graph_state_schema_version = graph_state_schema_version;
  task_id = task_id;
  workflow_run_id = workflow_run_id;
  phase = Phase.plan;
  plan = none;
  context_ref = "";
  context_package_ref = "";
  manifest_digest = "";
  proposal_ref = "";
  proposal_digest = "";
  approval_ref = "";
  action_intent = no_intent;
  approval_intent = none;
  approval_decision = none;
  validation_result = none;
  review_result = none;
  base_retry_limit = base_retry_limit;
  retry_count = 0;
  retry_extension_count = 0;
  regroup_count = 0;
  approval_gate_sequence = 0;
  execution_attempt_ref = none;
  evidence_refs = [];
  final_outcome = none;
  error_summary = none;
  test_status = none;
  test_outcome = none;
  test_failure_category = none;
  test_reason_code = none;
  test_recovery_disposition = none;
  test_attempt_ref = none;
  test_logical_action_ref = none;
  test_evidence_refs = [];
}
