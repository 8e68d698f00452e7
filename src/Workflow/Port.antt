-- ===== src/Workflow/Port.antt =====
-- application/ports/worker.py, the gate enumerations of core/domain/enums.py, and the answers of the
-- documentation and test ports (application/ports/documentation_execution.py, test_execution.py).
use Prim.Native.String.{count}
use ant_orchestrator.Prelude.{Bool, Option, none, some, List, String, ltb, if◌then◌else◌}
use ant_orchestrator.Prelude.Text.{is_blank, or_else}

pub data GateType : Type 0 where
  significant_write unsafe_command energy_budget retry_limit scope_change : GateType

pub data ApprovalContinuation : Type 0 where
  execute replan accept_result : ApprovalContinuation

pub data WorkerOutcome : Type 0 where
  success retryable_failure permanent_failure : WorkerOutcome
  validation_failure review_regroup escalation : WorkerOutcome

pub record WorkerActionIntent : Type 0 where
  pub logical_action_id : String
  pub summary : String
  pub requires_significant_write : Bool
  pub requires_unsafe_command : Bool
  pub requires_energy_approval : Bool
  pub target_paths : List String
  pub command_argv : List String

-- `WorkerActionIntent.__post_init__`: `none` where it raises.
unfoldable pub check_intent : WorkerActionIntent → Option WorkerActionIntent
check_intent intent =
    if is_blank intent.logical_action_id
    then none
    else if ltb 2000 (count intent.summary)
    then none
    else some intent

-- The fields of the `action_intent` mapping that `from_state_dict` reads. An absent key reads as its
-- type's empty value, as it does in the code.
unfoldable pub from_state_dict : WorkerActionIntent → String → Option WorkerActionIntent
from_state_dict raw default_id = check_intent (record raw {
  logical_action_id = or_else raw.logical_action_id default_id;
  summary = or_else raw.summary "stub action";
})

pub record WorkerExecutionResult : Type 0 where
  pub outcome : WorkerOutcome
  pub detail : String
  pub evidence_refs : List String

pub record DocumentationExecutionOutcome : Type 0 where
  pub outcome : WorkerOutcome
  pub attempt_ref : String
  pub evidence_refs : List String

-- Reason, category and disposition are named by their values.
pub record TestExecutionOutcome : Type 0 where
  pub outcome : WorkerOutcome
  pub attempt_ref : String
  pub disposition : Option String
  pub reason_code : Option String
  pub category : Option String
  pub evidence_refs : List String
