-- ===== src/Services/Support.antt =====
-- application/services/workflow_support.py, and the answers of application/ports/workflow_runner.py.
use ant_orchestrator.Prelude.{ℕ, Bool, false, Option, none, some, List, [], ◌∷◌, String}
use ant_orchestrator.Prelude.Text.{◌⊕◌}
use ant_orchestrator.Domain.Status.{ApprovalStatus, is_final_approval}
use ant_orchestrator.Domain.Execution.{TransitionSubject, TransitionTrigger}
use ant_orchestrator.Domain.Entities.{check_transition}
use ant_orchestrator.Domain.Approval.{Approval, RequestPayload}
use ant_orchestrator.Store.Rows.{filter}
use ant_orchestrator.Store.Tx.{Tx, lift, ◌>>=◌}
use ant_orchestrator.Store.Runs.{append_row}

-- What a transaction takes from outside: the time, the identifiers in the order in which they are
-- drawn, and SHA-256.
pub record Env : Type 0 where
  pub now : ℕ
  pub new_id : ℕ → String
  pub sha256 : String → String

pub record WorkflowOutcome : Type 0 where
  pub status : String
  pub run_id : String
  pub final_outcome : Option String
  pub approval_id : Option String
  pub resume_operation_id : Option String
  pub resumed : Bool

abbrev pub outcome_of : String → String → WorkflowOutcome
outcome_of status run_id = record {
  status = status;
  run_id = run_id;
  final_outcome = none;
  approval_id = none;
  resume_operation_id = none;
  resumed = false;
}

pub record InterruptView : Type 0 where
  pub langgraph_interrupt_id : String
  pub gate_instance_id : Option String
  pub payload : RequestPayload

pub record WorkflowInvokeResult : Type 0 where
  pub final_outcome : Option String
  pub checkpoint_id : Option String
  pub interrupt : Option InterruptView

abbrev pub thread_id_for : String → String
thread_id_for run_id = "wf:" ⊕ run_id

abbrev pub pause_operation_id : String → String
pause_operation_id gate = "pause-" ⊕ gate

unfoldable pub completion_operation_id : Env → String → String → String
completion_operation_id env run_id checkpoint =
    "complete-" ⊕ env.sha256 (run_id ⊕ ("\u{1f}" ⊕ checkpoint))

-- The row takes the n-th identifier.
unfoldable pub append_transition :
    Env
    → ℕ
    → String
    → TransitionSubject
    → String
    → TransitionTrigger
    → String
    → Option String
    → Tx (Unit {0})
unfolding ◌>>=◌
append_transition env n run_id subject to_status trigger operation_id from_status = do
  row ← lift (
      check_transition (record {
        id = env.new_id n;
        workflow_run_id = run_id;
        subject = subject;
        to_status = to_status;
        trigger = trigger;
        operation_id = operation_id;
        created_at = env.now;
        from_status = from_status;
        causation_id = none;
      }))
  append_row row

abbrev last_status : List Approval → Option ApprovalStatus
last_status [] = none
last_status (a ∷ []) = some a.status
last_status (a ∷ b ∷ rest) = last_status (b ∷ rest)

unfoldable pub latest_persisted_decision : List Approval → Option ApprovalStatus
latest_persisted_decision approvals =
    last_status (filter (λ a. is_final_approval a.status) approvals)
