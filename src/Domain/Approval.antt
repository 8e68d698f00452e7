-- ===== src/Domain/Approval.antt =====
-- core/domain/records.py: an approval, which is resolved once.
use ant_orchestrator.Prelude.{
  ℕ, ◌+◌, Bool, false, not, ◌&&◌, ◌||◌, Option, none, some, String, if◌then◌else◌, ltb,
}
use ant_orchestrator.Prelude.Dict.{is_there}
use ant_orchestrator.Prelude.Int.{ℤ, pos, ltb_ℤ}
use ant_orchestrator.Domain.Result.{
  Result, err, invariant_violation, approval_already_resolved, raise_if,
}
use ant_orchestrator.Domain.Status.{ApprovalStatus, is_final_approval}
use ant_orchestrator.Domain.Entities.{ActorSource, or_kept}
use ant_orchestrator.Workflow.Port.{GateType}

-- The payload of an interrupt: the keys that are read, and the rest as its JSON text.
pub record RequestPayload : Type 0 where
  pub gate_type : Option String
  pub approval_gate_sequence : Option ℤ
  pub rest : String

pub record Approval : Type 0 where
  pub id : String
  pub task_id : String
  pub status : ApprovalStatus
  pub requested_at : ℕ
  pub checkpoint_id : Option String
  pub reason : Option String
  pub decided_at : Option ℕ
  pub workflow_run_id : Option String
  pub gate_type : Option GateType
  pub gate_instance_id : Option String
  pub approval_gate_sequence : Option ℤ
  pub actor_source : Option ActorSource
  pub actor_label : Option String
  pub approval_row_version : ℕ
  pub langgraph_checkpoint_id : Option String
  pub langgraph_interrupt_id : Option String
  pub request_payload : Option RequestPayload

abbrev is_negative : Option ℤ → Bool
is_negative none = false
is_negative (some n) = ltb_ℤ n (pos 0)

-- `__post_init__`: a pending approval has no decision time, and a resolved one has one.
unfoldable pub check_approval : Approval → Result Approval
check_approval approval =
    let resolved = is_final_approval approval.status in
    raise_if
      ((not resolved && is_there approval.decided_at)
        || (resolved && not (is_there approval.decided_at))
        || ltb approval.approval_row_version 1
        || is_negative approval.approval_gate_sequence)
      invariant_violation approval

-- Who decides and why, as the command line gives it.
pub record Actor : Type 0 where
  pub reason : Option String
  pub actor_source : Option ActorSource
  pub actor_label : Option String

-- `Approval.resolve`
unfoldable pub resolve : Approval → ApprovalStatus → ℕ → Actor → Result Approval
unfolding check_approval
resolve approval decision decided_at actor =
    if is_final_approval approval.status
    then err approval_already_resolved
    else if not (is_final_approval decision)
    then err invariant_violation
    else check_approval (record approval {
      status = decision;
      decided_at = some decided_at;
      reason = or_kept actor.reason approval.reason;
      actor_source = or_kept actor.actor_source approval.actor_source;
      actor_label = or_kept actor.actor_label approval.actor_label;
      approval_row_version = approval.approval_row_version + 1;
    })
