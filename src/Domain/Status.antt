-- ===== src/Domain/Status.antt =====
-- core/domain/enums.py: the enumerations, the text that each member is stored as, and `parse`.
use ant_orchestrator.Prelude.{
  ◌≡◌, refl, ◌↔◌, Bool, true, false, Option, some, List, [], ◌∷◌, String,
}
use ant_orchestrator.Prelude.Equality.{Eq, string_eq, ◌≟◌}
use ant_orchestrator.Domain.Code.{parse, eq_of_code}

pub data TaskStatus : Type 0 where
  created classified planned split assigned running validating reviewing waiting_for_approval
        blocked completed failed cancelled rejected :
      TaskStatus

-- The value of a member.
unfoldable pub task_status_value : TaskStatus → String
task_status_value TaskStatus.created = "created"
task_status_value TaskStatus.classified = "classified"
task_status_value TaskStatus.planned = "planned"
task_status_value TaskStatus.split = "split"
task_status_value TaskStatus.assigned = "assigned"
task_status_value TaskStatus.running = "running"
task_status_value TaskStatus.validating = "validating"
task_status_value TaskStatus.reviewing = "reviewing"
task_status_value TaskStatus.waiting_for_approval = "waiting_for_approval"
task_status_value TaskStatus.blocked = "blocked"
task_status_value TaskStatus.completed = "completed"
task_status_value TaskStatus.failed = "failed"
task_status_value TaskStatus.cancelled = "cancelled"
task_status_value TaskStatus.rejected = "rejected"

abbrev task_status_members : List TaskStatus
task_status_members =
    TaskStatus.created ∷ TaskStatus.classified ∷ TaskStatus.planned ∷ TaskStatus.split
    ∷ TaskStatus.assigned ∷ TaskStatus.running ∷ TaskStatus.validating ∷ TaskStatus.reviewing
    ∷ TaskStatus.waiting_for_approval ∷ TaskStatus.blocked ∷ TaskStatus.completed
    ∷ TaskStatus.failed ∷ TaskStatus.cancelled ∷ TaskStatus.rejected ∷ []

unfoldable pub parse_task_status : String → Option TaskStatus
parse_task_status = parse task_status_value task_status_members

pub parse_task_status-task_status_value :
    (s : TaskStatus) → parse_task_status (task_status_value s) ≡ some s
unfolding parse_task_status parse task_status_value
parse_task_status-task_status_value TaskStatus.created = refl
parse_task_status-task_status_value TaskStatus.classified = refl
parse_task_status-task_status_value TaskStatus.planned = refl
parse_task_status-task_status_value TaskStatus.split = refl
parse_task_status-task_status_value TaskStatus.assigned = refl
parse_task_status-task_status_value TaskStatus.running = refl
parse_task_status-task_status_value TaskStatus.validating = refl
parse_task_status-task_status_value TaskStatus.reviewing = refl
parse_task_status-task_status_value TaskStatus.waiting_for_approval = refl
parse_task_status-task_status_value TaskStatus.blocked = refl
parse_task_status-task_status_value TaskStatus.completed = refl
parse_task_status-task_status_value TaskStatus.failed = refl
parse_task_status-task_status_value TaskStatus.cancelled = refl
parse_task_status-task_status_value TaskStatus.rejected = refl

unfoldable pub task_status_eq : TaskStatus → TaskStatus → Bool
task_status_eq a b = task_status_value a ≟ task_status_value b

pub task_status_eq_iff : (a b : TaskStatus) → (task_status_eq a b ≡ true) ↔ (a ≡ b)
unfolding task_status_eq parse_task_status
task_status_eq_iff a b =
    eq_of_code task_status_value task_status_members parse_task_status-task_status_value a b

instance abbrev pub task_status_is_eq : Eq TaskStatus
task_status_is_eq = record { beq = task_status_eq; beq_iff = task_status_eq_iff }

pub data ApprovalStatus : Type 0 where
  pending approved rejected cancelled : ApprovalStatus

-- The value of a member.
unfoldable pub approval_status_value : ApprovalStatus → String
approval_status_value ApprovalStatus.pending = "pending"
approval_status_value ApprovalStatus.approved = "approved"
approval_status_value ApprovalStatus.rejected = "rejected"
approval_status_value ApprovalStatus.cancelled = "cancelled"

abbrev approval_status_members : List ApprovalStatus
approval_status_members =
    ApprovalStatus.pending ∷ ApprovalStatus.approved ∷ ApprovalStatus.rejected
    ∷ ApprovalStatus.cancelled ∷ []

unfoldable pub parse_approval_status : String → Option ApprovalStatus
parse_approval_status = parse approval_status_value approval_status_members

pub parse_approval_status-approval_status_value :
    (s : ApprovalStatus) → parse_approval_status (approval_status_value s) ≡ some s
unfolding parse_approval_status parse approval_status_value
parse_approval_status-approval_status_value ApprovalStatus.pending = refl
parse_approval_status-approval_status_value ApprovalStatus.approved = refl
parse_approval_status-approval_status_value ApprovalStatus.rejected = refl
parse_approval_status-approval_status_value ApprovalStatus.cancelled = refl

unfoldable pub approval_status_eq : ApprovalStatus → ApprovalStatus → Bool
approval_status_eq a b = approval_status_value a ≟ approval_status_value b

pub approval_status_eq_iff : (a b : ApprovalStatus) → (approval_status_eq a b ≡ true) ↔ (a ≡ b)
unfolding approval_status_eq parse_approval_status
approval_status_eq_iff a b =
    eq_of_code approval_status_value approval_status_members
      parse_approval_status-approval_status_value a b

instance abbrev pub approval_status_is_eq : Eq ApprovalStatus
approval_status_is_eq = record { beq = approval_status_eq; beq_iff = approval_status_eq_iff }

pub data WorkflowRunStatus : Type 0 where
  running awaiting_approval completed failed cancelled : WorkflowRunStatus

-- The value of a member.
unfoldable pub workflow_run_status_value : WorkflowRunStatus → String
workflow_run_status_value WorkflowRunStatus.running = "running"
workflow_run_status_value WorkflowRunStatus.awaiting_approval = "awaiting_approval"
workflow_run_status_value WorkflowRunStatus.completed = "completed"
workflow_run_status_value WorkflowRunStatus.failed = "failed"
workflow_run_status_value WorkflowRunStatus.cancelled = "cancelled"

abbrev workflow_run_status_members : List WorkflowRunStatus
workflow_run_status_members =
    WorkflowRunStatus.running ∷ WorkflowRunStatus.awaiting_approval ∷ WorkflowRunStatus.completed
    ∷ WorkflowRunStatus.failed ∷ WorkflowRunStatus.cancelled ∷ []

unfoldable pub parse_workflow_run_status : String → Option WorkflowRunStatus
parse_workflow_run_status = parse workflow_run_status_value workflow_run_status_members

pub parse_workflow_run_status-workflow_run_status_value :
    (s : WorkflowRunStatus) → parse_workflow_run_status (workflow_run_status_value s) ≡ some s
unfolding parse_workflow_run_status parse workflow_run_status_value
parse_workflow_run_status-workflow_run_status_value WorkflowRunStatus.running = refl
parse_workflow_run_status-workflow_run_status_value WorkflowRunStatus.awaiting_approval = refl
parse_workflow_run_status-workflow_run_status_value WorkflowRunStatus.completed = refl
parse_workflow_run_status-workflow_run_status_value WorkflowRunStatus.failed = refl
parse_workflow_run_status-workflow_run_status_value WorkflowRunStatus.cancelled = refl

unfoldable pub workflow_run_status_eq : WorkflowRunStatus → WorkflowRunStatus → Bool
workflow_run_status_eq a b = workflow_run_status_value a ≟ workflow_run_status_value b

pub workflow_run_status_eq_iff :
    (a b : WorkflowRunStatus) → (workflow_run_status_eq a b ≡ true) ↔ (a ≡ b)
unfolding workflow_run_status_eq parse_workflow_run_status
workflow_run_status_eq_iff a b =
    eq_of_code workflow_run_status_value workflow_run_status_members
      parse_workflow_run_status-workflow_run_status_value a b

instance abbrev pub workflow_run_status_is_eq : Eq WorkflowRunStatus
workflow_run_status_is_eq = record {
  beq = workflow_run_status_eq;
  beq_iff = workflow_run_status_eq_iff;
}

-- `TaskStatus.is_terminal`
unfoldable pub is_final_task : TaskStatus → Bool
is_final_task TaskStatus.completed = true
is_final_task TaskStatus.failed = true
is_final_task TaskStatus.cancelled = true
is_final_task TaskStatus.rejected = true
is_final_task _ = false

-- `ApprovalStatus.is_terminal`
unfoldable pub is_final_approval : ApprovalStatus → Bool
is_final_approval ApprovalStatus.pending = false
is_final_approval _ = true

-- `WorkflowRunStatus.is_terminal`
unfoldable pub is_final_run : WorkflowRunStatus → Bool
is_final_run WorkflowRunStatus.running = false
is_final_run WorkflowRunStatus.awaiting_approval = false
is_final_run _ = true

-- `WorkflowRunStatus.is_active`
unfoldable pub is_active_run : WorkflowRunStatus → Bool
is_active_run WorkflowRunStatus.running = true
is_active_run WorkflowRunStatus.awaiting_approval = true
is_active_run _ = false
