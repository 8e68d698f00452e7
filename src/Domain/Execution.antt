-- ===== src/Domain/Execution.antt =====
-- core/domain/enums.py: the enumerations of the execution, the text that each member is stored as, and `parse`.
use ant_orchestrator.Prelude.{
  ◌≡◌, refl, ◌↔◌, Bool, true, false, Option, some, List, [], ◌∷◌, String,
}
use ant_orchestrator.Prelude.Equality.{Eq, string_eq, ◌≟◌}
use ant_orchestrator.Domain.Code.{parse, eq_of_code}

pub data ExecutionAttemptStatus : Type 0 where
  planned started succeeded failed indeterminate : ExecutionAttemptStatus

-- The value of a member.
unfoldable pub execution_attempt_status_value : ExecutionAttemptStatus → String
execution_attempt_status_value ExecutionAttemptStatus.planned = "planned"
execution_attempt_status_value ExecutionAttemptStatus.started = "started"
execution_attempt_status_value ExecutionAttemptStatus.succeeded = "succeeded"
execution_attempt_status_value ExecutionAttemptStatus.failed = "failed"
execution_attempt_status_value ExecutionAttemptStatus.indeterminate = "indeterminate"

abbrev execution_attempt_status_members : List ExecutionAttemptStatus
execution_attempt_status_members =
    ExecutionAttemptStatus.planned ∷ ExecutionAttemptStatus.started
    ∷ ExecutionAttemptStatus.succeeded ∷ ExecutionAttemptStatus.failed
    ∷ ExecutionAttemptStatus.indeterminate ∷ []

unfoldable pub parse_execution_attempt_status : String → Option ExecutionAttemptStatus
parse_execution_attempt_status =
    parse execution_attempt_status_value execution_attempt_status_members

pub parse_execution_attempt_status-execution_attempt_status_value :
    (s : ExecutionAttemptStatus)
    → parse_execution_attempt_status (execution_attempt_status_value s) ≡ some s
unfolding parse_execution_attempt_status parse execution_attempt_status_value
parse_execution_attempt_status-execution_attempt_status_value ExecutionAttemptStatus.planned = refl
parse_execution_attempt_status-execution_attempt_status_value ExecutionAttemptStatus.started = refl
parse_execution_attempt_status-execution_attempt_status_value ExecutionAttemptStatus.succeeded =
    refl
parse_execution_attempt_status-execution_attempt_status_value ExecutionAttemptStatus.failed = refl
parse_execution_attempt_status-execution_attempt_status_value ExecutionAttemptStatus.indeterminate =
    refl

unfoldable pub execution_attempt_status_eq : ExecutionAttemptStatus → ExecutionAttemptStatus → Bool
execution_attempt_status_eq a b =
    execution_attempt_status_value a ≟ execution_attempt_status_value b

pub execution_attempt_status_eq_iff :
    (a b : ExecutionAttemptStatus) → (execution_attempt_status_eq a b ≡ true) ↔ (a ≡ b)
unfolding execution_attempt_status_eq parse_execution_attempt_status
execution_attempt_status_eq_iff a b =
    eq_of_code execution_attempt_status_value execution_attempt_status_members
      parse_execution_attempt_status-execution_attempt_status_value a b

instance abbrev pub execution_attempt_status_is_eq : Eq ExecutionAttemptStatus
execution_attempt_status_is_eq = record {
  beq = execution_attempt_status_eq;
  beq_iff = execution_attempt_status_eq_iff;
}

pub data ResumeOperationStatus : Type 0 where
  pending owned completed failed released : ResumeOperationStatus

-- The value of a member.
unfoldable pub resume_operation_status_value : ResumeOperationStatus → String
resume_operation_status_value ResumeOperationStatus.pending = "pending"
resume_operation_status_value ResumeOperationStatus.owned = "owned"
resume_operation_status_value ResumeOperationStatus.completed = "completed"
resume_operation_status_value ResumeOperationStatus.failed = "failed"
resume_operation_status_value ResumeOperationStatus.released = "released"

abbrev resume_operation_status_members : List ResumeOperationStatus
resume_operation_status_members =
    ResumeOperationStatus.pending ∷ ResumeOperationStatus.owned ∷ ResumeOperationStatus.completed
    ∷ ResumeOperationStatus.failed ∷ ResumeOperationStatus.released ∷ []

unfoldable pub parse_resume_operation_status : String → Option ResumeOperationStatus
parse_resume_operation_status = parse resume_operation_status_value resume_operation_status_members

pub parse_resume_operation_status-resume_operation_status_value :
    (s : ResumeOperationStatus)
    → parse_resume_operation_status (resume_operation_status_value s) ≡ some s
unfolding parse_resume_operation_status parse resume_operation_status_value
parse_resume_operation_status-resume_operation_status_value ResumeOperationStatus.pending = refl
parse_resume_operation_status-resume_operation_status_value ResumeOperationStatus.owned = refl
parse_resume_operation_status-resume_operation_status_value ResumeOperationStatus.completed = refl
parse_resume_operation_status-resume_operation_status_value ResumeOperationStatus.failed = refl
parse_resume_operation_status-resume_operation_status_value ResumeOperationStatus.released = refl

unfoldable pub resume_operation_status_eq : ResumeOperationStatus → ResumeOperationStatus → Bool
resume_operation_status_eq a b = resume_operation_status_value a ≟ resume_operation_status_value b

pub resume_operation_status_eq_iff :
    (a b : ResumeOperationStatus) → (resume_operation_status_eq a b ≡ true) ↔ (a ≡ b)
unfolding resume_operation_status_eq parse_resume_operation_status
resume_operation_status_eq_iff a b =
    eq_of_code resume_operation_status_value resume_operation_status_members
      parse_resume_operation_status-resume_operation_status_value a b

instance abbrev pub resume_operation_status_is_eq : Eq ResumeOperationStatus
resume_operation_status_is_eq = record {
  beq = resume_operation_status_eq;
  beq_iff = resume_operation_status_eq_iff;
}

pub data TransitionSubject : Type 0 where
  task run approval : TransitionSubject

-- The value of a member.
unfoldable pub transition_subject_value : TransitionSubject → String
transition_subject_value TransitionSubject.task = "task"
transition_subject_value TransitionSubject.run = "run"
transition_subject_value TransitionSubject.approval = "approval"

abbrev transition_subject_members : List TransitionSubject
transition_subject_members =
    TransitionSubject.task ∷ TransitionSubject.run ∷ TransitionSubject.approval ∷ []

unfoldable pub parse_transition_subject : String → Option TransitionSubject
parse_transition_subject = parse transition_subject_value transition_subject_members

pub parse_transition_subject-transition_subject_value :
    (s : TransitionSubject) → parse_transition_subject (transition_subject_value s) ≡ some s
unfolding parse_transition_subject parse transition_subject_value
parse_transition_subject-transition_subject_value TransitionSubject.task = refl
parse_transition_subject-transition_subject_value TransitionSubject.run = refl
parse_transition_subject-transition_subject_value TransitionSubject.approval = refl

unfoldable pub transition_subject_eq : TransitionSubject → TransitionSubject → Bool
transition_subject_eq a b = transition_subject_value a ≟ transition_subject_value b

pub transition_subject_eq_iff :
    (a b : TransitionSubject) → (transition_subject_eq a b ≡ true) ↔ (a ≡ b)
unfolding transition_subject_eq parse_transition_subject
transition_subject_eq_iff a b =
    eq_of_code transition_subject_value transition_subject_members
      parse_transition_subject-transition_subject_value a b

instance abbrev pub transition_subject_is_eq : Eq TransitionSubject
transition_subject_is_eq = record {
  beq = transition_subject_eq;
  beq_iff = transition_subject_eq_iff;
}

pub data TransitionTrigger : Type 0 where
  run_created await_approval approve reject resume retry regroup cancel_request cancel complete
        fail :
      TransitionTrigger

-- The value of a member.
unfoldable pub transition_trigger_value : TransitionTrigger → String
transition_trigger_value TransitionTrigger.run_created = "run_created"
transition_trigger_value TransitionTrigger.await_approval = "await_approval"
transition_trigger_value TransitionTrigger.approve = "approve"
transition_trigger_value TransitionTrigger.reject = "reject"
transition_trigger_value TransitionTrigger.resume = "resume"
transition_trigger_value TransitionTrigger.retry = "retry"
transition_trigger_value TransitionTrigger.regroup = "regroup"
transition_trigger_value TransitionTrigger.cancel_request = "cancel_request"
transition_trigger_value TransitionTrigger.cancel = "cancel"
transition_trigger_value TransitionTrigger.complete = "complete"
transition_trigger_value TransitionTrigger.fail = "fail"

abbrev transition_trigger_members : List TransitionTrigger
transition_trigger_members =
    TransitionTrigger.run_created ∷ TransitionTrigger.await_approval ∷ TransitionTrigger.approve
    ∷ TransitionTrigger.reject ∷ TransitionTrigger.resume ∷ TransitionTrigger.retry
    ∷ TransitionTrigger.regroup ∷ TransitionTrigger.cancel_request ∷ TransitionTrigger.cancel
    ∷ TransitionTrigger.complete ∷ TransitionTrigger.fail ∷ []

unfoldable pub parse_transition_trigger : String → Option TransitionTrigger
parse_transition_trigger = parse transition_trigger_value transition_trigger_members

pub parse_transition_trigger-transition_trigger_value :
    (s : TransitionTrigger) → parse_transition_trigger (transition_trigger_value s) ≡ some s
unfolding parse_transition_trigger parse transition_trigger_value
parse_transition_trigger-transition_trigger_value TransitionTrigger.run_created = refl
parse_transition_trigger-transition_trigger_value TransitionTrigger.await_approval = refl
parse_transition_trigger-transition_trigger_value TransitionTrigger.approve = refl
parse_transition_trigger-transition_trigger_value TransitionTrigger.reject = refl
parse_transition_trigger-transition_trigger_value TransitionTrigger.resume = refl
parse_transition_trigger-transition_trigger_value TransitionTrigger.retry = refl
parse_transition_trigger-transition_trigger_value TransitionTrigger.regroup = refl
parse_transition_trigger-transition_trigger_value TransitionTrigger.cancel_request = refl
parse_transition_trigger-transition_trigger_value TransitionTrigger.cancel = refl
parse_transition_trigger-transition_trigger_value TransitionTrigger.complete = refl
parse_transition_trigger-transition_trigger_value TransitionTrigger.fail = refl

-- `ExecutionAttemptStatus.is_active`
unfoldable pub is_active_attempt : ExecutionAttemptStatus → Bool
is_active_attempt ExecutionAttemptStatus.planned = true
is_active_attempt ExecutionAttemptStatus.started = true
is_active_attempt _ = false

-- `ExecutionAttemptStatus.is_terminal`
unfoldable pub is_final_attempt : ExecutionAttemptStatus → Bool
is_final_attempt ExecutionAttemptStatus.planned = false
is_final_attempt ExecutionAttemptStatus.started = false
is_final_attempt _ = true
