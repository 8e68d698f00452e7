-- ===== src/Testing/Failure.antt =====
-- core/domain/test_failure.py: the taxonomy, and the checks of its two constructors.
use Prim.Native.String.{count}
use text.Mathlib.Text.{find?}
use ant_orchestrator.Prelude.{
  ℕ, Bool, true, false, not, ◌&&◌, ◌||◌, Option, none, some, List, [], ◌∷◌, String, ltb, length,
}
use ant_orchestrator.Prelude.Dict.{is_there}
use ant_orchestrator.Prelude.Text.{is_blank}
use ant_orchestrator.Domain.Result.{Result, invariant_violation, raise_if}

pub data FailureCategory : Type 0 where
  transient_interruption adapter_transient test_deadline_exceeded : FailureCategory
  executable_missing permission_denied adapter_config_invalid : FailureCategory
  deterministic_test_failure policy_violation invalid_command : FailureCategory
  execution_boundary_failure isolation_violation : FailureCategory
  execution_isolation_unavailable isolation_setup_failure : FailureCategory
  budget_exhausted unknown : FailureCategory

pub data Transience : Type 0 where
  transient deterministic unknown : Transience

pub data RecoveryDisposition : Type 0 where
  retry regroup_required escalate terminal_failed terminal_cancelled : RecoveryDisposition

pub data TransientSignal : Type 0 where
  process_interruption adapter_resource_unavailable : TransientSignal

pub data TestReasonCode : Type 0 where
  transient_interruption_audited adapter_temporarily_unavailable : TestReasonCode
  test_deadline_exceeded executable_missing permission_denied : TestReasonCode
  invalid_adapter_configuration deterministic_test_failure command_policy_denied : TestReasonCode
  invalid_command execution_boundary_denied isolation_violation : TestReasonCode
  execution_isolation_unavailable isolation_setup_failed budget_exhausted : TestReasonCode
  unknown_failure execution_cancelled : TestReasonCode

pub record FailureEvidence : Type 0 where
  pub evidence_refs : List String
  pub transient_signal : Option TransientSignal
  pub detail_code : Option String

-- `t in s`
abbrev pub has_part : String → String → Bool
has_part s t = is_there (find? s t)

-- Empty, longer than a bound, or more than one line.
unfoldable pub is_unsafe : ℕ → String → Bool
is_unsafe bound s = is_blank s || ltb bound (count s) || has_part s "\n" || has_part s "\r"

unfoldable pub any_unsafe : List String → Bool
any_unsafe [] = false
any_unsafe (ref ∷ refs) = is_unsafe 200 ref || any_unsafe refs

unfoldable pub unsafe_detail : Option String → Bool
unsafe_detail none = false
unsafe_detail (some detail) = is_unsafe 120 detail

-- `__post_init__`
unfoldable pub check_evidence : FailureEvidence → Result FailureEvidence
check_evidence evidence =
    raise_if
      (ltb 16 (length evidence.evidence_refs)
        || any_unsafe evidence.evidence_refs
        || unsafe_detail evidence.detail_code)
      invariant_violation evidence

pub record FailureClassification : Type 0 where
  pub category : FailureCategory
  pub reason_code : TestReasonCode
  pub transience : Transience
  pub recommended_disposition : RecoveryDisposition
  pub evidence : FailureEvidence

unfoldable pub is_transient : Transience → Bool
is_transient Transience.transient = true
is_transient _ = false

unfoldable pub is_cancellation : TestReasonCode → Bool
is_cancellation TestReasonCode.execution_cancelled = true
is_cancellation _ = false

-- What `__post_init__` refuses of each disposition.
unfoldable pub is_unjustified : FailureClassification → RecoveryDisposition → Bool
unfolding is_transient is_cancellation
is_unjustified c RecoveryDisposition.retry = not (is_transient c.transience)
is_unjustified c RecoveryDisposition.terminal_cancelled =
    not (is_cancellation c.reason_code) || is_transient c.transience
is_unjustified c _ = false

unfoldable pub check_classification : FailureClassification → Result FailureClassification
unfolding is_unjustified is_transient
check_classification c =
    raise_if
      (is_unjustified c c.recommended_disposition
        || (is_transient c.transience && not (is_there c.evidence.transient_signal)))
      invariant_violation c

-- `is_retryable`
unfoldable pub is_retryable : FailureClassification → Bool
is_retryable c = elim c.recommended_disposition [ RecoveryDisposition.retry ↦ true | _ ↦ false ]
