-- ===== src/Testing/Policy.antt =====
-- core/domain/test_failure_policy.py: one rule for each category.
use ant_orchestrator.Prelude.{Option, none, some, List, String}
use ant_orchestrator.Domain.Result.{Result, ◌>>=◌}
use ant_orchestrator.Testing.Failure.{
  FailureCategory, Transience, RecoveryDisposition, TransientSignal, TestReasonCode,
  FailureClassification, check_evidence, check_classification,
}

pub record CategoryRule : Type 0 where
  pub transience : Transience
  pub disposition : RecoveryDisposition
  pub reason_code : TestReasonCode
  pub transient_signal : Option TransientSignal

abbrev deterministic_rule : RecoveryDisposition → TestReasonCode → CategoryRule
deterministic_rule disposition reason = record {
  transience = Transience.deterministic;
  disposition = disposition;
  reason_code = reason;
  transient_signal = none;
}

abbrev unknown_rule : TestReasonCode → CategoryRule
unknown_rule reason = record {
  transience = Transience.unknown;
  disposition = RecoveryDisposition.escalate;
  reason_code = reason;
  transient_signal = none;
}

abbrev retry_rule : TestReasonCode → TransientSignal → CategoryRule
retry_rule reason signal = record {
  transience = Transience.transient;
  disposition = RecoveryDisposition.retry;
  reason_code = reason;
  transient_signal = some signal;
}

-- `_CATEGORY_POLICY`
unfoldable pub category_rule : FailureCategory → CategoryRule
category_rule FailureCategory.transient_interruption =
    retry_rule TestReasonCode.transient_interruption_audited TransientSignal.process_interruption
category_rule FailureCategory.adapter_transient =
    retry_rule TestReasonCode.adapter_temporarily_unavailable
      TransientSignal.adapter_resource_unavailable
category_rule FailureCategory.test_deadline_exceeded =
    unknown_rule TestReasonCode.test_deadline_exceeded
category_rule FailureCategory.executable_missing =
    deterministic_rule RecoveryDisposition.terminal_failed TestReasonCode.executable_missing
category_rule FailureCategory.permission_denied =
    deterministic_rule RecoveryDisposition.terminal_failed TestReasonCode.permission_denied
category_rule FailureCategory.adapter_config_invalid =
    deterministic_rule RecoveryDisposition.terminal_failed
      TestReasonCode.invalid_adapter_configuration
category_rule FailureCategory.deterministic_test_failure =
    deterministic_rule RecoveryDisposition.escalate TestReasonCode.deterministic_test_failure
category_rule FailureCategory.policy_violation =
    deterministic_rule RecoveryDisposition.terminal_failed TestReasonCode.command_policy_denied
category_rule FailureCategory.invalid_command =
    deterministic_rule RecoveryDisposition.terminal_failed TestReasonCode.invalid_command
category_rule FailureCategory.execution_boundary_failure =
    deterministic_rule RecoveryDisposition.terminal_failed TestReasonCode.execution_boundary_denied
category_rule FailureCategory.isolation_violation =
    deterministic_rule RecoveryDisposition.terminal_failed TestReasonCode.isolation_violation
category_rule FailureCategory.execution_isolation_unavailable =
    deterministic_rule RecoveryDisposition.escalate TestReasonCode.execution_isolation_unavailable
category_rule FailureCategory.isolation_setup_failure =
    deterministic_rule RecoveryDisposition.escalate TestReasonCode.isolation_setup_failed
category_rule FailureCategory.budget_exhausted =
    deterministic_rule RecoveryDisposition.escalate TestReasonCode.budget_exhausted
category_rule FailureCategory.unknown = unknown_rule TestReasonCode.unknown_failure

unfoldable pub default_classification :
    FailureCategory → List String → Option String → Result FailureClassification
default_classification category evidence_refs detail_code = do
  let rule = category_rule category
  evidence ← check_evidence (record {
    evidence_refs = evidence_refs;
    transient_signal = rule.transient_signal;
    detail_code = detail_code;
  })
  check_classification (record {
    category = category;
    reason_code = rule.reason_code;
    transience = rule.transience;
    recommended_disposition = rule.disposition;
    evidence = evidence;
  })

unfoldable pub cancellation_classification :
    List String → Option String → Result FailureClassification
cancellation_classification evidence_refs detail_code = do
  evidence ←
      check_evidence (record {
        evidence_refs = evidence_refs;
        transient_signal = none;
        detail_code = detail_code;
      })
  check_classification (record {
    category = FailureCategory.unknown;
    reason_code = TestReasonCode.execution_cancelled;
    transience = Transience.deterministic;
    recommended_disposition = RecoveryDisposition.terminal_cancelled;
    evidence = evidence;
  })
