-- ===== src/Testing/Verdicts.antt =====
-- workers/test/classifier.py against a description of the facts alone.
use ant_orchestrator.Prelude.{
  ◌≡◌, refl, Bool, true, false, ◌||◌, Option, none, some, List, String, arith, ltb, length,
}
use ant_orchestrator.Domain.Result.{Result, ok}
use ant_orchestrator.Testing.Failure.{
  FailureCategory, FailureClassification, TestReasonCode, Transience, RecoveryDisposition,
  is_retryable, any_unsafe, unsafe_detail, check_evidence, check_classification, is_unjustified,
  is_transient, is_cancellation,
}
use ant_orchestrator.Testing.Policy.{
  category_rule, default_classification, cancellation_classification,
}
use ant_orchestrator.Testing.Facts.{
  TestProcessStatus, TestResult, TestExecutionFacts, ClassifiedExecution, is_success,
}
use ant_orchestrator.Testing.Classifier.{detail_or, verdict, failure, cancelled_verdict}

-- The verdict asks for a retry.
unfoldable pub asks_retry : ClassifiedExecution → Bool
asks_retry v = elim v.classification [ none ↦ false | some c ↦ is_retryable c ]

-- References and a detail that the evidence accepts.
abbrev pub IsSafe : List String → Option String → Type 0
IsSafe refs detail = (ltb 16 (length refs) || any_unsafe refs || unsafe_detail detail) ≡ false

-- The answer, and what it says of success and of a retry.
abbrev pub Says : Bool → Bool → Result ClassifiedExecution → Type 0
Says success again r =
    (v : ClassifiedExecution) × (r ≡ ok v) × (is_success v ≡ success) × (asks_retry v ≡ again)

-- The categories of the audited transient signals.
abbrev pub is_passing : FailureCategory → Bool
is_passing FailureCategory.transient_interruption = true
is_passing FailureCategory.adapter_transient = true
is_passing _ = false

abbrev classification_of : FailureCategory → List String → Option String → FailureClassification
classification_of category refs detail = record {
  category = category;
  reason_code = (category_rule category).reason_code;
  transience = (category_rule category).transience;
  recommended_disposition = (category_rule category).disposition;
  evidence = record {
    evidence_refs = refs;
    transient_signal = (category_rule category).transient_signal;
    detail_code = detail;
  };
}

default_lem :
    (category : FailureCategory) (refs : List String) (detail : Option String)
    → IsSafe refs detail
    → default_classification category refs detail ≡ ok (classification_of category refs detail)
unfolding default_classification check_evidence check_classification category_rule is_unjustified
    is_transient is_cancellation
default_lem category refs detail safe = ground arith

retry_lem :
    (category : FailureCategory) (refs : List String) (detail : Option String)
    → is_retryable (classification_of category refs detail) ≡ is_passing category
unfolding is_retryable category_rule
retry_lem category refs detail = ground arith

pub failure-Says :
    (category : FailureCategory) (process : TestProcessStatus) (facts : TestExecutionFacts)
    (result : TestResult) (detail : Option String)
    → IsSafe facts.evidence_refs (detail_or detail facts.detail_code)
    → Says false (is_passing category) (failure category process facts result detail)
unfolding failure verdict is_success asks_retry
failure-Says category process facts result detail safe =
    let d = detail_or detail facts.detail_code in
    (
      verdict result process (classification_of category facts.evidence_refs d),
      rw (default_lem category facts.evidence_refs d safe) refl,
      refl,
      retry_lem category facts.evidence_refs d,
    )

abbrev cancellation : List String → Option String → FailureClassification
cancellation refs detail = record {
  category = FailureCategory.unknown;
  reason_code = TestReasonCode.execution_cancelled;
  transience = Transience.deterministic;
  recommended_disposition = RecoveryDisposition.terminal_cancelled;
  evidence = record { evidence_refs = refs; transient_signal = none; detail_code = detail };
}

cancellation_lem :
    (refs : List String) (detail : Option String)
    → IsSafe refs detail
    → cancellation_classification refs detail ≡ ok (cancellation refs detail)
unfolding cancellation_classification check_evidence check_classification is_unjustified
    is_transient is_cancellation
cancellation_lem refs detail safe = ground arith

pub cancelled-Says :
    (facts : TestExecutionFacts) (process : TestProcessStatus)
    → IsSafe facts.evidence_refs facts.detail_code
    → Says false false (cancelled_verdict facts process)
unfolding cancelled_verdict verdict is_success asks_retry is_retryable
cancelled-Says facts process safe = (
  verdict TestResult.error process (cancellation facts.evidence_refs facts.detail_code),
  rw (cancellation_lem facts.evidence_refs facts.detail_code safe) refl,
  refl,
  refl,
)
