-- ===== src/Testing.antt =====
-- The verdict of a test run: core/domain/test_failure.py, test_failure_policy.py and workers/test/.
pub mod Failure
pub mod Policy
pub mod Facts
pub mod Classifier
pub mod Verdicts
pub mod Described
pub mod Decision
pub mod Tests
