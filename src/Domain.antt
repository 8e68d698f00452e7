-- ===== src/Domain.antt =====
-- core/domain/: the vocabulary of the tasks, the runs and the approvals.
pub mod Result
pub mod Status
pub mod Code
pub mod Execution
pub mod Entities
pub mod Approval
