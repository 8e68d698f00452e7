-- ===== src/Services.antt =====
-- application/services/: the use cases that change tasks, runs and approvals.
pub mod Support
pub mod Pause
pub mod Completion
pub mod Resolve
pub mod Cancel
pub mod Create
pub mod Calls
pub mod Effect
pub mod Calm
pub mod Quiet
pub mod Leasing
pub mod Owners
pub mod Cancelling
pub mod Leases
pub mod Tests
pub mod Refusals
pub mod Taken
pub mod Resumed
pub mod Second
pub mod World
pub mod Driving
pub mod Recovery
pub mod Reentry
pub mod Cancellation
