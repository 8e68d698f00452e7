-- ===== src/Security.antt =====
-- security/: what a command may be, and which command a test run executes.
pub mod Paths
pub mod Commands
pub mod Allowed
pub mod Profiles
pub mod Resolved
pub mod Tests
