-- ===== src/Store.antt =====
-- persistence/: the tables, the statements of the repositories, and the unit of work.
pub mod Rows
pub mod Tx
pub mod Runs
pub mod Gates
pub mod Decisions
pub mod Deciding
pub mod Attempts
