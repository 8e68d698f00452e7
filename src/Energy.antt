-- ===== src/Energy.antt =====
-- The energy component: its vocabulary, the reservation ledger, the policies and the manager.
pub mod Port
pub mod Ledger
pub mod Enforcement
pub mod Routing
pub mod Audit
pub mod Manager
pub mod Settlement
pub mod Tests
