-- ===== src/Context.antt =====
-- The context component: the budget and the selection of artifacts.
pub mod Budget
pub mod Selection
pub mod Tests
