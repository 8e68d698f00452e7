-- ===== src/Workflow.antt =====
-- The workflow graph: routing, gates, state, nodes and edges.
pub mod Port
pub mod Routing
pub mod DecisionGate
pub mod State
pub mod Nodes
pub mod Support
pub mod Graph
pub mod Drive
pub mod Tests
