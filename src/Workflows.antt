-- ===== src/Workflows.antt =====
-- core/src/extensions/workflows: the graph of a workflow, the order and routing of its nodes, the
-- items that flow between them, and the durable run.
pub mod Json
pub mod Graph
pub mod Topo
pub mod Items
pub mod Expr
pub mod Routing
pub mod Nodes
pub mod Execute
pub mod NodeRuns
pub mod Runner
pub mod Validate
pub mod Run
mod Tests
