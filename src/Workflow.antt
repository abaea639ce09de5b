-- ===== src/Workflow.antt =====
-- backend/app/agents: the state of the workflow (state.py), its nodes (nodes.py) and the graph that
-- joins them (workflow.py).
mod State
mod Citations
mod Nodes
pub mod Brackets
pub mod Marks
pub mod Order
pub mod Outcome
pub mod Sources
unfoldable pub use State.*
unfoldable pub use Citations.*
unfoldable pub use Nodes.*
