-- ===== src/Workflow.antt =====
-- app/models/workflow.py: the checks on a stage graph, and schema resolution.
pub mod Graph
pub mod Raised
pub mod Cycle
pub mod Order
pub mod Checks
pub mod RowTypes
pub mod Resolve
pub mod Found
pub mod Answered
pub mod Resolved
pub mod Inherited
pub mod Form
pub mod Formed
pub mod Reach
