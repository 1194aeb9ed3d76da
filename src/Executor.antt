-- ===== src/Executor.antt =====
-- app/runtime/executor.py: the run of a workflow's stages in dependency order.
pub mod Status
pub mod Records
pub mod Topological
pub mod Window
pub mod Issues
pub mod Runtime
pub mod Gather
pub mod Finalize
pub mod StageRun
pub mod Progress
pub mod Loop
pub mod Subset
