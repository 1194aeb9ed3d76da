-- ===== src/Evals.antt =====
-- app/evals/: the columns that an eval dataset injects, and how an eval run can be scored.
pub mod DatasetColumns
pub mod Deconflicted
pub mod RunSettings
pub mod Executed
pub mod Compatibility
pub mod Injected
