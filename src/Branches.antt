-- ===== src/Branches.antt =====
-- app/runtime/branches.py: which branches of its code each output row took.
pub mod Recorder
pub mod Recorded
