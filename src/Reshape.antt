-- ===== src/Reshape.antt =====
-- app/runtime/stages/: the reshapes of rows.
pub mod Agreement
pub mod Agreed
pub mod Dedupe
pub mod Survivors
