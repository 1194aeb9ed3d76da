-- ===== src/Lineage.antt =====
-- app/runtime/lineage.py: which rows of earlier stages each row of a stage came from.
pub mod Row
pub mod Equal
pub mod Moves
pub mod Merged
pub mod Sidecar
pub mod RoundTrip
pub mod Columns
pub mod Places
pub mod Reader
pub mod Coherent
