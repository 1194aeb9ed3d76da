-- ===== src/Predicate.antt =====
-- app/core/predicate.py: the closed set of constructs that a filter may use.
pub mod Syntax
pub mod Validate
pub mod Walk
pub mod Admitted
pub mod Found
