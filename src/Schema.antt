-- ===== src/Schema.antt =====
-- app/models/schema.py: columns, their types and their spec, and table schemas.
pub mod ColumnType
pub mod Column
pub mod Spec
pub mod Table
pub mod Names
pub mod Satisfy
pub mod Supply
pub mod Extend
