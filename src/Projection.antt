-- ===== src/Projection.antt =====
-- crates/double_riichi_core/src/projection.rs: what each audience sees of a table.
pub mod Table
pub mod Views
pub mod Hiding
pub mod Checks
mod Tests
