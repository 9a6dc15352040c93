-- ===== src/Decision.antt =====
-- crates/double_riichi_core/src/decision.rs: decisions, their answers and their deadlines.
pub mod Clock
pub mod Types
pub mod Build
pub mod Submit
pub mod Resolve
pub mod Default
pub mod Answers
pub mod Recording
pub mod Valid
pub mod Fresh
pub mod Final
pub mod Reach
pub mod Timeout
pub mod Timing
pub mod Naming
mod Tests
