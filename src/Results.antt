-- ===== src/Results.antt =====
-- crates/double_riichi_core/src/results.rs: the results of hands and of matches.
pub mod Types
pub mod Score
pub mod Final
pub mod Order
pub mod Placed
pub mod Melds
pub mod Scoring
pub mod Hand
pub mod Settlement
pub mod HandLaws
mod Tests
