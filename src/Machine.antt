-- ===== src/Machine.antt =====
-- crates/double_riichi_core/src/match_machine.rs: a running match.
pub mod Types
pub mod Seats
pub mod Steps
pub mod Play
pub mod Direct
pub mod Show
pub mod Stable
pub mod Idle
pub mod Log
pub mod Kept
pub mod Calls
pub mod Publish
pub mod Setters
pub mod Shown
pub mod Journal
pub mod Reveal
pub mod Automatic
pub mod Automation
pub mod Ranking
pub mod RankingLaws
pub mod Standings
mod Tests
