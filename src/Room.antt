-- ===== src/Room.antt =====
-- crates/double_riichi_core/src/room.rs: a room, its participants and the commands that change it.
pub mod Catalog
pub mod Names
pub mod Types
pub mod Table
pub mod State
pub mod Lobby
pub mod Bots
pub mod Match
pub mod Leaving
pub mod CommandTypes
pub mod Commands
pub mod TableLaws
pub mod ChangeLaws
pub mod BotNames
pub mod Seating
pub mod Invariant
pub mod LeavingLaws
pub mod CommandLaws
pub mod History
pub mod Rematch
mod Tests
pub mod FreeBots
pub mod Growing
pub mod Filling
pub mod Writes
