-- ===== src/Domain.antt =====
-- crates/double_riichi_core/src/domain.rs: the protocol-neutral vocabulary of the program.
pub mod Mode
pub mod ModeName
pub mod Tile
pub mod TileOrder
pub mod Action
pub mod Equality
pub mod Canonical
pub mod Event
pub mod Roster
mod Tests
