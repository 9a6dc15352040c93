-- ===== src/Domain/Action.antt =====
-- crates/double_riichi_core/src/domain.rs: the actions of a player.
use driichi.Domain.Mode.{Seat}
use driichi.Domain.Tile.{Tile, canonical_key, key_le}
use driichi.Prelude.{Bool, Option, none, some, List, [], ◌∷◌, if◌then◌else◌}

pub data GameAction : Type 0 where
  discard : (tile : Tile) (tsumogiri : Bool) → GameAction
  riichi_discard : (tile : Tile) → GameAction
  chi : (target : Seat) (called : Tile) (consumed : List Tile) → GameAction
  pon : (target : Seat) (called : Tile) (consumed : List Tile) → GameAction
  daiminkan : (target : Seat) (called : Tile) (consumed : List Tile) → GameAction
  ankan : (consumed : List Tile) → GameAction
  kakan : (called : Tile) (consumed : List Tile) → GameAction
  nuki : (tile : Tile) → GameAction
  tsumo : GameAction
  ron : Seat → GameAction
  pass : GameAction
  abortive_draw : GameAction

unfoldable pub target_seat : GameAction → Option Seat
target_seat (chi target _ _) = some target
target_seat (pon target _ _) = some target
target_seat (daiminkan target _ _) = some target
target_seat (ron target) = some target
target_seat _ = none

-- `sort_by_key(|tile| tile.canonical_key())`, the standard library's stable sort.
unfoldable pub insert_by_key : Tile → List Tile → List Tile
insert_by_key t [] = t ∷ []
insert_by_key t (x ∷ xs) =
    if key_le (canonical_key t) (canonical_key x) then t ∷ x ∷ xs else x ∷ insert_by_key t xs

unfoldable pub sort_by_key : List Tile → List Tile
unfolding insert_by_key
sort_by_key [] = []
sort_by_key (t ∷ ts) = insert_by_key t (sort_by_key ts)

unfoldable pub canonicalize : GameAction → GameAction
canonicalize (chi target called consumed) = chi target called (sort_by_key consumed)
canonicalize (pon target called consumed) = pon target called (sort_by_key consumed)
canonicalize (daiminkan target called consumed) = daiminkan target called (sort_by_key consumed)
canonicalize (ankan consumed) = ankan (sort_by_key consumed)
canonicalize (kakan called consumed) = kakan called (sort_by_key consumed)
canonicalize other = other
