-- ===== src/Domain/Tile.antt =====
-- crates/double_riichi_core/src/domain.rs: physical tiles and tile types, by their `u8` numbers.
use driichi.Domain.Mode.{GameMode, is_three_player, range}
use driichi.Prelude.{
  ℕ, ◌+◌, ◌*◌, ◌/◌, Bool, true, false, not, ◌&&◌, ◌||◌, Option, none, some, List, [], ◌∷◌, ◌++◌,
  ltb, leb, ◌==◌, if◌then◌else◌, keep,
}

abbrev pub Tile : Type 0
Tile = ℕ

abbrev pub TileType : Type 0
TileType = ℕ

unfoldable pub type_from_index : ℕ → Option TileType
type_from_index index = if ltb index 34 then some index else none

unfoldable pub from_id : ℕ → Option Tile
from_id id = if ltb id 136 then some id else none

unfoldable pub tile_type : Tile → TileType
tile_type t = t / 4

unfoldable pub is_red : Tile → Bool
is_red t = t == 16 || t == 52 || t == 88

unfoldable pub is_valid_for : Tile → GameMode → Bool
unfolding is_three_player tile_type
is_valid_for t mode =
    if not (is_three_player mode)
    then true
    else let kind = tile_type t in not (leb 1 kind && leb kind 7)

-- The ids of one tile type, the red copy of a five last.
type_ids : ℕ → List Tile
type_ids kind =
    let base = kind * 4 in
    let red = base == 16 || base == 52 || base == 88 in
    if red
    then (base + 1) ∷ (base + 2) ∷ (base + 3) ∷ base ∷ []
    else base ∷ (base + 1) ∷ (base + 2) ∷ (base + 3) ∷ []

-- The double loop of `canonical_order`.
push_types : GameMode → List ℕ → List Tile
unfolding type_ids
push_types mode [] = []
push_types mode (kind ∷ kinds) =
    keep (λ t. is_valid_for t mode) (type_ids kind) ++ push_types mode kinds

unfoldable pub canonical_order : GameMode → List Tile
unfolding push_types
canonical_order mode = push_types mode (range 0 34)

unfoldable pub canonical_key : Tile → TileType × Bool × ℕ
unfolding tile_type is_red
canonical_key t = (tile_type t, is_red t, t)

-- The derived order on keys: by type, then by colour, then by id.
leb_Bool : Bool → Bool → Bool
leb_Bool true false = false
leb_Bool _ _ = true

ltb_Bool : Bool → Bool → Bool
ltb_Bool false true = true
ltb_Bool _ _ = false

unfoldable pub key_le : TileType × Bool × ℕ → TileType × Bool × ℕ → Bool
unfolding ltb_Bool leb_Bool
key_le (k, r, i) (l, s, j) =
    ltb k l || (k == l && (ltb_Bool r s || (leb_Bool r s && leb_Bool s r && leb i j)))
