-- ===== src/Domain/Mode.antt =====
-- crates/double_riichi_core/src/domain.rs: match modes, winds and seats.
-- A seat is its index, a `u8`.
use driichi.Prelude.{
  ℕ, zero, suc, ◌%◌, Bool, true, false, Option, none, some, List, [], ◌∷◌, String, str_eq, ltb,
  ◌==◌, if◌then◌else◌,
}

pub data GameMode : Type 0 where
  four_player_red_east four_player_red_half three_player_red_east three_player_red_half : GameMode

-- The derived equality.
unfoldable pub mode_eq : GameMode → GameMode → Bool
mode_eq four_player_red_east four_player_red_east = true
mode_eq four_player_red_half four_player_red_half = true
mode_eq three_player_red_east three_player_red_east = true
mode_eq three_player_red_half three_player_red_half = true
mode_eq _ _ = false

unfoldable pub as_str : GameMode → String
as_str four_player_red_east = "4p-red-east"
as_str four_player_red_half = "4p-red-half"
as_str three_player_red_east = "3p-red-east"
as_str three_player_red_half = "3p-red-half"

unfoldable pub seat_count : GameMode → ℕ
seat_count four_player_red_east = 4
seat_count four_player_red_half = 4
seat_count three_player_red_east = 3
seat_count three_player_red_half = 3

unfoldable pub is_three_player : GameMode → Bool
unfolding seat_count
is_three_player mode = seat_count mode == 3

abbrev pub all_modes : List GameMode
all_modes =
    four_player_red_east ∷ four_player_red_half ∷ three_player_red_east ∷ three_player_red_half ∷ []

-- `none` is `InvalidGameMode`, the one error of this parser.
unfoldable pub from_str : String → Option GameMode
from_str value =
    if str_eq value "4p-red-east"
    then some four_player_red_east
    else if str_eq value "4p-red-half"
    then some four_player_red_half
    else if str_eq value "3p-red-east"
    then some three_player_red_east
    else if str_eq value "3p-red-half"
    then some three_player_red_half
    else none

pub data Wind : Type 0 where
  east south west north : Wind

unfoldable pub wind_from_index : ℕ → Wind
wind_from_index index =
    let r = index % 4 in
    if r == 0 then east else if r == 1 then south else if r == 2 then west else north

abbrev pub Seat : Type 0
Seat = ℕ

-- `Seat::new`, `Seat::from_index` and, with `InvalidSeat` for `none`, `Seat::try_from`.
unfoldable pub new_seat : ℕ → Option Seat
new_seat index = if ltb index 4 then some index else none

abbrev pub range : ℕ → ℕ → List ℕ
range start zero = []
range start (suc n) = start ∷ range (suc start) n

unfoldable pub all_seats : GameMode → List Seat
all_seats mode = range 0 (seat_count mode)
