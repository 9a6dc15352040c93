-- ===== src/Domain/Tests.antt =====
-- Tests of the vocabulary, and its theorems at concrete values.
use mathlib.Core.List.{Perm}
use driichi.Domain.Mode.{
  four_player_red_half, three_player_red_east, as_str, from_str, seat_count, west, wind_from_index,
  new_seat, all_seats,
}
use driichi.Domain.ModeName.{from_str-as_str}
use driichi.Domain.Tile.{
  from_id, is_valid_for, canonical_order, canonical_key, key_le, type_from_index, is_red,
}
use driichi.Domain.TileOrder.{In-canonical_order, canonical_order-increasing}
use driichi.Domain.Action.{GameAction, chi, canonicalize, sort_by_key}
use driichi.Domain.Canonical.{consumed, canonicalize-eq_iff}
use driichi.Domain.Event.{end_game, kind}
use driichi.Prelude.{◌<◌, ◌≡◌, ◌↔◌, refl, true, false, none, some, [], ◌∷◌, In, arith}

parses_name : from_str "4p-red-half" ≡ some four_player_red_half
unfolding from_str
parses_name = refl

refuses_name : from_str "5p" ≡ none
unfolding from_str
refuses_name = refl

winds_wrap : wind_from_index 6 ≡ west
unfolding wind_from_index
winds_wrap = refl

no_fifth_seat : new_seat 4 ≡ none
unfolding new_seat
no_fifth_seat = refl

three_seats : all_seats three_player_red_east ≡ 0 ∷ 1 ∷ 2 ∷ []
unfolding all_seats seat_count
three_seats = refl

no_tile : (from_id 136 ≡ none) × (type_from_index 34 ≡ none)
unfolding from_id type_from_index
no_tile = (refl, refl)

red_last : sort_by_key (16 ∷ 19 ∷ 17 ∷ []) ≡ 17 ∷ 19 ∷ 16 ∷ []
unfolding sort_by_key key_le canonical_key is_red
red_last = refl

event_name : kind end_game ≡ "end_game"
unfolding kind
event_name = refl

from_str-as_str_example :
    (from_str "3p-red-east" ≡ some three_player_red_east)
    ↔ ("3p-red-east" ≡ as_str three_player_red_east)
from_str-as_str_example = from_str-as_str "3p-red-east" three_player_red_east

In-canonical_order_example :
    In 88 (canonical_order three_player_red_east)
    ↔ ((88 < 136) × (is_valid_for 88 three_player_red_east ≡ true))
In-canonical_order_example = In-canonical_order three_player_red_east 88

canonical_order-increasing_example :
    (key_le (canonical_key 17) (canonical_key 16) ≡ true)
    × (key_le (canonical_key 16) (canonical_key 17) ≡ false)
unfolding canonical_order is_valid_for is_red
canonical_order-increasing_example =
    canonical_order-increasing four_player_red_half 16 19 17 16 (omega arith) refl refl

abbrev called : GameAction
called = chi 0 8 (16 ∷ 12 ∷ [])

canonicalize-eq_iff_example :
    (canonicalize called ≡ canonicalize (chi 0 8 (12 ∷ 16 ∷ [])))
    ↔ ((chi 0 8 [] ≡ chi 0 8 []) × Perm (consumed called) (12 ∷ 16 ∷ []))
canonicalize-eq_iff_example = canonicalize-eq_iff called (chi 0 8 (12 ∷ 16 ∷ []))
