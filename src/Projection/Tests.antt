-- ===== src/Projection/Tests.antt =====
-- Tests of tables and projections, and the theorems at concrete tables.
use driichi.Domain.Mode.{three_player_red_east, seat_count, Seat, is_three_player}
use driichi.Domain.Tile.{Tile, is_valid_for, tile_type}
use driichi.Domain.Roster.{Participant, human}
use driichi.Decision.Types.{Decision, turn}
use driichi.Projection.Table.{
  MeldState, TablePlayerState, TableState, new_table, check_players, check_tiles, meld_tiles,
  with_settlement_state, with_decision,
}
use driichi.Projection.Views.{project_table_state, player, reveals}
use driichi.Projection.Hiding.{Hidden, SameFor, SameMeld, SamePlayer, project_table_state-hides}
use driichi.Projection.Checks.{IsTable, new_table-IsTable}
use driichi.Prelude.{
  arith, ◌≡◌, refl, ◌⊎◌, length, false, none, List, [], ◌∷◌, String, inl, inr, ok,
}
use driichi.Prelude.Int.{pos}

abbrev guest : String → Participant
guest id = record { id = id; display_name = id; kind = human }

abbrev closed : List Tile → MeldState
closed kan = record { tiles = kan; opened = false; from_who = none; called_tile = none }

-- A seat with a closed kan.
abbrev seated : Seat → List Tile → List Tile → TablePlayerState
seated seat hand kan = record {
  seat = seat;
  participant = guest "guest";
  score = pos 35000;
  hand = hand;
  discards = 40 ∷ [];
  melds = closed kan ∷ [];
  riichi = false;
  riichi_discard_index = none;
}

abbrev table : List Tile → List Tile → TableState
table hand kan = record {
  mode = three_player_red_east;
  players = seated 0 (0 ∷ 1 ∷ []) [] ∷ seated 1 hand kan ∷ seated 2 (2 ∷ 3 ∷ []) [] ∷ [];
  dora_indicators = 50 ∷ [];
  round = none;
  kyoku = none;
  dealer = none;
  honba = none;
  kyotaku = none;
  remaining_wall = none;
  decision = none;
}

table_built :
    new_table three_player_red_east (table (60 ∷ []) []).players (50 ∷ []) ≡ ok (table (60 ∷ []) [])
unfolding new_table check_players check_tiles meld_tiles is_valid_for is_three_player tile_type
    seat_count
table_built = refl

abbrev decision : Decision
decision = record {
  id = "d1";
  kind = turn;
  entries = [];
  opened_at = 0;
  duration = none;
  deadline = none;
  watchdog = false;
  is_closed = false;
}

new_table-IsTable_example :
    IsTable (table (60 ∷ []) [])
    × IsTable (with_settlement_state (table (60 ∷ []) []) (pos 1 ∷ []) 2)
    × IsTable (with_decision (table (60 ∷ []) []) decision)
new_table-IsTable_example =
    new_table-IsTable three_player_red_east (table (60 ∷ []) []).players (50 ∷ [])
      (table (60 ∷ []) []) (pos 1 ∷ []) 2 decision table_built

alike :
    (seat : Seat) (hand other kan other_kan : List Tile)
    → (hand ≡ other) ⊎ Hidden (player 0) seat
    → length hand ≡ length other
    → SameMeld (player 0) seat (closed kan) (closed other_kan)
    → SamePlayer (player 0) (seated seat hand kan) (seated seat other other_kan)
alike seat hand other kan other_kan seen as_long melds = record {
  seat = refl;
  participant = refl;
  score = refl;
  hand = seen;
  hand_size = as_long;
  discards = refl;
  melds = (melds, tt);
  riichi = refl;
  riichi_discard_index = refl;
}

-- To the player of seat 0, another's hand of the same size and another closed kan look the same.
look_same :
    SameFor
      (player 0)
      (table (60 ∷ []) (64 ∷ 65 ∷ 66 ∷ 67 ∷ []))
      (table (70 ∷ []) (80 ∷ 81 ∷ 82 ∷ 83 ∷ []))
unfolding reveals
look_same = record {
  mode = refl;
  players = (
    alike 0 (0 ∷ 1 ∷ []) (0 ∷ 1 ∷ []) [] [] (inl refl) refl (inl refl),
    (
      alike 1 (60 ∷ []) (70 ∷ []) (64 ∷ 65 ∷ 66 ∷ 67 ∷ []) (80 ∷ 81 ∷ 82 ∷ 83 ∷ [])
          (inr (λ e. absurd (omega (arith, e)))) refl
          (inr ((λ e. absurd (omega (arith, e))), refl, refl)),
      (alike 2 (2 ∷ 3 ∷ []) (2 ∷ 3 ∷ []) [] [] (inl refl) refl (inl refl), tt),
    ),
  );
  dora_indicators = refl;
  round = refl;
  kyoku = refl;
  dealer = refl;
  honba = refl;
  kyotaku = refl;
  remaining_wall = refl;
  decision = tt;
}

project_table_state-hides_example :
    project_table_state (table (60 ∷ []) (64 ∷ 65 ∷ 66 ∷ 67 ∷ [])) (player 0) 9
    ≡ project_table_state (table (70 ∷ []) (80 ∷ 81 ∷ 82 ∷ 83 ∷ [])) (player 0) 9
project_table_state-hides_example =
    project_table_state-hides (player 0) (table (60 ∷ []) (64 ∷ 65 ∷ 66 ∷ 67 ∷ []))
      (table (70 ∷ []) (80 ∷ 81 ∷ 82 ∷ 83 ∷ [])) 9 look_same
