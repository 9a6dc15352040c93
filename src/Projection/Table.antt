-- ===== src/Projection/Table.antt =====
-- crates/double_riichi_core/src/projection.rs: the complete state of a table, and its checks.
use driichi.Domain.Mode.{GameMode, Seat, Wind, seat_count}
use driichi.Domain.Tile.{Tile, is_valid_for}
use driichi.Domain.Roster.{Participant}
use driichi.Decision.Types.{Decision}
use driichi.Prelude.{
  ℕ, suc, Bool, false, not, Option, none, some, List, [], ◌∷◌, ◌++◌, ◌==◌, find, length, Outcome,
  ok, err, reject_if, ◌>>◌,
}
use driichi.Prelude.Int.{ℤ}

pub record MeldState : Type 0 where
  pub tiles : List Tile
  pub opened : Bool
  pub from_who : Option Seat
  pub called_tile : Option Tile

pub record TablePlayerState : Type 0 where
  pub seat : Seat
  pub participant : Participant
  pub score : ℤ
  pub hand : List Tile
  pub discards : List Tile
  pub melds : List MeldState
  pub riichi : Bool
  pub riichi_discard_index : Option ℕ

unfoldable pub new_player : Seat → Participant → ℤ → List Tile → TablePlayerState
new_player seat participant score hand = record {
  seat = seat;
  participant = participant;
  score = score;
  hand = hand;
  discards = [];
  melds = [];
  riichi = false;
  riichi_discard_index = none;
}

pub record TableState : Type 0 where
  pub mode : GameMode
  pub players : List TablePlayerState
  pub dora_indicators : List Tile
  pub round : Option Wind
  pub kyoku : Option ℕ
  pub dealer : Option Seat
  pub honba : Option ℕ
  pub kyotaku : Option ℕ
  pub remaining_wall : Option ℕ
  pub decision : Option Decision

pub data ProjectionError : Type 0 where
  invalid_player_count : (mode : GameMode) (expected actual : ℕ) → ProjectionError
  invalid_seat : Seat → ProjectionError
  invalid_tile : (mode : GameMode) (tile : Tile) → ProjectionError

unfoldable pub meld_tiles : List MeldState → List Tile
meld_tiles [] = []
meld_tiles (m ∷ ms) = m.tiles ++ meld_tiles ms

-- The first tile that the mode does not have is the error.
unfoldable pub check_tiles : GameMode → List Tile → Outcome ProjectionError (Unit {0})
check_tiles mode tiles = elim (find (λ t. not (is_valid_for t mode)) tiles) [
  | none ↦ ok tt
  | some tile ↦ err (invalid_tile mode tile)
]

unfoldable pub check_players :
    GameMode → ℕ → List TablePlayerState → Outcome ProjectionError (Unit {0})
check_players mode index [] = ok tt
check_players mode index (p ∷ ps) = do
  reject_if (not (p.seat == index)) (invalid_seat p.seat)
  check_tiles mode (p.hand ++ (p.discards ++ meld_tiles p.melds))
  check_players mode (suc index) ps

unfoldable pub new_table :
    GameMode → List TablePlayerState → List Tile → Outcome ProjectionError TableState
new_table mode players dora_indicators = do
  reject_if (not (length players == seat_count mode))
      (invalid_player_count mode (seat_count mode) (length players))
  check_players mode 0 players
  check_tiles mode dora_indicators
  ok (record {
    mode = mode;
    players = players;
    dora_indicators = dora_indicators;
    round = none;
    kyoku = none;
    dealer = none;
    honba = none;
    kyotaku = none;
    remaining_wall = none;
    decision = none;
  })

-- `zip` ends with the shorter list.
unfoldable pub zip_hands : List (Seat × Participant × ℤ) → List (List Tile) → List TablePlayerState
zip_hands [] hands = []
zip_hands (p ∷ ps) [] = []
zip_hands ((seat, participant, score) ∷ ps) (hand ∷ hands) =
    new_player seat participant score hand ∷ zip_hands ps hands

unfoldable pub from_hands :
    GameMode → List (Seat × Participant × ℤ) → List (List Tile) → Outcome ProjectionError TableState
from_hands mode players hands = new_table mode (zip_hands players hands) []

unfoldable pub with_round_data : TableState → Wind → ℕ → Seat → ℕ → ℕ → ℕ → TableState
with_round_data s round kyoku dealer honba kyotaku remaining_wall = record s {
  round = some round;
  kyoku = some kyoku;
  dealer = some dealer;
  honba = some honba;
  kyotaku = some kyotaku;
  remaining_wall = some remaining_wall;
}

unfoldable pub with_scores : List TablePlayerState → List ℤ → List TablePlayerState
with_scores [] scores = []
with_scores (p ∷ ps) [] = p ∷ ps
with_scores (p ∷ ps) (score ∷ scores) = record p { score = score } ∷ with_scores ps scores

unfoldable pub with_settlement_state : TableState → List ℤ → ℕ → TableState
with_settlement_state s scores pot = record s {
  players = with_scores s.players scores;
  kyotaku = some pot;
}

unfoldable pub with_decision : TableState → Decision → TableState
with_decision s decision = record s { decision = some decision }
