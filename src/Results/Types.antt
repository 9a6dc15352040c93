-- ===== src/Results/Types.antt =====
-- crates/double_riichi_core/src/results.rs: the data of the results of a hand (a kyoku).
use driichi.Domain.Mode.{GameMode, Seat}
use driichi.Domain.Tile.{Tile}
use driichi.Domain.Roster.{ParticipantId}
use driichi.Prelude.{ℕ, Bool, Option, List, String}
use driichi.Prelude.Int.{ℤ}

pub record YakuValue : Type 0 where
  pub id : ℕ
  pub name : String
  pub han : Option ℕ
  pub yakuman_multiplier : Option ℕ

pub data ScoreLimit : Type 0 where
  mangan haneman baiman sanbaiman counted_yakuman : ScoreLimit

pub data WinEvaluation : Type 0 where
  ordinary : (han fu : ℕ) (limit : Option ScoreLimit) → WinEvaluation
  yakuman : (multiplier : ℕ) → WinEvaluation

pub data ResultMeldKind : Type 0 where
  chi pon daiminkan ankan kakan : ResultMeldKind

pub record ResultMeld : Type 0 where
  pub kind : ResultMeldKind
  pub tiles : List Tile
  pub opened : Bool
  pub from_who : Option Seat
  pub called_tile : Option Tile

pub record WinResult : Type 0 where
  pub event_index : ℕ
  pub winner : ParticipantId
  pub seat : Seat
  pub target : Seat
  pub tsumo : Bool
  pub concealed : List Tile
  pub melds : List ResultMeld
  pub winning_tile : Tile
  pub winning_tile_index : ℕ
  pub yaku : List YakuValue
  pub evaluation : WinEvaluation
  pub win_points : ℕ

pub record ScoreChange : Type 0 where
  pub participant_id : ParticipantId
  pub seat : Seat
  pub before : ℤ
  pub delta : ℤ
  pub after : ℤ

pub record KyokuSettlement : Type 0 where
  pub changes : List ScoreChange
  pub pot_before : ℕ
  pub pot_after : ℕ
  pub draw_reason : Option String

pub record KyokuResultRecord : Type 0 where
  pub version : ℕ
  pub kyoku_sequence : ℕ
  pub mode : GameMode
  pub end_event_index : ℕ
  pub wins : List WinResult
  pub settlement : KyokuSettlement
  pub draw_event_delta_adjustment : Option (List ℤ)

pub record PublishedKyokuResults : Type 0 where
  pub kyoku_sequence : ℕ
  pub wins : List WinResult
  pub settlement : Option KyokuSettlement
