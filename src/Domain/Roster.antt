-- ===== src/Domain/Roster.antt =====
-- crates/double_riichi_core/src/domain.rs: participants, and how a match ends.
use driichi.Domain.Mode.{GameMode, Seat}
use driichi.Prelude.{ℕ, Bool, true, false, List, String}
use driichi.Prelude.Int.{ℤ}

-- `ParticipantId` is its text.
abbrev pub ParticipantId : Type 0
ParticipantId = String

pub data ParticipantKind : Type 0 where
  human mjai mcp built_in_bot : ParticipantKind

pub record Participant : Type 0 where
  pub id : ParticipantId
  pub display_name : String
  pub kind : ParticipantKind

pub record MatchPlayerResult : Type 0 where
  pub participant_id : ParticipantId
  pub display_name : String
  pub kind : ParticipantKind
  pub seat : Seat
  pub final_score : ℤ
  pub rank : ℕ

pub record MatchResult : Type 0 where
  pub mode : GameMode
  pub players : List MatchPlayerResult
  pub final_scores : List ℤ

pub record MatchAbort : Type 0 where
  pub reason : String

pub data MatchStatus : Type 0 where
  running : MatchStatus
  completed : MatchResult → MatchStatus
  aborted : MatchAbort → MatchStatus

unfoldable pub kind_eq : ParticipantKind → ParticipantKind → Bool
kind_eq human human = true
kind_eq mjai mjai = true
kind_eq mcp mcp = true
kind_eq built_in_bot built_in_bot = true
kind_eq _ _ = false
