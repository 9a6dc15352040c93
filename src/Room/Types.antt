-- ===== src/Room/Types.antt =====
-- crates/double_riichi_core/src/room.rs: the data of a room's participants, and its errors.
use driichi.Domain.Mode.{Seat}
use driichi.Domain.Roster.{ParticipantId, ParticipantKind, Participant}
use driichi.Decision.Clock.{Instant}
use driichi.Decision.Types.{Presence}
use driichi.Prelude.{ℕ, Bool, true, false, Option, String}

pub data PermanentAutoReason : Type 0 where
  left_during_match kicked agent_left token_revoked connection_lost bot_seat : PermanentAutoReason

pub data RoomController : Type 0 where
  interactive : RoomController
  temporary_auto : RoomController
  permanent_auto : PermanentAutoReason → RoomController

pub data MatchRole : Type 0 where
  no_role : MatchRole
  player : Seat → MatchRole
  spectator : MatchRole

-- A `MatchId` is its text.
abbrev pub MatchId : Type 0
MatchId = String

pub data RoomPhase : Type 0 where
  lobby : RoomPhase
  playing : MatchId → RoomPhase
  post_match : MatchId → RoomPhase

unfoldable pub is_lobby : RoomPhase → Bool
is_lobby lobby = true
is_lobby _ = false

unfoldable pub is_playing : RoomPhase → Bool
is_playing (playing _) = true
is_playing _ = false

unfoldable pub is_post_match : RoomPhase → Bool
is_post_match (post_match _) = true
is_post_match _ = false

unfoldable pub is_player : MatchRole → Bool
is_player (player _) = true
is_player _ = false

unfoldable pub is_permanent : RoomController → Bool
is_permanent (permanent_auto _) = true
is_permanent _ = false

unfoldable pub is_connected : Presence → Bool
is_connected Presence.connected = true
is_connected Presence.disconnected = false

pub record ParticipantState : Type 0 where
  pub participant : Participant
  pub character_id : String
  pub token_id : Option String
  pub presence : Presence
  pub selected : Bool
  pub ready : Bool
  pub role : MatchRole
  pub controller : RoomController
  pub disconnected_at : Option Instant
  pub remove_after_match : Bool

pub record RoomParticipantSnapshot : Type 0 where
  pub id : ParticipantId
  pub display_name : String
  pub kind : ParticipantKind
  pub character_id : String
  pub presence : Presence
  pub selected : Bool
  pub ready : Bool
  pub role : MatchRole
  pub controller : RoomController

unfoldable pub snapshot : ParticipantState → RoomParticipantSnapshot
snapshot p = record {
  id = p.participant.id;
  display_name = p.participant.display_name;
  kind = p.participant.kind;
  character_id = p.character_id;
  presence = p.presence;
  selected = p.selected;
  ready = p.ready;
  role = p.role;
  controller = p.controller;
}

pub record MatchPlayerSnapshot : Type 0 where
  pub participant_id : ParticipantId
  pub display_name : String
  pub kind : ParticipantKind
  pub seat : Seat
  pub character_id : Option String
  pub controller : RoomController

pub data BenchmarkStatus : Type 0 where
  running completed stopped failed : BenchmarkStatus

pub record BenchmarkProgress : Type 0 where
  pub run_id : String
  pub target : ℕ
  pub completed_matches : ℕ
  pub stop_requested : Bool
  pub status : BenchmarkStatus

unfoldable pub is_running : BenchmarkStatus → Bool
is_running running = true
is_running _ = false

pub data RoomError : Type 0 where
  busy closed deleted shutting_down invalid_identifier invalid_join_code : RoomError
  invalid_room_name room_full invalid_participant_limit duplicate_participant : RoomError
  participant_not_found : ParticipantId → RoomError
  disconnected not_selected already_selected no_seat invalid_character : RoomError
  preload_incomplete ready_not_allowed not_ready not_lobby already_playing : RoomError
  not_playing delete_while_playing not_enough_players rematch_unavailable : RoomError
  benchmark_unavailable controller_not_interactive persistence : RoomError
  match_failed : String → RoomError
