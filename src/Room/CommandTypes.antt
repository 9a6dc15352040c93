-- ===== src/Room/CommandTypes.antt =====
-- crates/double_riichi_core/src/room.rs: the commands that a room receives, and its answers.
use driichi.Domain.Mode.{GameMode}
use driichi.Domain.Roster.{ParticipantId, Participant}
use driichi.Decision.Clock.{TimeControl}
use driichi.Decision.Types.{DecisionId, ActionId}
use driichi.Room.Types.{RoomParticipantSnapshot}
use driichi.Prelude.{ℕ, Bool, true, false, Option, List, String}

pub data ShutdownMode : Type 0 where
  graceful forced : ShutdownMode

pub record ResultStepId : Type 0 where
  pub match_id : String
  pub kyoku_sequence : ℕ
  pub step_index : ℕ

pub data RoomCommand : Type 0 where
  join : Participant → Option String → Option String → RoomCommand
  select : ParticipantId → Option String → RoomCommand
  deselect : ParticipantId → RoomCommand
  fill_with_bots add_benchmark_bot : RoomCommand
  start_benchmark : String → ℕ → RoomCommand
  stop_benchmark : RoomCommand
  set_mode : GameMode → RoomCommand
  set_room_name : String → RoomCommand
  set_time_control : TimeControl → RoomCommand
  set_replay_save : Bool → RoomCommand
  set_max_participants : ℕ → RoomCommand
  configure :
      Option String → Option GameMode → Option TimeControl → Option Bool → Option ℕ → RoomCommand
  set_ready : ParticipantId → List String → RoomCommand
  disconnect : ParticipantId → RoomCommand
  reconnect : ParticipantId → RoomCommand
  reconnect_agent : ParticipantId → String → RoomCommand
  persistence_failed : RoomCommand
  persistence_completed : Bool → RoomCommand
  tick : RoomCommand
  leave : ParticipantId → RoomCommand
  kick : ParticipantId → RoomCommand
  revoke_token : String → RoomCommand
  back_to_lobby delete start : RoomCommand
  submit_action : ParticipantId → DecisionId → ActionId → RoomCommand
  confirm_result : ParticipantId → ResultStepId → RoomCommand
  rematch : RoomCommand
  shutdown : ShutdownMode → RoomCommand
  get_snapshot get_match_events : RoomCommand
  get_match_view : ParticipantId → RoomCommand
  get_public_match_view : RoomCommand
  get_history_projection : ParticipantId → RoomCommand
  get_public_history_projection : RoomCommand
  get_projection : ParticipantId → RoomCommand
  get_public_projection get_benchmark_admin_projection : RoomCommand

-- The answers to the commands that change the state alone. An accepted command returns the snapshot
-- of the state that it leaves, which is not repeated here.
pub data RoomResponse : Type 0 where
  joined : RoomParticipantSnapshot → RoomResponse
  accepted : RoomResponse
  deleted : RoomResponse

-- The commands that a benchmark's run shuts out.
unfoldable pub is_barred_by_benchmark : RoomCommand → Bool
is_barred_by_benchmark (RoomCommand.join _ _ _) = true
is_barred_by_benchmark (RoomCommand.select _ _) = true
is_barred_by_benchmark (RoomCommand.deselect _) = true
is_barred_by_benchmark RoomCommand.add_benchmark_bot = true
is_barred_by_benchmark (RoomCommand.configure _ _ _ _ _) = true
is_barred_by_benchmark (RoomCommand.set_mode _) = true
is_barred_by_benchmark (RoomCommand.set_room_name _) = true
is_barred_by_benchmark (RoomCommand.set_time_control _) = true
is_barred_by_benchmark (RoomCommand.set_replay_save _) = true
is_barred_by_benchmark (RoomCommand.set_max_participants _) = true
is_barred_by_benchmark _ = false
