-- ===== src/Room/Commands.antt =====
-- crates/double_riichi_core/src/room.rs: the commands that a room's actor applies to the state alone.
use driichi.Domain.Roster.{Participant, built_in_bot}
use driichi.Decision.Clock.{TimeControl, Instant}
use driichi.Room.Names.{normalize_name}
use driichi.Room.Types.{
  RoomParticipantSnapshot, is_lobby, is_playing, RoomError, closed, deleted, invalid_room_name,
  not_lobby, delete_while_playing, benchmark_unavailable, match_failed,
}
use driichi.Room.State.{Parts, RoomState, bump_revision}
use driichi.Room.Lobby.{add_participant, select, deselect, set_mode, configure, set_ready}
use driichi.Room.Bots.{fill_with_bots}
use driichi.Room.Match.{disconnected_cleanup, back_to_lobby}
use driichi.Room.CommandTypes.{RoomCommand, RoomResponse, is_barred_by_benchmark}
use driichi.Room.Leaving.{
  Effect, disconnect_participant, reconnect_participant, leave, kick, revoke_token,
}
use driichi.Prelude.{
  ◌+◌, Bool, true, false, not, ◌&&◌, ◌||◌, none, some, String, is_some, if◌then◌else◌, Outcome, ok,
  err, panic, reject_if, ok_or, ◌>>=◌, ◌>>◌,
}
use driichi.Prelude.Decimal.{decimal, cat}

abbrev pub Applied : Parts → Type 0
Applied P = RoomState P × Outcome RoomError RoomResponse

module _ {P : Parts} where
  -- An operation that makes its checks before its first write.
  unfoldable pub checked : RoomState P → Outcome RoomError (RoomState P) → Applied P
  checked s (ok s') = (s', ok RoomResponse.accepted)
  checked s (err e) = (s, err e)
  checked s panic = (s, panic)

  unfoldable pub joins :
      RoomState P → Outcome RoomError (RoomState P × RoomParticipantSnapshot) → Applied P
  joins s (ok (s', shown)) = (s', ok (RoomResponse.joined shown))
  joins s (err e) = (s, err e)
  joins s panic = (s, panic)

  unfoldable pub answered : Effect P → Applied P
  answered (s, ok _) = (s, ok RoomResponse.accepted)
  answered (s, err e) = (s, err e)
  answered (s, panic) = (s, panic)

  abbrev pub benchmark_bot : RoomState P → Participant
  benchmark_bot s = record {
    id = cat "benchmark-bot-" (decimal (s.revision + 1));
    display_name = "Built-in Bot";
    kind = built_in_bot;
  }

  unfoldable pub add_benchmark_bot :
      RoomState P → Outcome RoomError (RoomState P × RoomParticipantSnapshot)
  add_benchmark_bot s = do
    reject_if (not s.config.benchmark || not (is_lobby s.phase)) benchmark_unavailable
    add_participant s (benchmark_bot s) none none

  unfoldable pub rename : RoomState P → String → Outcome RoomError (RoomState P)
  rename s room_name = do
    reject_if (not (is_lobby s.phase)) not_lobby
    name ← ok_or (normalize_name room_name) invalid_room_name
    ok (bump_revision (record s { config = record (s.config) { room_name = name } }))

  unfoldable pub change_time_control : RoomState P → TimeControl → Outcome RoomError (RoomState P)
  change_time_control s time_control = do
    reject_if (not (is_lobby s.phase)) not_lobby
    ok (bump_revision (record s { config = record (s.config) { time_control = time_control } }))

  unfoldable pub change_replay_save : RoomState P → Bool → Outcome RoomError (RoomState P)
  change_replay_save s enabled = do
    reject_if (s.config.benchmark && not enabled) benchmark_unavailable
    reject_if (not (is_lobby s.phase)) not_lobby
    ok (
        bump_revision (record s {
          config = record (s.config) { replay_save = enabled };
          replay_available = enabled;
        }))

  unfoldable pub degrade : RoomState P → RoomState P
  degrade s = bump_revision (record s { persistence_degraded = true; replay_available = false })

  unfoldable pub delete_room : RoomState P → Applied P
  delete_room s =
      if is_playing s.phase
      then (s, err delete_while_playing)
      else (bump_revision (record s { is_deleted = true }), ok RoomResponse.deleted)

  unfoldable pub apply_command : RoomState P → Instant → RoomCommand → Applied P
  apply_command s now (RoomCommand.join participant character_id token_id) =
      joins s (add_participant s participant character_id token_id)
  apply_command s now (RoomCommand.select participant_id character_id) =
      checked s (select s participant_id character_id)
  apply_command s now (RoomCommand.deselect participant_id) = checked s (deselect s participant_id)
  apply_command s now RoomCommand.fill_with_bots =
      if s.config.benchmark then (s, err benchmark_unavailable) else answered (fill_with_bots s)
  apply_command s now RoomCommand.add_benchmark_bot = joins s (add_benchmark_bot s)
  apply_command s now (RoomCommand.set_mode mode) = checked s (set_mode s mode)
  apply_command s now (RoomCommand.set_room_name room_name) = checked s (rename s room_name)
  apply_command s now (RoomCommand.set_time_control time_control) =
      checked s (change_time_control s time_control)
  apply_command s now (RoomCommand.set_replay_save enabled) =
      checked s (change_replay_save s enabled)
  apply_command s now (RoomCommand.set_max_participants limit) =
      checked s (configure s none none none none (some limit))
  apply_command s now (RoomCommand.configure room_name mode time_control replay_save limit) =
      checked s (configure s room_name mode time_control replay_save limit)
  apply_command s now (RoomCommand.set_ready participant_id preloaded) =
      checked s (set_ready s participant_id preloaded)
  apply_command s now (RoomCommand.disconnect participant_id) =
      answered (disconnect_participant s participant_id now)
  apply_command s now (RoomCommand.reconnect participant_id) =
      answered (reconnect_participant s participant_id none)
  apply_command s now (RoomCommand.reconnect_agent participant_id token_id) =
      answered (reconnect_participant s participant_id (some token_id))
  apply_command s now RoomCommand.persistence_failed = (degrade s, ok RoomResponse.accepted)
  apply_command s now (RoomCommand.persistence_completed false) =
      (degrade s, ok RoomResponse.accepted)
  apply_command s now (RoomCommand.persistence_completed true) = (s, ok RoomResponse.accepted)
  apply_command s now RoomCommand.tick = ((disconnected_cleanup s now).0, ok RoomResponse.accepted)
  apply_command s now (RoomCommand.leave participant_id) = answered (leave s participant_id)
  apply_command s now (RoomCommand.kick participant_id) = answered (kick s participant_id)
  apply_command s now (RoomCommand.revoke_token token_id) = answered (revoke_token s token_id)
  apply_command s now RoomCommand.back_to_lobby =
      if s.config.benchmark then (s, err benchmark_unavailable) else checked s (back_to_lobby s now)
  apply_command s now RoomCommand.delete = delete_room s
  apply_command s now RoomCommand.get_snapshot = (s, ok RoomResponse.accepted)
  apply_command s now _ = (s, err (match_failed "actor-only command"))

  unfoldable pub apply_simple : RoomState P → Instant → RoomCommand → Applied P
  apply_simple s now command =
      if s.is_deleted
      then (s, err deleted)
      else if s.is_shutting_down
      then (s, err closed)
      else if is_some s.benchmark && is_barred_by_benchmark command
      then (s, err benchmark_unavailable)
      else apply_command s now command
