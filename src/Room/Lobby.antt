-- ===== src/Room/Lobby.antt =====
-- crates/double_riichi_core/src/room.rs: joining a room, choosing seats and settings. Each of these
-- operations makes all of its checks before its first write, so an error returns no new state.
use driichi.Domain.Mode.{GameMode, is_three_player, seat_count, mode_eq}
use driichi.Domain.Roster.{
  ParticipantId, Participant, ParticipantKind, human, mjai, built_in_bot, kind_eq,
}
use driichi.Decision.Clock.{TimeControl}
use driichi.Decision.Types.{Presence}
use driichi.Room.Catalog.{default_for, valid_for, default_max_participants}
use driichi.Room.Names.{normalize_name}
use driichi.Room.Types.{
  ParticipantState, RoomParticipantSnapshot, snapshot, RoomController, MatchRole, no_role,
  spectator, is_lobby, is_playing, is_post_match, is_connected, RoomError, room_full,
  invalid_participant_limit, duplicate_participant, participant_not_found, disconnected,
  not_selected, already_selected, no_seat, invalid_character, preload_incomplete, ready_not_allowed,
  not_lobby, invalid_room_name, benchmark_unavailable,
}
use driichi.Room.Table.{
  Participants, get, contains_key, insert, update, change_all, any_value, all_values, count_values,
}
use driichi.Room.State.{Parts, RoomState, bump_revision}
use driichi.Prelude.{
  ℕ, Bool, true, false, not, ◌&&◌, ◌||◌, Option, none, some, List, String, str_eq, ltb, leb, any,
  if◌then◌else◌, length, Outcome, ok, reject_if, ok_or, ◌>>=◌, ◌>>◌,
}

abbrev pub is_selected : ParticipantState → Bool
is_selected p = p.selected

abbrev pub is_kind : ParticipantKind → ParticipantState → Bool
is_kind kind p = kind_eq p.participant.kind kind

abbrev pub or_default {ℓ} : {A : Type ℓ} → Option A → A → A
or_default none a = a
or_default (some b) a = b

abbrev pub or_else {ℓ} : {A : Type ℓ} → Option A → Option A → Option A
or_else none later = later
or_else (some a) later = some a

-- A participant as it joins.
unfoldable pub joined : Participant → String → Option String → MatchRole → ParticipantState
joined participant character_id token_id role = record {
  participant = participant;
  character_id = character_id;
  token_id = token_id;
  presence = Presence.connected;
  selected = false;
  ready = false;
  role = role;
  controller = RoomController.interactive;
  disconnected_at = none;
  remove_after_match = false;
}

unfoldable pub deselected : ParticipantState → ParticipantState
deselected p = record p { selected = false; ready = false; role = no_role }

unfoldable pub unready_human : ParticipantState → ParticipantState
unready_human p = if p.selected && is_kind human p then record p { ready = false } else p

unfoldable pub chosen : Option String → ParticipantState → ParticipantState
chosen none p = record p { selected = true }
chosen (some character_id) p = record p { character_id = character_id; selected = true }

abbrev pub set_to_ready : ParticipantState → ParticipantState
set_to_ready p = record p { ready = true }

-- The new name of a configuration, if one is given.
unfoldable pub target_name : Option String → Outcome RoomError (Option String)
target_name none = ok none
target_name (some value) = do name ← ok_or (normalize_name value) invalid_room_name; ok (some name)

module _ {P : Parts} where
  unfoldable pub three_player_room : RoomState P → Bool
  three_player_room s = is_three_player s.config.mode

  unfoldable pub with_participants : RoomState P → Participants → RoomState P
  with_participants s ps = record s { participants = ps }

  unfoldable pub add_participant :
      RoomState P
      → Participant
      → Option String
      → Option String
      → Outcome RoomError (RoomState P × RoomParticipantSnapshot)
  add_participant s participant character_id token_id = do
    reject_if (contains_key participant.id s.participants) duplicate_participant
    reject_if (s.config.benchmark && (kind_eq participant.kind human || not (is_lobby s.phase)))
        benchmark_unavailable
    reject_if (three_player_room s && kind_eq participant.kind mjai) invalid_character
    reject_if (leb s.config.max_participants (length s.participants)) room_full
    character ←
        ok_or (or_else character_id (default_for s.config.character_catalog participant.kind))
          invalid_character
    reject_if (not (valid_for s.config.character_catalog character participant.kind))
        invalid_character
    let role = if is_playing s.phase || is_post_match s.phase then spectator else no_role
    let p = joined participant character token_id role
    let ps = insert participant.id p s.participants
    ok (bump_revision (record s { participants = ps; empty_since = none }), snapshot p)

  unfoldable pub clear_selected_human_ready : RoomState P → RoomState P
  clear_selected_human_ready s = record s { participants = change_all unready_human s.participants }

  unfoldable pub valid_choice : RoomState P → Option String → ParticipantKind → Bool
  valid_choice s none kind = true
  valid_choice s (some character_id) kind = valid_for s.config.character_catalog character_id kind

  unfoldable pub select :
      RoomState P → ParticipantId → Option String → Outcome RoomError (RoomState P)
  select s participant_id character_id = do
    reject_if (not (is_lobby s.phase)) not_lobby
    p ← ok_or (get participant_id s.participants) (participant_not_found participant_id)
    reject_if (not (is_connected p.presence) && not (is_kind built_in_bot p)) disconnected
    reject_if p.selected already_selected
    reject_if (three_player_room s && is_kind mjai p) invalid_character
    reject_if (leb (seat_count s.config.mode) (count_values is_selected s.participants)) no_seat
    reject_if (not (valid_choice s character_id p.participant.kind)) invalid_character
    let ps = update participant_id (chosen character_id) s.participants
    ok (bump_revision (clear_selected_human_ready (with_participants s ps)))

  unfoldable pub deselect : RoomState P → ParticipantId → Outcome RoomError (RoomState P)
  deselect s participant_id = do
    reject_if (not (is_lobby s.phase)) not_lobby
    p ← ok_or (get participant_id s.participants) (participant_not_found participant_id)
    if not p.selected
        then ok s
        else ok (
            bump_revision (
              clear_selected_human_ready
                (with_participants s (update participant_id deselected s.participants))))

  unfoldable pub set_mode : RoomState P → GameMode → Outcome RoomError (RoomState P)
  set_mode s mode = do
    reject_if (not (is_lobby s.phase)) not_lobby
    reject_if (is_three_player mode && any_value (is_kind mjai) s.participants) invalid_character
    let config = record (s.config) { mode = mode }
    ok (
        bump_revision
          (record s { config = config; participants = change_all deselected s.participants }))

  unfoldable pub configure :
      RoomState P
      → Option String
      → Option GameMode
      → Option TimeControl
      → Option Bool
      → Option ℕ
      → Outcome RoomError (RoomState P)
  configure s room_name mode time_control replay_save max_participants = do
    reject_if (not (is_lobby s.phase)) not_lobby
    reject_if (s.config.benchmark && not (or_default replay_save true)) benchmark_unavailable
    name ← target_name room_name
    let target_mode = or_default mode s.config.mode
    reject_if (is_three_player target_mode && any_value (is_kind mjai) s.participants)
        invalid_character
    let target_limit = or_default max_participants s.config.max_participants
    reject_if
        (not
            (leb (seat_count target_mode) target_limit && leb target_limit default_max_participants)
          || ltb target_limit (length s.participants))
        invalid_participant_limit
    let mode_changed = not (mode_eq target_mode s.config.mode)
    let config = record (s.config) {
      room_name = or_default name s.config.room_name;
      mode = target_mode;
      time_control = or_default time_control s.config.time_control;
      replay_save = or_default replay_save s.config.replay_save;
      max_participants = target_limit;
    }
    ok (
        bump_revision (record s {
          config = config;
          replay_available = or_default replay_save s.replay_available;
          participants =
              if mode_changed then change_all deselected s.participants else s.participants;
        }))

  unfoldable pub set_ready :
      RoomState P → ParticipantId → List String → Outcome RoomError (RoomState P)
  set_ready s participant_id preloaded = do
    reject_if (not (is_lobby s.phase || is_post_match s.phase)) not_lobby
    p ← ok_or (get participant_id s.participants) (participant_not_found participant_id)
    reject_if (not (is_kind human p)) ready_not_allowed
    reject_if (not p.selected) not_selected
    reject_if (not (is_connected p.presence)) disconnected
    reject_if
        (not (
          all_values (λ q. not q.selected || any (str_eq q.character_id) preloaded) s.participants))
        preload_incomplete
    ok (bump_revision (with_participants s (update participant_id set_to_ready s.participants)))
