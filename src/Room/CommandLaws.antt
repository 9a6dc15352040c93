-- ===== src/Room/CommandLaws.antt =====
-- Every command that a room applies, refused or not, keeps the invariant of its participants.
use driichi.Decision.Clock.{TimeControl, Instant}
use driichi.Room.Types.{RoomParticipantSnapshot, RoomError, is_playing}
use driichi.Room.State.{Parts, RoomState, bump_revision}
use driichi.Room.Bots.{fill_with_bots}
use driichi.Room.Leaving.{Effect, leave, kick}
use driichi.Room.CommandTypes.{RoomCommand, is_barred_by_benchmark}
use driichi.Room.Commands.{
  Applied, checked, joins, answered, benchmark_bot, add_benchmark_bot, rename, change_time_control,
  change_replay_save, degrade, delete_room, apply_command, apply_simple,
}
use driichi.Room.Seating.{IsSeated}
use driichi.Room.Invariant.{
  add_participant-IsSeated, select-IsSeated, deselect-IsSeated, set_mode-IsSeated,
  configure-IsSeated, set_ready-IsSeated,
}
use driichi.Room.Filling.{fill_with_bots-Fills}
use driichi.Prelude.{
  ◌≡◌, refl, inl, inr, Bool, true, false, ◌&&◌, none, some, String, is_some, if◌then◌else◌, Outcome,
  ok, err, panic, arith,
}
use driichi.Room.LeavingLaws.{
  depart-IsSeated, revoke_token-IsSeated, disconnect-IsSeated, reconnect-IsSeated, cleanup-IsSeated,
  back_to_lobby-IsSeated,
}

module _ {P : Parts} where
  if-IsSeated :
      (test : Bool) (left right : Applied P)
      → IsSeated left.0
      → IsSeated right.0
      → IsSeated (if test then left else right).0
  if-IsSeated true left right sound other = sound
  if-IsSeated false left right sound other = other

  checked-IsSeated :
      (s : RoomState P) (o : Outcome RoomError (RoomState P))
      → IsSeated s
      → ((s' : RoomState P) → o ≡ ok s' → IsSeated s')
      → IsSeated (checked s o).0
  unfolding checked
  checked-IsSeated s (ok s') sound keeps = keeps s' refl
  checked-IsSeated s (err e) sound keeps = sound
  checked-IsSeated s panic sound keeps = sound

  joins-IsSeated :
      (s : RoomState P) (o : Outcome RoomError (RoomState P × RoomParticipantSnapshot))
      → IsSeated s
      → ((s' : RoomState P) (shown : RoomParticipantSnapshot) → o ≡ ok (s', shown) → IsSeated s')
      → IsSeated (joins s o).0
  unfolding joins
  joins-IsSeated s (ok (s', shown)) sound keeps = keeps s' shown refl
  joins-IsSeated s (err e) sound keeps = sound
  joins-IsSeated s panic sound keeps = sound

  answered-IsSeated : (e : Effect P) → IsSeated e.0 → IsSeated (answered e).0
  unfolding answered
  answered-IsSeated (s, ok _) sound = sound
  answered-IsSeated (s, err _) sound = sound
  answered-IsSeated (s, panic) sound = sound

  module _ (s : RoomState P) (sound : IsSeated s) where
    fill-IsSeated : IsSeated (fill_with_bots s).0
    fill-IsSeated =
        let (s', outcome) = fill_with_bots-Fills s sound in
        elim outcome [
          | inl (e, (kept, full)) ↦ rw e kept
          | inr (why, e, reason) ↦ elim reason [
            | inl (_, _, same) ↦ rw (e, same) sound
            | inr later ↦ elim later [
              | inl (_, _, _, same) ↦ rw (e, same) sound
              | inr (_, _, kept) ↦ rw e kept
            ]
          ]
        ]

    add_benchmark_bot-IsSeated :
        (s' : RoomState P) (shown : RoomParticipantSnapshot)
        → add_benchmark_bot s ≡ ok (s', shown)
        → IsSeated s'
    unfolding add_benchmark_bot
    add_benchmark_bot-IsSeated s' shown h =
        add_participant-IsSeated s s' (benchmark_bot s) none none shown sound (ground arith)

    rename-IsSeated :
        (s' : RoomState P) (room_name : String) → rename s room_name ≡ ok s' → IsSeated s'
    unfolding rename bump_revision
    rename-IsSeated s' room_name h = rw (the_mode, the_limit, the_participants) sound
      where
        the_mode : s'.config.mode ≡ s.config.mode
        the_mode = ground arith

        the_limit : s'.config.max_participants ≡ s.config.max_participants
        the_limit = ground arith

        the_participants : s'.participants ≡ s.participants
        the_participants = ground arith

    change_time_control-IsSeated :
        (s' : RoomState P) (time_control : TimeControl)
        → change_time_control s time_control ≡ ok s'
        → IsSeated s'
    unfolding change_time_control bump_revision
    change_time_control-IsSeated s' time_control h =
        rw (the_mode, the_limit, the_participants) sound
      where
        the_mode : s'.config.mode ≡ s.config.mode
        the_mode = ground arith

        the_limit : s'.config.max_participants ≡ s.config.max_participants
        the_limit = ground arith

        the_participants : s'.participants ≡ s.participants
        the_participants = ground arith

    change_replay_save-IsSeated :
        (s' : RoomState P) (enabled : Bool) → change_replay_save s enabled ≡ ok s' → IsSeated s'
    unfolding change_replay_save bump_revision
    change_replay_save-IsSeated s' enabled h = rw (the_mode, the_limit, the_participants) sound
      where
        the_mode : s'.config.mode ≡ s.config.mode
        the_mode = ground arith

        the_limit : s'.config.max_participants ≡ s.config.max_participants
        the_limit = ground arith

        the_participants : s'.participants ≡ s.participants
        the_participants = ground arith

    delete_room-IsSeated : IsSeated (delete_room s).0
    unfolding delete_room bump_revision
    delete_room-IsSeated = if-IsSeated (is_playing s.phase) _ _ sound sound

    apply_command-IsSeated :
        (now : Instant) (command : RoomCommand) → IsSeated (apply_command s now command).0
    unfolding apply_command degrade bump_revision leave kick
    apply_command-IsSeated now (RoomCommand.join participant character_id token_id) =
        joins-IsSeated s _ sound
          (λ s' shown. add_participant-IsSeated s s' participant character_id token_id shown sound)
    apply_command-IsSeated now (RoomCommand.select participant_id character_id) =
        checked-IsSeated s _ sound (λ s'. select-IsSeated s s' participant_id character_id sound)
    apply_command-IsSeated now (RoomCommand.deselect participant_id) =
        checked-IsSeated s _ sound (λ s'. deselect-IsSeated s s' participant_id sound)
    apply_command-IsSeated now RoomCommand.fill_with_bots =
        if-IsSeated s.config.benchmark _ _ sound
          (answered-IsSeated (fill_with_bots s) fill-IsSeated)
    apply_command-IsSeated now RoomCommand.add_benchmark_bot =
        joins-IsSeated s _ sound add_benchmark_bot-IsSeated
    apply_command-IsSeated now (RoomCommand.set_mode mode) =
        checked-IsSeated s _ sound (λ s'. set_mode-IsSeated s s' mode sound)
    apply_command-IsSeated now (RoomCommand.set_room_name room_name) =
        checked-IsSeated s _ sound (λ s'. rename-IsSeated s' room_name)
    apply_command-IsSeated now (RoomCommand.set_time_control time_control) =
        checked-IsSeated s _ sound (λ s'. change_time_control-IsSeated s' time_control)
    apply_command-IsSeated now (RoomCommand.set_replay_save enabled) =
        checked-IsSeated s _ sound (λ s'. change_replay_save-IsSeated s' enabled)
    apply_command-IsSeated now (RoomCommand.set_max_participants limit) =
        checked-IsSeated s _ sound
          (λ s'. configure-IsSeated s s' none none none none (some limit) sound)
    apply_command-IsSeated now
          (RoomCommand.configure room_name mode time_control replay_save limit) =
        checked-IsSeated s _ sound
          (λ s'. configure-IsSeated s s' room_name mode time_control replay_save limit sound)
    apply_command-IsSeated now (RoomCommand.set_ready participant_id preloaded) =
        checked-IsSeated s _ sound (λ s'. set_ready-IsSeated s s' participant_id preloaded sound)
    apply_command-IsSeated now (RoomCommand.disconnect participant_id) =
        answered-IsSeated _ (disconnect-IsSeated s participant_id now sound)
    apply_command-IsSeated now (RoomCommand.reconnect participant_id) =
        answered-IsSeated _ (reconnect-IsSeated s participant_id none sound)
    apply_command-IsSeated now (RoomCommand.reconnect_agent participant_id token_id) =
        answered-IsSeated _ (reconnect-IsSeated s participant_id (some token_id) sound)
    apply_command-IsSeated now (RoomCommand.persistence_completed false) = sound
    apply_command-IsSeated now (RoomCommand.persistence_completed true) = sound
    apply_command-IsSeated now RoomCommand.tick = cleanup-IsSeated s now sound
    apply_command-IsSeated now (RoomCommand.leave participant_id) =
        answered-IsSeated _ (depart-IsSeated _ s participant_id sound)
    apply_command-IsSeated now (RoomCommand.kick participant_id) =
        answered-IsSeated _ (depart-IsSeated _ s participant_id sound)
    apply_command-IsSeated now (RoomCommand.revoke_token token_id) =
        answered-IsSeated _ (revoke_token-IsSeated s token_id sound)
    apply_command-IsSeated now RoomCommand.back_to_lobby =
        if-IsSeated s.config.benchmark _ _ sound
          (checked-IsSeated s _ sound (λ s'. back_to_lobby-IsSeated s s' now sound))
    apply_command-IsSeated now RoomCommand.delete = delete_room-IsSeated
    apply_command-IsSeated now _ = sound

  -- In a room that keeps the invariant (distinct keys, each participant under its own identifier, no
  -- more participants than the limit, no more selected than seats, no MJAI agent in a three-player
  -- room), every command leaves a room that keeps it, whatever it returns and whatever the match
  -- machine answers.
  pub apply_simple-IsSeated :
      (s : RoomState P) (now : Instant) (command : RoomCommand)
      → IsSeated s
      → IsSeated (apply_simple s now command).0
  unfolding apply_simple
  apply_simple-IsSeated s now command sound = if-IsSeated s.is_deleted _ _ sound (
      if-IsSeated s.is_shutting_down _ _ sound (
        if-IsSeated (is_some s.benchmark && is_barred_by_benchmark command) _ _ sound
          (apply_command-IsSeated s sound now command)))
