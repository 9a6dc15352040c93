-- ===== src/Room/Writes.antt =====
-- What the commands of the lobby have checked and written when they succeed.
use driichi.Room.Catalog.{default_for, default_max_participants}
use driichi.Domain.Mode.{GameMode, mode_eq, is_three_player, seat_count}
use driichi.Domain.Roster.{ParticipantId, Participant, mjai, kind_eq}
use driichi.Decision.Clock.{TimeControl}
use driichi.Room.Types.{RoomParticipantSnapshot, spectator, no_role, is_playing, is_post_match}
use driichi.Room.Table.{get, contains_key, insert, update, change_all, any_value, count_values}
use driichi.Room.State.{Parts, RoomState, bump_revision}
use driichi.Room.Lobby.{
  is_selected, is_kind, joined, deselected, chosen, set_to_ready, three_player_room,
  with_participants, add_participant, clear_selected_human_ready, select, deselect, set_mode,
  configure, set_ready, or_else, or_default,
}
use driichi.Prelude.{
  ℕ, ◌≡◌, Bool, true, false, not, ◌&&◌, Option, none, List, String, ok, inl, inr, length,
  Bool-cases, Option-cases, ◌||◌, ◌⊎◌, ltb, if◌then◌else◌, leb, arith,
}

module _ {P : Parts} (s s' : RoomState P) where
  pub select_writes :
      (participant_id : ParticipantId) (character_id : Option String)
      → select s participant_id character_id ≡ ok s'
      → (leb (seat_count s.config.mode) (count_values is_selected s.participants) ≡ false)
        × (s'
            ≡ bump_revision (
                clear_selected_human_ready (
                  with_participants s
                    (update participant_id (chosen character_id) s.participants))))
  unfolding select
  select_writes participant_id character_id h = (ground arith, ground arith)

  pub add_participant_writes :
      (participant : Participant) (character_id token_id : Option String)
      (shown : RoomParticipantSnapshot)
      → add_participant s participant character_id token_id ≡ ok (s', shown)
      → (contains_key participant.id s.participants ≡ false)
        × (three_player_room s && kind_eq participant.kind mjai ≡ false)
        × (leb s.config.max_participants (length s.participants) ≡ false)
        × ((character : String) × (s'
              ≡ bump_revision (record s {
                participants =
                    insert participant.id
                      (joined participant character token_id (
                        if is_playing s.phase || is_post_match s.phase then spectator else no_role))
                      s.participants;
                empty_since = none;
              })))
  unfolding add_participant
  add_participant_writes participant character_id token_id shown h =
      elim (Option-cases
        (or_else character_id (default_for s.config.character_catalog participant.kind))) [
          | inl e ↦ (ground arith, ground arith, ground arith, ("", ground arith))
          | inr (character, e) ↦
              (ground arith, ground arith, ground arith, (character, ground arith))
        ]

  pub set_mode_writes :
      (mode : GameMode)
      → set_mode s mode ≡ ok s'
      → (is_three_player mode && any_value (is_kind mjai) s.participants ≡ false)
        × (s'
            ≡ bump_revision (record s {
              config = record (s.config) { mode = mode };
              participants = change_all deselected s.participants;
            }))
  unfolding set_mode
  set_mode_writes mode h = (ground arith, ground arith)

  pub deselect_writes :
      (participant_id : ParticipantId)
      → deselect s participant_id ≡ ok s'
      → (s' ≡ s)
        ⊎ (s'
            ≡ bump_revision (
                clear_selected_human_ready
                  (with_participants s (update participant_id deselected s.participants))))
  unfolding deselect
  deselect_writes participant_id h = elim (Option-cases (get participant_id s.participants)) [
    | inl e ↦ ground arith
    | inr (p, e) ↦ elim (Bool-cases p.selected) [
      | inl x ↦ inr (ground arith)
      | inr x ↦ inl (ground arith)
    ]
  ]

  pub set_ready_writes :
      (participant_id : ParticipantId) (preloaded : List String)
      → set_ready s participant_id preloaded ≡ ok s'
      → s' ≡ bump_revision (with_participants s (update participant_id set_to_ready s.participants))
  unfolding set_ready
  set_ready_writes participant_id preloaded h = ground arith

  pub configure_writes :
      (room_name : Option String) (mode : Option GameMode) (time : Option TimeControl)
      (save : Option Bool) (limit : Option ℕ)
      → configure s room_name mode time save limit ≡ ok s'
      → (is_three_player (or_default mode s.config.mode) && any_value (is_kind mjai) s.participants
          ≡ false)
        × (ltb (or_default limit s.config.max_participants) (length s.participants) ≡ false)
        × (leb (or_default limit s.config.max_participants) default_max_participants ≡ true)
        × (s'.config.mode ≡ or_default mode s.config.mode)
        × (s'.config.max_participants ≡ or_default limit s.config.max_participants)
        × (s'.participants ≡ (
            if not (mode_eq (or_default mode s.config.mode) s.config.mode)
            then change_all deselected s.participants
            else s.participants))
  unfolding configure bump_revision
  configure_writes room_name mode time save limit h =
      (ground arith, ground arith, ground arith, ground arith, ground arith, ground arith)
