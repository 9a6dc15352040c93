-- ===== src/Room/Invariant.antt =====
-- The commands of the lobby keep the invariant of a room's participants.
use driichi.Domain.Mode.{GameMode}
use driichi.Domain.Roster.{ParticipantId, Participant}
use driichi.Decision.Clock.{TimeControl}
use driichi.Room.Types.{RoomParticipantSnapshot}
use driichi.Room.TableLaws.{count-update-le, count-update_same, count-update_fewer}
use driichi.Room.State.{Parts, RoomState, bump_revision}
use driichi.Room.Lobby.{
  is_selected, joined, deselected, chosen, set_to_ready, three_player_room, with_participants,
  add_participant, clear_selected_human_ready, select, deselect, set_mode, configure, set_ready,
}
use driichi.Prelude.{ℕ, ◌≡◌, refl, subst, sym, Bool, Option, List, String, ok, inl, inr, arith}
use driichi.Room.Writes.{
  add_participant_writes, select_writes, deselect_writes, set_mode_writes, set_ready_writes,
  configure_writes,
}
use driichi.Room.Seating.{
  IsSeated, Seating-insert, Seating-update, Seating-unready, Seating-cleared, Seating-configured,
  chosen_same,
}

module _ {P : Parts} (s s' : RoomState P) where
  pub add_participant-IsSeated :
      (participant : Participant) (character_id token_id : Option String)
      (shown : RoomParticipantSnapshot)
      → IsSeated s
      → add_participant s participant character_id token_id ≡ ok (s', shown)
      → IsSeated s'
  unfolding joined bump_revision three_player_room
  add_participant-IsSeated participant character_id token_id shown sound h =
      let (fresh, other, room, (character, e)) =
        add_participant_writes s s' participant character_id token_id shown h in
      subst (λ t. IsSeated t) (sym e)
        (Seating-insert s.config.mode s.config.max_participants s.participants
          (joined participant character token_id _) fresh other refl sound (ground arith))

  pub select-IsSeated :
      (participant_id : ParticipantId) (character_id : Option String)
      → IsSeated s
      → select s participant_id character_id ≡ ok s'
      → IsSeated s'
  unfolding bump_revision clear_selected_human_ready with_participants
  select-IsSeated participant_id character_id sound h =
      let (free, e) = select_writes s s' participant_id character_id h in
      let n = count-update-le participant_id (chosen character_id) is_selected s.participants in
      subst (λ t. IsSeated t) (sym e)
        (Seating-unready s.config.mode s.config.max_participants _ (
          Seating-update s.config.mode s.config.max_participants s.participants participant_id
            (chosen character_id) (chosen_same character_id) sound (ground arith)))

  pub deselect-IsSeated :
      (participant_id : ParticipantId)
      → IsSeated s
      → deselect s participant_id ≡ ok s'
      → IsSeated s'
  unfolding bump_revision clear_selected_human_ready with_participants deselected
  deselect-IsSeated participant_id sound h = elim (deselect_writes s s' participant_id h) [
    | inl e ↦ subst (λ t. IsSeated t) (sym e) sound
    | inr e ↦
        subst (λ t. IsSeated t) (sym e)
          (Seating-unready s.config.mode s.config.max_participants _ (
            Seating-update s.config.mode s.config.max_participants s.participants participant_id
              deselected (λ p. refl) sound
              (omega (
                arith,
                count-update_fewer participant_id deselected is_selected s.participants (λ p. refl),
                sound.seats,
              ))))
  ]

  pub set_ready-IsSeated :
      (participant_id : ParticipantId) (preloaded : List String)
      → IsSeated s
      → set_ready s participant_id preloaded ≡ ok s'
      → IsSeated s'
  unfolding bump_revision with_participants
  set_ready-IsSeated participant_id preloaded sound h =
      subst (λ t. IsSeated t) (sym (set_ready_writes s s' participant_id preloaded h))
        (Seating-update s.config.mode s.config.max_participants s.participants participant_id
          set_to_ready (λ p. refl) sound
          (omega (
            arith,
            count-update_same participant_id set_to_ready is_selected s.participants (λ p. refl),
            sound.seats,
          )))

  pub set_mode-IsSeated : (mode : GameMode) → IsSeated s → set_mode s mode ≡ ok s' → IsSeated s'
  unfolding bump_revision
  set_mode-IsSeated mode sound h =
      let (other, e) = set_mode_writes s s' mode h in
      subst (λ t. IsSeated t) (sym e)
        (Seating-cleared mode s.config.max_participants s.participants sound.distinct sound.keyed
          sound.within_limit sound.small_limit other)

  pub configure-IsSeated :
      (room_name : Option String) (mode : Option GameMode) (time_control : Option TimeControl)
      (replay_save : Option Bool) (max_participants : Option ℕ)
      → IsSeated s
      → configure s room_name mode time_control replay_save max_participants ≡ ok s'
      → IsSeated s'
  configure-IsSeated room_name mode time_control replay_save max_participants sound h =
      let (other, room, low, em, el, ep) =
        configure_writes s s' room_name mode time_control replay_save max_participants h in
      rw (em, el, ep)
        (Seating-configured s.config.mode _ s.config.max_participants _ s.participants sound other
          (ground arith) (ground arith))
