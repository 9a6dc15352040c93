-- ===== src/Room/LeavingLaws.antt =====
-- Participants that come and go, and the end of a match's rest, keep the invariant of the participants.
use driichi.Domain.Mode.{Seat}
use driichi.Domain.Roster.{ParticipantId}
use driichi.Decision.Clock.{Instant}
use driichi.Room.Types.{ParticipantState, MatchRole, PermanentAutoReason, is_lobby, is_permanent}
use driichi.Room.Table.{get, update}
use driichi.Room.TableLaws.{count-update_same}
use driichi.Room.ChangeLaws.{count-change_all_none}
use driichi.Room.State.{Parts, RoomState, bump_revision, refresh_empty_since}
use driichi.Room.Lobby.{is_selected, with_participants}
use driichi.Room.Match.{
  disconnected_cleanup, back_to_lobby, reset_to_lobby, back_in_lobby, participant_seat,
  update_roster_controller,
}
use driichi.Room.Leaving.{
  Effect, gone, lost, found, made_interactive, after, on_machine, playing_seat, give_up, put_out,
  depart, revoke_each, revoke_token, tokens_of, disconnect_participant, finish_reconnect,
  reconnect_participant, wrong_token,
}
use driichi.Room.Seating.{
  IsSeated, Seating-update, Seating-change_all, Seating-remove, Seating-remove_all,
}
use driichi.Prelude.{
  ◌≡◌, refl, subst, sym, inl, inr, Bool, true, false, Option, none, some, List, [], ◌∷◌, String,
  Bool-cases, Option-cases, if◌then◌else◌, Outcome, ok, err, panic, arith,
}

module _ {P : Parts} where
  pub refresh_same :
      (s : RoomState P) (now : Instant)
      → ((refresh_empty_since s now).config ≡ s.config)
        × ((refresh_empty_since s now).participants ≡ s.participants)
  unfolding refresh_empty_since
  refresh_same s now = (ground arith, ground arith)

  pub refresh_machine :
      (s : RoomState P) (now : Instant)
      → (refresh_empty_since s now).match_machine ≡ s.match_machine
  unfolding refresh_empty_since
  refresh_machine s now = ground arith

  refresh-IsSeated :
      (s : RoomState P) (now : Instant) → IsSeated s → IsSeated (refresh_empty_since s now)
  refresh-IsSeated s now sound =
      let (same_config, same_participants) = refresh_same s now in
      rw (same_config, same_participants) sound

  bump_if-IsSeated :
      (idle : Bool) (s : RoomState P) → IsSeated s → IsSeated (if idle then s else bump_revision s)
  unfolding bump_revision
  bump_if-IsSeated true s sound = sound
  bump_if-IsSeated false s sound = sound

  -- A predicate that a first step has and that the next step keeps.
  after-keeps :
      (Q : RoomState P → Type 0) (e : Effect P) (next : RoomState P → Effect P)
      → Q e.0
      → ((s : RoomState P) → Q s → Q (next s).0)
      → Q (after e next).0
  unfolding after
  after-keeps Q (s, ok _) next h step = step s h
  after-keeps Q (s, err _) next h step = h
  after-keeps Q (s, panic) next h step = h

  on_machine-IsSeated :
      (call : P.Machine → Seat → P.Machine × Outcome String (Unit {0})) (s : RoomState P)
      (seat : Option Seat)
      → IsSeated s
      → IsSeated (on_machine call s seat).0
  unfolding on_machine
  on_machine-IsSeated call s none sound = sound
  on_machine-IsSeated call s (some seat) sound = elim (Option-cases s.match_machine) [
    | inl e ↦ rw e sound
    | inr (m, e) ↦ rw e sound
  ]

  update-IsSeated :
      (s : RoomState P) (k : ParticipantId) (f : ParticipantState → ParticipantState)
      → ((p : ParticipantState) → (f p).participant ≡ p.participant)
      → ((p : ParticipantState) → is_selected (f p) ≡ is_selected p)
      → IsSeated s
      → IsSeated (with_participants s (update k f s.participants))
  unfolding with_participants
  update-IsSeated s k f same kept sound =
      Seating-update s.config.mode s.config.max_participants s.participants k f same sound
        (omega (arith, count-update_same k f is_selected s.participants kept, sound.seats))

  put_out-IsSeated :
      (reason : PermanentAutoReason) (s : RoomState P) (k : ParticipantId) (role : MatchRole)
      → IsSeated s
      → IsSeated (put_out reason s k role).0
  unfolding put_out with_participants give_up update_roster_controller gone
  put_out-IsSeated reason s k role sound = elim (Option-cases (playing_seat s role)) [
    | inl e ↦
        rw (put_out, e)
          (Seating-remove s.config.mode s.config.max_participants s.participants k sound)
    | inr (seat, e) ↦
        rw (put_out, e)
          (after-keeps IsSeated
            (on_machine (P.set_permanent_auto)
              (with_participants s (update k (gone reason) s.participants)) (some seat))
            _
            (on_machine-IsSeated (P.set_permanent_auto) _ (some seat)
              (update-IsSeated s k (gone reason) (λ p. refl) (λ p. refl) sound))
            (λ s' h. h))
  ]

  pub depart-IsSeated :
      (reason : PermanentAutoReason) (s : RoomState P) (k : ParticipantId)
      → IsSeated s
      → IsSeated (depart reason s k).0
  unfolding depart bump_revision
  depart-IsSeated reason s k sound = elim (Option-cases (get k s.participants)) [
    | inl e ↦ rw (depart, e) sound
    | inr (p, e) ↦
        rw (depart, e)
          (after-keeps IsSeated (put_out reason s k p.role) _
            (put_out-IsSeated reason s k p.role sound) (λ s' h. h))
  ]

  revoke_each-IsSeated :
      (s : RoomState P) (affected : List (ParticipantId × MatchRole))
      → IsSeated s
      → IsSeated (revoke_each s affected).0
  unfolding revoke_each
  revoke_each-IsSeated s [] sound = sound
  revoke_each-IsSeated s ((k, role) ∷ rest) sound =
      after-keeps IsSeated (put_out _ s k role) _ (put_out-IsSeated _ s k role sound)
        (λ s' h. revoke_each-IsSeated s' rest h)

  pub revoke_token-IsSeated :
      (s : RoomState P) (token_id : String) → IsSeated s → IsSeated (revoke_token s token_id).0
  unfolding revoke_token
  revoke_token-IsSeated s token_id sound =
      after-keeps IsSeated (revoke_each s (tokens_of token_id s.participants)) _
        (revoke_each-IsSeated s (tokens_of token_id s.participants) sound)
        (λ s' h. bump_if-IsSeated _ s' h)

  pub disconnect-IsSeated :
      (s : RoomState P) (k : ParticipantId) (now : Instant)
      → IsSeated s
      → IsSeated (disconnect_participant s k now).0
  unfolding disconnect_participant bump_revision lost
  disconnect-IsSeated s k now sound = elim (Option-cases (get k s.participants)) [
    | inl e ↦ rw (disconnect_participant, e) sound
    | inr (p, e) ↦
        rw (disconnect_participant, e)
          (after-keeps IsSeated
            (on_machine (P.disconnect) (with_participants s (update k (lost now) s.participants))
              (participant_seat s k))
            _
            (on_machine-IsSeated (P.disconnect) _ (participant_seat s k)
              (update-IsSeated s k (lost now) (λ p. refl) (λ p. refl) sound))
            (λ s' h. refresh-IsSeated s' now h))
  ]

  finish_reconnect-IsSeated :
      (s : RoomState P) (k : ParticipantId) → IsSeated s → IsSeated (finish_reconnect s k)
  unfolding finish_reconnect bump_revision update_roster_controller with_participants
  finish_reconnect-IsSeated s k sound =
      update-IsSeated s k made_interactive (λ p. refl) (λ p. refl) sound

  pub reconnect-IsSeated :
      (s : RoomState P) (k : ParticipantId) (token_id : Option String)
      → IsSeated s
      → IsSeated (reconnect_participant s k token_id).0
  unfolding reconnect_participant found
  reconnect-IsSeated s k token_id sound = elim (Option-cases (get k s.participants)) [
    | inl e ↦ rw (reconnect_participant, e) sound
    | inr (p, e) ↦ elim (Bool-cases (wrong_token token_id p)) [
      | inl w ↦ rw (reconnect_participant, e, w) sound
      | inr w ↦ elim (Bool-cases (is_permanent p.controller)) [
        | inl c ↦ rw (reconnect_participant, e, w, c) sound
        | inr c ↦
            rw (reconnect_participant, e, w, c)
              (after-keeps IsSeated
                (on_machine (P.reconnect)
                  (with_participants s (update k (found (is_lobby s.phase)) s.participants))
                  (participant_seat s k))
                _
                (on_machine-IsSeated (P.reconnect) _ (participant_seat s k)
                  (update-IsSeated s k (found (is_lobby s.phase)) (λ p. refl) (λ p. refl) sound))
                (λ s' h. finish_reconnect-IsSeated s' k h))
      ]
    ]
  ]

  pub cleanup-IsSeated :
      (s : RoomState P) (now : Instant) → IsSeated s → IsSeated (disconnected_cleanup s now).0
  unfolding disconnected_cleanup with_participants
  cleanup-IsSeated s now sound = refresh-IsSeated _ now (
      bump_if-IsSeated _ _
        (Seating-remove_all s.config.mode s.config.max_participants _ s.participants sound))

  back_to_lobby_writes :
      (s s' : RoomState P) (now : Instant)
      → back_to_lobby s now ≡ ok s'
      → s' ≡ bump_revision (refresh_empty_since (reset_to_lobby s) now)
  unfolding back_to_lobby
  back_to_lobby_writes s s' now h = ground arith

  reset-IsSeated : (s : RoomState P) → IsSeated s → IsSeated (reset_to_lobby s)
  unfolding reset_to_lobby back_in_lobby
  reset-IsSeated s sound =
      Seating-change_all s.config.mode s.config.max_participants s.participants back_in_lobby
        (λ p. refl) sound
        (omega (arith, count-change_all_none back_in_lobby is_selected s.participants (λ p. refl)))

  pub back_to_lobby-IsSeated :
      (s s' : RoomState P) (now : Instant) → IsSeated s → back_to_lobby s now ≡ ok s' → IsSeated s'
  unfolding bump_revision
  back_to_lobby-IsSeated s s' now sound h =
      subst (λ t. IsSeated t) (sym (back_to_lobby_writes s s' now h))
        (refresh-IsSeated (reset_to_lobby s) now (reset-IsSeated s sound))
