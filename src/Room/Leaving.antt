-- ===== src/Room/Leaving.antt =====
-- crates/double_riichi_core/src/room.rs: participants that lose their connection, come back, leave, or
-- are put out. These operations write before they call the match machine, so they return the state
-- beside the result.
use driichi.Domain.Mode.{Seat}
use driichi.Domain.Roster.{ParticipantId, mjai}
use driichi.Decision.Clock.{Instant}
use driichi.Decision.Types.{Presence}
use driichi.Room.Types.{
  ParticipantState, RoomController, MatchRole, is_lobby, is_playing, is_permanent,
  PermanentAutoReason, left_during_match, kicked, token_revoked, RoomError, participant_not_found,
  controller_not_interactive, match_failed,
}
use driichi.Room.Table.{Participants, get, remove, update}
use driichi.Room.State.{Parts, RoomState, bump_revision, refresh_empty_since}
use driichi.Room.Lobby.{is_kind, with_participants}
use driichi.Room.Match.{seat_of, participant_seat, update_roster_controller}
use driichi.Prelude.{
  Bool, true, false, not, ◌||◌, Option, none, some, List, [], ◌∷◌, String, str_eq, length, ◌==◌,
  if◌then◌else◌, Outcome, ok, err, panic,
}

-- The state that an operation leaves, and what it returns.
abbrev pub Effect : Parts → Type 0
Effect P = RoomState P × Outcome RoomError (Unit {0})

unfoldable pub map_failure : Outcome String (Unit {0}) → Outcome RoomError (Unit {0})
map_failure (ok done) = ok done
map_failure (err text) = err (match_failed text)
map_failure panic = panic

-- A participant that has left its seat to the automatic controller for good.
unfoldable pub gone : PermanentAutoReason → ParticipantState → ParticipantState
gone reason p = record p {
  remove_after_match = true;
  presence = Presence.disconnected;
  controller = RoomController.permanent_auto reason;
}

unfoldable pub lost : Instant → ParticipantState → ParticipantState
lost now p = record p {
  presence = Presence.disconnected;
  disconnected_at = some now;
  ready = false;
}

unfoldable pub found : Bool → ParticipantState → ParticipantState
found in_lobby p = record p {
  presence = Presence.connected;
  disconnected_at = none;
  ready = if in_lobby then false else p.ready;
}

abbrev pub made_interactive : ParticipantState → ParticipantState
made_interactive p = record p { controller = RoomController.interactive }

unfoldable pub has_token : String → ParticipantState → Bool
has_token token_id p = elim p.token_id [ none ↦ false | some token ↦ str_eq token token_id ]

-- An agent may come back only with the token that it joined with.
unfoldable pub wrong_token : Option String → ParticipantState → Bool
wrong_token none p = false
wrong_token (some token_id) p = not (is_kind mjai p) || not (has_token token_id p)

unfoldable pub tokens_of : String → Participants → List (ParticipantId × MatchRole)
tokens_of token_id [] = []
tokens_of token_id ((k, p) ∷ ps) =
    if has_token token_id p then (k, p.role) ∷ tokens_of token_id ps else tokens_of token_id ps

module _ {P : Parts} where
  -- What follows if a call has not failed.
  unfoldable pub after : Effect P → (RoomState P → Effect P) → Effect P
  after (s, ok _) next = next s
  after (s, err e) next = (s, err e)
  after (s, panic) next = (s, panic)

  -- A call of the match machine, if there are a machine and a seat.
  unfoldable pub on_machine :
      (P.Machine → Seat → P.Machine × Outcome String (Unit {0}))
      → RoomState P
      → Option Seat
      → Effect P
  on_machine call s none = (s, ok tt)
  on_machine call s (some seat) = elim s.match_machine [
    | none ↦ (s, ok tt)
    | some machine ↦
        (let (machine', result) = call machine seat in
          (record s { match_machine = some machine' }, map_failure result))
  ]

  -- The seat that a role holds in a running match.
  unfoldable pub playing_seat : RoomState P → MatchRole → Option Seat
  playing_seat s role = if is_playing s.phase then seat_of role else none

  -- Out of a running match the participant is marked and its seat goes on by itself.
  unfoldable pub give_up : PermanentAutoReason → RoomState P → ParticipantId → Seat → Effect P
  give_up reason s participant_id seat =
      after
        (on_machine (P.set_permanent_auto)
          (with_participants s (update participant_id (gone reason) s.participants)) (some seat))
        (λ s'. (
          update_roster_controller s' participant_id (RoomController.permanent_auto reason),
          ok tt,
        ))

  unfoldable pub put_out : PermanentAutoReason → RoomState P → ParticipantId → MatchRole → Effect P
  put_out reason s participant_id role = elim (playing_seat s role) [
    | some seat ↦ give_up reason s participant_id seat
    | none ↦ (with_participants s (remove participant_id s.participants), ok tt)
  ]

  unfoldable pub depart : PermanentAutoReason → RoomState P → ParticipantId → Effect P
  depart reason s participant_id = elim (get participant_id s.participants) [
    | none ↦ (s, err (participant_not_found participant_id))
    | some p ↦ after (put_out reason s participant_id p.role) (λ s'. (bump_revision s', ok tt))
  ]

  unfoldable pub leave : RoomState P → ParticipantId → Effect P
  leave s participant_id = depart left_during_match s participant_id

  unfoldable pub kick : RoomState P → ParticipantId → Effect P
  kick s participant_id = depart kicked s participant_id

  unfoldable pub revoke_each : RoomState P → List (ParticipantId × MatchRole) → Effect P
  revoke_each s [] = (s, ok tt)
  revoke_each s ((participant_id, role) ∷ rest) =
      after (put_out token_revoked s participant_id role) (λ s'. revoke_each s' rest)

  unfoldable pub revoke_token : RoomState P → String → Effect P
  revoke_token s token_id =
      let affected = tokens_of token_id s.participants in
      after (revoke_each s affected)
        (λ s'. (if length affected == 0 then s' else bump_revision s', ok tt))

  unfoldable pub disconnect_participant : RoomState P → ParticipantId → Instant → Effect P
  disconnect_participant s participant_id now =
      let seat = participant_seat s participant_id in
      elim (get participant_id s.participants) [
        | none ↦ (s, err (participant_not_found participant_id))
        | some _ ↦
            after
              (on_machine (P.disconnect)
                (with_participants s (update participant_id (lost now) s.participants)) seat)
              (λ s'. (bump_revision (refresh_empty_since s' now), ok tt))
      ]

  unfoldable pub finish_reconnect : RoomState P → ParticipantId → RoomState P
  finish_reconnect s participant_id =
      let s' = with_participants s (update participant_id made_interactive s.participants) in
      let s'' = update_roster_controller s' participant_id RoomController.interactive in
      bump_revision (record s'' { empty_since = none })

  unfoldable pub reconnect_participant : RoomState P → ParticipantId → Option String → Effect P
  reconnect_participant s participant_id token_id =
      let seat = participant_seat s participant_id in
      elim (get participant_id s.participants) [
        | none ↦ (s, err (participant_not_found participant_id))
        | some p ↦
            if wrong_token token_id p
            then (s, err (participant_not_found participant_id))
            else if is_permanent p.controller
            then (s, err controller_not_interactive)
            else after
                (on_machine (P.reconnect)
                  (with_participants s
                    (update participant_id (found (is_lobby s.phase)) s.participants))
                  seat)
                (λ s'. (finish_reconnect s' participant_id, ok tt))
      ]
