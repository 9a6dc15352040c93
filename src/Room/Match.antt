-- ===== src/Room/Match.antt =====
-- crates/double_riichi_core/src/room.rs: the end of a match and of a room's silence, and who may go on.
use driichi.Domain.Mode.{Seat, seat_count}
use driichi.Domain.Roster.{ParticipantId, MatchResult, human, built_in_bot}
use driichi.Decision.Clock.{Instant}
use driichi.Room.Types.{
  ParticipantState, RoomController, MatchRole, no_role, player, MatchId, RoomPhase, lobby, playing,
  post_match, is_lobby, is_playing, is_post_match, is_player, is_connected, MatchPlayerSnapshot,
  bot_seat, RoomError, not_playing, not_ready, rematch_unavailable,
}
use driichi.Room.Table.{Participants, get, remove, change_all}
use driichi.Room.State.{Parts, RoomState, bump_revision, refresh_empty_since}
use driichi.Room.Lobby.{is_kind, with_participants}
use driichi.Prelude.{
  ℕ, ◌-◌, Bool, true, false, not, ◌&&◌, ◌||◌, Option, none, some, List, [], ◌∷◌, length, ltb, ◌==◌,
  str_eq, if◌then◌else◌, Outcome, ok, reject_if, ok_or, ◌>>=◌, ◌>>◌,
}

unfoldable pub seat_of : MatchRole → Option Seat
seat_of (player seat) = some seat
seat_of _ = none

-- The keys that pass a test, in the map's order.
unfoldable pub keys_where : (ParticipantState → Bool) → Participants → List ParticipantId
keys_where q [] = []
keys_where q ((k, p) ∷ ps) = if q p then k ∷ keys_where q ps else keys_where q ps

unfoldable pub remove_all : List ParticipantId → Participants → Participants
remove_all [] ps = ps
remove_all (k ∷ ks) ps = remove_all ks (remove k ps)

-- `duration_since` is zero where the earlier instant is the later one.
abbrev pub has_expired : Instant → ℕ → Option Instant → Bool
has_expired now expiry none = false
has_expired now expiry (some since) = not (ltb (now - since) expiry)

unfoldable pub is_removable : RoomPhase → Instant → ℕ → ParticipantState → Bool
is_removable phase now expiry p =
    not (is_connected p.presence)
    && has_expired now expiry p.disconnected_at
    && ((is_lobby phase && p.selected) || not p.selected)
    && not (is_player p.role)
    && not (is_kind built_in_bot p)

-- A permanent controller other than that of a bot seat.
unfoldable pub has_given_up : RoomController → Bool
has_given_up (RoomController.permanent_auto bot_seat) = false
has_given_up (RoomController.permanent_auto _) = true
has_given_up _ = false

unfoldable pub rematch_entry : Participants → MatchPlayerSnapshot → Outcome RoomError (Unit {0})
rematch_entry ps entry = do
  p ← ok_or (get entry.participant_id ps) rematch_unavailable
  reject_if (p.remove_after_match || has_given_up p.controller || not (is_connected p.presence))
      rematch_unavailable
  reject_if (is_kind human p && not p.ready) not_ready
  ok tt

unfoldable pub rematch_entries :
    Participants → List MatchPlayerSnapshot → Outcome RoomError (Unit {0})
rematch_entries ps [] = ok tt
rematch_entries ps (entry ∷ entries) = rematch_entry ps entry >> rematch_entries ps entries

unfoldable pub back_in_lobby : ParticipantState → ParticipantState
back_in_lobby p = record p {
  selected = false;
  ready = false;
  role = no_role;
  controller = RoomController.interactive;
  remove_after_match = false;
}

unfoldable pub set_controller :
    ParticipantId → RoomController → List MatchPlayerSnapshot → List MatchPlayerSnapshot
set_controller k controller [] = []
set_controller k controller (entry ∷ entries) =
    if str_eq entry.participant_id k
    then record entry { controller = controller } ∷ entries
    else entry ∷ set_controller k controller entries

module _ {P : Parts} where
  unfoldable pub disconnected_cleanup : RoomState P → Instant → RoomState P × List ParticipantId
  disconnected_cleanup s now =
      let expired =
        keys_where (is_removable s.phase now s.config.disconnected_participant_expiry)
          s.participants in
      let s' = with_participants s (remove_all expired s.participants) in
      let s'' = if length expired == 0 then s' else bump_revision s' in
      (refresh_empty_since s'' now, expired)

  unfoldable pub is_empty_expired : RoomState P → Instant → RoomState P × Bool
  is_empty_expired s now =
      let s' = refresh_empty_since s now in
      (s', not (is_playing s'.phase) && has_expired now s'.config.empty_room_cleanup s'.empty_since)

  unfoldable pub close_match : RoomState P → MatchId → MatchResult → RoomState P
  close_match s match_id result = record s {
    phase = post_match match_id;
    match_machine = none;
    result_step = none;
    result = some result;
    participants =
        remove_all (keys_where (λ p. p.remove_after_match) s.participants) s.participants;
  }

  unfoldable pub finish_match : RoomState P → MatchResult → Instant → RoomState P × Option MatchId
  finish_match s result now = elim s.phase [
    | lobby ↦ (s, none)
    | post_match _ ↦ (s, none)
    | playing match_id ↦
        (bump_revision (refresh_empty_since (close_match s match_id result) now), some match_id)
  ]

  unfoldable pub can_rematch : RoomState P → Outcome RoomError (Unit {0})
  can_rematch s = do
    reject_if (not (is_post_match s.phase)) rematch_unavailable
    reject_if (not (length s.match_roster == seat_count s.config.mode)) rematch_unavailable
    rematch_entries s.participants s.match_roster

  unfoldable pub reset_to_lobby : RoomState P → RoomState P
  reset_to_lobby s = record s {
    phase = lobby;
    match_machine = none;
    match_roster = [];
    history = P.default_history;
    result = none;
    participants = change_all back_in_lobby s.participants;
  }

  unfoldable pub back_to_lobby : RoomState P → Instant → Outcome RoomError (RoomState P)
  back_to_lobby s now = do
    reject_if (not (is_post_match s.phase)) not_playing
    ok (bump_revision (refresh_empty_since (reset_to_lobby s) now))

  unfoldable pub participant_seat : RoomState P → ParticipantId → Option Seat
  participant_seat s participant_id = elim (get participant_id s.participants) [
    | none ↦ none
    | some p ↦ seat_of p.role
  ]

  unfoldable pub seat_for : RoomState P → ParticipantId → Outcome RoomError Seat
  seat_for s participant_id = ok_or (participant_seat s participant_id) not_playing

  unfoldable pub update_roster_controller :
      RoomState P → ParticipantId → RoomController → RoomState P
  update_roster_controller s participant_id controller = record s {
    match_roster = set_controller participant_id controller s.match_roster;
  }
