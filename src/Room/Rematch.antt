-- ===== src/Room/Rematch.antt =====
-- Who may play again.
use driichi.Domain.Mode.{seat_count}
use driichi.Domain.Roster.{ParticipantKind, human, mjai, mcp, built_in_bot, kind_eq}
use driichi.Room.Types.{
  MatchId, RoomPhase, lobby, playing, post_match, left_during_match, kicked, agent_left,
  token_revoked, connection_lost, bot_seat, RoomController, ParticipantState, MatchPlayerSnapshot,
  is_post_match, is_connected,
}
use driichi.Decision.Types.{Presence}
use driichi.Room.Table.{Participants, get}
use driichi.Room.State.{Parts, RoomState}
use driichi.Room.Lobby.{is_kind}
use driichi.Room.Match.{has_given_up, rematch_entry, rematch_entries, can_rematch}
use driichi.Prelude.{
  ◌≡◌, ◌≢◌, ◌↔◌, ◌⊎◌, refl, ap, ◌∙◌, true, false, not, ◌&&◌, some, List, [], ◌∷◌, All, length, ok,
  inl, inr, Option-cases, Bool-cases, bind-ok, arith,
}

-- Controllers of a participant that has not given up: a bot seat is automated for good, but only as
-- a bot.
abbrev pub IsWilling : RoomController → Type 0
IsWilling RoomController.interactive = Unit
IsWilling RoomController.temporary_auto = Unit
IsWilling (RoomController.permanent_auto reason) = reason ≡ bot_seat

-- A player of the last match that is there, wants to stay, is connected, and is ready if it is a
-- human.
pub record Returns (ps : Participants) (entry : MatchPlayerSnapshot) : Type 0 where
  pub state : ParticipantState
  pub found : get entry.participant_id ps ≡ some state
  pub stays : state.remove_after_match ≡ false
  pub willing : IsWilling state.controller
  pub connected : state.presence ≡ Presence.connected
  pub prepared : (state.participant.kind ≢ human) ⊎ (state.ready ≡ true)

has_given_up-IsWilling : (c : RoomController) → has_given_up c ≡ false → IsWilling c
unfolding has_given_up
has_given_up-IsWilling RoomController.interactive h = tt
has_given_up-IsWilling RoomController.temporary_auto h = tt
has_given_up-IsWilling (RoomController.permanent_auto bot_seat) h = refl
has_given_up-IsWilling (RoomController.permanent_auto left_during_match) h = cc
has_given_up-IsWilling (RoomController.permanent_auto kicked) h = cc
has_given_up-IsWilling (RoomController.permanent_auto agent_left) h = cc
has_given_up-IsWilling (RoomController.permanent_auto token_revoked) h = cc
has_given_up-IsWilling (RoomController.permanent_auto connection_lost) h = cc

IsWilling-has_given_up : (c : RoomController) → IsWilling c → has_given_up c ≡ false
unfolding has_given_up
IsWilling-has_given_up RoomController.interactive h = refl
IsWilling-has_given_up RoomController.temporary_auto h = refl
IsWilling-has_given_up (RoomController.permanent_auto reason) h = rw h refl

is_connected_iff : (p : Presence) → (is_connected p ≡ true) ↔ (p ≡ Presence.connected)
unfolding is_connected
is_connected_iff Presence.connected = (λ h. refl, λ h. refl)
is_connected_iff Presence.disconnected = (λ h. cc, λ h. cc)

is_human_iff : (k : ParticipantKind) → (kind_eq k human ≡ false) ↔ (k ≢ human)
unfolding kind_eq
is_human_iff human = (λ h e. cc, λ h. absurd (h refl))
is_human_iff mjai = (λ h e. cc, λ h. refl)
is_human_iff mcp = (λ h e. cc, λ h. refl)
is_human_iff built_in_bot = (λ h e. cc, λ h. refl)

prepared_iff :
    (p : ParticipantState)
    → ((is_kind human p && not p.ready) ≡ false) ↔ ((p.participant.kind ≢ human) ⊎ (p.ready ≡ true))
prepared_iff p = (
  λ h. elim (Bool-cases p.ready) [
    | inl e ↦ inr e
    | inr e ↦ inl ((is_human_iff p.participant.kind).0 (ground arith))
  ],
  λ h. elim h [
    | inl other ↦ let e = (is_human_iff p.participant.kind).1 other in ground arith
    | inr e ↦ ground arith
  ],
)

rematch_entry-Returns :
    (ps : Participants) (entry : MatchPlayerSnapshot)
    → rematch_entry ps entry ≡ ok tt
    → Returns ps entry
unfolding rematch_entry
rematch_entry-Returns ps entry h = elim (Option-cases (get entry.participant_id ps)) [
  | inl e ↦ absurd (ground arith)
  | inr (p, e) ↦ record {
    state = p;
    found = e;
    stays = ground arith;
    willing = has_given_up-IsWilling p.controller (ground arith);
    connected = (is_connected_iff p.presence).0 (ground arith);
    prepared = (prepared_iff p).0 (ground arith);
  }
]

Returns-rematch_entry :
    (ps : Participants) (entry : MatchPlayerSnapshot)
    → Returns ps entry
    → rematch_entry ps entry ≡ ok tt
unfolding rematch_entry
Returns-rematch_entry ps entry r =
    let found = r.found in
    let stays = r.stays in
    let willing = IsWilling-has_given_up r.state.controller r.willing in
    let there = (is_connected_iff r.state.presence).1 r.connected in
    let prepared = (prepared_iff r.state).1 r.prepared in ground arith

rematch_entries-Returns :
    (ps : Participants) (entries : List MatchPlayerSnapshot)
    → rematch_entries ps entries ≡ ok tt
    → All (Returns ps) entries
unfolding rematch_entries
rematch_entries-Returns ps [] h = tt
rematch_entries-Returns ps (entry ∷ entries) h =
    let (done, first, rest) =
      bind-ok (rematch_entry ps entry) (λ _. rematch_entries ps entries) h in
    (rematch_entry-Returns ps entry first, rematch_entries-Returns ps entries rest)

Returns-rematch_entries :
    (ps : Participants) (entries : List MatchPlayerSnapshot)
    → All (Returns ps) entries
    → rematch_entries ps entries ≡ ok tt
unfolding rematch_entries
Returns-rematch_entries ps [] h = refl
Returns-rematch_entries ps (entry ∷ entries) h =
    rw (Returns-rematch_entry ps entry h.0) (Returns-rematch_entries ps entries h.1)

phase_over : (p : RoomPhase) → is_post_match p ≡ true → (id : MatchId) × (p ≡ post_match id)
unfolding is_post_match
phase_over lobby h = cc
phase_over (playing id) h = cc
phase_over (post_match id) h = (id, refl)

module _ {P : Parts} where
  -- What a rematch takes: a match is over, its roster is as long as the mode has seats, and each
  -- player of the roster returns.
  abbrev pub Replays : RoomState P → Type 0
  Replays s =
      ((id : MatchId) × (s.phase ≡ post_match id))
      × (length s.match_roster ≡ seat_count s.config.mode)
      × All (Returns s.participants) s.match_roster

  -- A rematch is allowed exactly if the room is after a match, with a roster as long as the mode has
  -- seats, and each player of the roster is there, connected, not marked for removal, ready if it is a
  -- human, and has not given up: its controller is not automated for good, unless as a bot's seat.
  pub can_rematch-Returns : (s : RoomState P) → (can_rematch s ≡ ok tt) ↔ Replays s
  unfolding can_rematch is_post_match
  can_rematch-Returns s = (
    λ h. (
      phase_over s.phase (ground arith),
      ground arith,
      rematch_entries-Returns s.participants s.match_roster (ground arith),
    ),
    λ ((id, over), full, each).
        allowed id over full (Returns-rematch_entries s.participants s.match_roster each),
  )
    where
      allowed :
          (id : MatchId)
          → s.phase ≡ post_match id
          → length s.match_roster ≡ seat_count s.config.mode
          → rematch_entries s.participants s.match_roster ≡ ok tt
          → can_rematch s ≡ ok tt
      allowed id over full each =
          let there : is_post_match s.phase ≡ true = ap is_post_match over ∙ refl in ground arith
