-- ===== src/Room/Filling.antt =====
-- Filling the free seats with bots ends, keeps the room's invariant, and on success fills every seat.
use driichi.Domain.Mode.{seat_count}
use driichi.Domain.Roster.{built_in_bot}
use driichi.Room.Catalog.{default_for}
use driichi.Room.Types.{RoomError, room_full, invalid_character, not_lobby, is_lobby}
use driichi.Room.Table.{count_values}
use driichi.Room.State.{Parts, RoomState, bump_revision}
use driichi.Room.Lobby.{is_selected, with_participants, clear_selected_human_ready, unready_human}
use driichi.Room.Bots.{
  is_free_bot, free_bots, select_bots, finish_fill, seats_left, fill_from, fill_with_bots,
}
use driichi.Room.FreeBots.{free_bots-count, count-select_bots, length-select_bots}
use driichi.Room.Seating.{IsSeated, Seating-unready}
use driichi.Room.ChangeLaws.{count-change_all_same}
use driichi.Prelude.{
  ℕ, ◌+◌, ◌-◌, ◌≤◌, ◌<◌, ◌≡◌, refl, ◌⊎◌, inl, inr, true, false, none, some, String, length,
  Bool-cases, Option-cases, ok, err, ltb, ◌==◌, arith,
}
use driichi.Room.Growing.{
  add_bots_grow, add_bots_bare, seat_count_le, Seating-select_bots, Seating-Grown, unready_same,
}

module _ {P : Parts} (s : RoomState P) where
  abbrev needed : ℕ
  needed = seats_left s s.participants

  -- What filling has done when it succeeds in a lobby.
  abbrev pub Fills : RoomState P → Type 0
  Fills s' = IsSeated s' × (count_values is_selected s'.participants ≡ seat_count s'.config.mode)

  fill_from_grown :
      (character_id : String)
      → IsSeated s
      → length s.participants
          + (seats_left s s.participants
              - length (free_bots (seats_left s s.participants) s.participants))
        ≤ s.config.max_participants
      → default_for s.config.character_catalog built_in_bot ≡ some character_id
      → (s' : RoomState P) × (fill_from s (free_bots (seats_left s s.participants) s.participants)
          ≡ (s', ok tt))
        × Fills s'
  unfolding fill_from finish_fill seats_left bump_revision clear_selected_human_ready
      with_participants
  fill_from_grown character_id sound room has =
      let n = seat_count s.config.mode - count_values is_selected s.participants in
      let ks = free_bots n s.participants in
      let ps = select_bots ks s.participants in
      let sound' =
        Seating-select_bots s.config.mode s.config.max_participants n s.participants (omega arith)
          sound in
      let (ps', e, g) =
        add_bots_grow (seat_count s.config.mode - count_values is_selected ps) 0 s.revision
          character_id ps
          (omega (
            arith,
            seat_count_le s.config.mode,
            sound.within_limit,
            sound.small_limit,
            length-select_bots ks s.participants,
          ))
          sound'.distinct sound'.keyed in
      let sound'' =
        Seating-Grown s.config.mode s.config.max_participants _ ps ps' sound' g
          (omega (
            arith,
            length-select_bots ks s.participants,
            count-select_bots n s.participants sound.distinct,
          ))
          (omega (arith, sound'.seats)) in
      (
        bump_revision (clear_selected_human_ready (with_participants s ps')),
        (rw (has, e) refl),
        (
          Seating-unready s.config.mode s.config.max_participants ps' sound'',
          ground (
            arith,
            g.seats,
            sound'.seats,
            count-change_all_same unready_human is_selected ps' (λ p. unready_same p),
          ),
        ),
      )

  all_taken_full :
      IsSeated s
      → needed == 0 ≡ true
      → count_values is_selected s.participants ≡ seat_count s.config.mode
  unfolding seats_left
  all_taken_full sound e = ground (arith, sound.seats)

  fill_from_bare :
      IsSeated s
      → default_for s.config.character_catalog built_in_bot ≡ none
      → ((s' : RoomState P) × (fill_from s (free_bots needed s.participants) ≡ (s', ok tt))
          × Fills s')
        ⊎ ((s' : RoomState P) × (fill_from s (free_bots needed s.participants)
              ≡ (s', err invalid_character))
            × IsSeated s')
  unfolding fill_from finish_fill seats_left bump_revision clear_selected_human_ready
      with_participants
  fill_from_bare sound has =
      let n = seat_count s.config.mode - count_values is_selected s.participants in
      let ps = select_bots (free_bots n s.participants) s.participants in
      let sound' =
        Seating-select_bots s.config.mode s.config.max_participants n s.participants (omega arith)
          sound in
      elim (add_bots_bare (seat_count s.config.mode - count_values is_selected ps) 0 s.revision
        ps) [
          | inl (e, done) ↦ inl (
            bump_revision (clear_selected_human_ready (with_participants s ps)),
            (rw (has, done) refl),
            (
              Seating-unready s.config.mode s.config.max_participants ps sound',
              ground (
                arith,
                sound'.seats,
                count-change_all_same unready_human is_selected ps (λ p. unready_same p),
              ),
            ),
          )
          | inr failed ↦ inr (with_participants s ps, rw (has, failed) refl, sound')
        ]

  -- The bots that must be added are those seats that are free but for the free bots that are there.
  abbrev pub missing : ℕ
  missing =
      (seat_count s.config.mode - count_values is_selected s.participants)
      - count_values is_free_bot s.participants

  missing_bots : needed - length (free_bots needed s.participants) ≡ missing
  unfolding seats_left
  missing_bots = omega (arith, free_bots-count needed s.participants)

  -- A seat is free, and the bots that must be added are above the limit of participants.
  abbrev pub Crowded : Type 0
  Crowded =
      (count_values is_selected s.participants < seat_count s.config.mode)
      × (s.config.max_participants < length s.participants + missing)

  crowded_room :
      (needed == 0) ≡ false
      → ltb s.config.max_participants
          (length s.participants + (needed - length (free_bots needed s.participants)))
        ≡ true
      → Crowded
  unfolding seats_left
  crowded_room some_free crowded = (ground arith, ground (arith, missing_bots))

  -- Why filling fails. It stops before its first write in a room that is not a lobby or that has no
  -- room for the bots it would add; without a character for bots it may have seated those that are
  -- there.
  abbrev pub FillFails : RoomState P → RoomError → Type 0
  FillFails s' e =
      ((e ≡ not_lobby) × (is_lobby s.phase ≡ false) × (s' ≡ s))
      ⊎ (((e ≡ room_full) × (is_lobby s.phase ≡ true) × Crowded × (s' ≡ s))
          ⊎ ((e ≡ invalid_character)
              × (default_for s.config.character_catalog built_in_bot ≡ none)
              × IsSeated s'))

  -- In a room that keeps the invariant, filling ends without a panic. It succeeds with every seat
  -- taken and the invariant kept, the limit of participants included, or it fails for the reason that
  -- its error names: the room is not a lobby; or a seat is free, and the participants with the bots
  -- that must be added, one for each free seat beyond the free bots, are more than the limit; or there
  -- is no character for bots. In the first two cases nothing has changed, in the third the invariant
  -- is kept.
  pub fill_with_bots-Fills :
      IsSeated s
      → (s' : RoomState P) × (((fill_with_bots s ≡ (s', ok tt)) × Fills s')
          ⊎ ((e : RoomError) × (fill_with_bots s ≡ (s', err e)) × FillFails s' e))
  unfolding fill_with_bots
  fill_with_bots-Fills sound = elim (Bool-cases (is_lobby s.phase)) [
    | inr busy ↦ (s, inr (not_lobby, ground arith, inl (refl, busy, refl)))
    | inl waiting ↦ elim (Bool-cases (needed == 0)) [
      | inl all_taken ↦ (s, inl (ground arith, (sound, all_taken_full sound all_taken)))
      | inr some_free ↦
          elim (Bool-cases (
            ltb s.config.max_participants
              (length s.participants + (needed - length (free_bots needed s.participants))))) [
                | inl crowded ↦ (
                  s,
                  inr (
                    room_full,
                    ground arith,
                    inr (inl (refl, waiting, crowded_room some_free crowded, refl)),
                  ),
                )
                | inr fits ↦
                    elim (Option-cases (default_for s.config.character_catalog built_in_bot)) [
                      | inl has_none ↦ elim (fill_from_bare sound has_none) [
                        | inl (s', e, filled) ↦ (s', inl (ground arith, filled))
                        | inr (s', e, kept) ↦ (
                          s',
                          inr (invalid_character, ground arith, inr (inr (refl, has_none, kept))),
                        )
                      ]
                      | inr (character_id, has) ↦
                          (let (s', e, filled) =
                              fill_from_grown character_id sound (ground arith) has in
                            (s', inl (ground arith, filled)))
                    ]
              ]
    ]
  ]
