-- ===== src/Room/Seating.antt =====
-- The invariant of a room's participants, and how the changes of the table keep it.
use driichi.Domain.Mode.{
  GameMode, four_player_red_east, four_player_red_half, three_player_red_east,
  three_player_red_half, mode_eq, is_three_player, seat_count,
}
use driichi.Domain.Roster.{ParticipantId, mjai, kind_eq}
use driichi.Room.Types.{ParticipantState}
use driichi.Room.Table.{
  Participants, contains_key, insert, remove, update, change_all, any_value, count_values,
}
use driichi.Room.TableLaws.{
  has_distinct_keys, is_keyed_by_id, length-insert, distinct-insert, keyed-insert, count-insert,
  any-insert, length-update, distinct-update, keyed-update, any-update,
}
use driichi.Room.ChangeLaws.{
  length-remove_le, distinct-remove, keyed-remove, any-remove, count-remove_le, length-change_all,
  distinct-change_all, keyed-change_all, any-change_all, count-change_all_same,
  count-change_all_none,
}
use driichi.Room.State.{Parts, RoomState}
use driichi.Room.Lobby.{is_selected, is_kind, deselected, unready_human, chosen}
use driichi.Prelude.{
  ◌∷◌, [], ℕ, ◌+◌, ◌^◌, ◌<◌, ◌≤◌, ◌≡◌, refl, true, false, not, ◌&&◌, Option, none, some, List,
  String, str_eq_refl, inl, inr, ◌∙◌, length, Bool-cases, if◌then◌else◌, ap, arith,
}
use driichi.Room.Match.{remove_all}

-- What holds of the participants of a room, for its mode and its limit, which is far below the bound
-- of `u64`.
pub record Seating (mode : GameMode) (limit : ℕ) (ps : Participants) : Type 0 where
  pub distinct : has_distinct_keys ps ≡ true
  pub keyed : is_keyed_by_id ps ≡ true
  pub within_limit : length ps ≤ limit
  pub small_limit : limit + 16 < 2 ^ 64
  pub seats : count_values is_selected ps ≤ seat_count mode
  pub no_mjai : is_three_player mode && any_value (is_kind mjai) ps ≡ false

module _ {P : Parts} where
  abbrev pub IsSeated : RoomState P → Type 0
  IsSeated s = Seating s.config.mode s.config.max_participants s.participants

pub Seating-insert :
    (mode : GameMode) (limit : ℕ) (ps : Participants) (p : ParticipantState)
    → contains_key p.participant.id ps ≡ false
    → is_three_player mode && is_kind mjai p ≡ false
    → p.selected ≡ false
    → Seating mode limit ps
    → length ps + 1 ≤ limit
    → Seating mode limit (insert p.participant.id p ps)
Seating-insert mode limit ps p fresh other unselected sound room =
    let k = p.participant.id in
    record {
      distinct = distinct-insert k p ps sound.distinct;
      keyed = keyed-insert k p ps (str_eq_refl k) sound.keyed;
      within_limit = omega (arith, length-insert k p ps fresh);
      small_limit = sound.small_limit;
      seats = rw (count-insert k p is_selected ps fresh, unselected) sound.seats;
      no_mjai = ground (arith, any-insert k p (is_kind mjai) ps);
    }

-- A change of one participant's flags that selects nobody.
pub Seating-update :
    (mode : GameMode) (limit : ℕ) (ps : Participants) (k : ParticipantId)
    (f : ParticipantState → ParticipantState)
    → ((p : ParticipantState) → (f p).participant ≡ p.participant)
    → Seating mode limit ps
    → count_values is_selected (update k f ps) ≤ seat_count mode
    → Seating mode limit (update k f ps)
Seating-update mode limit ps k f same sound seats = record {
  distinct = distinct-update k f ps ∙ sound.distinct;
  keyed = keyed-update k f ps same ∙ sound.keyed;
  within_limit = omega (arith, length-update k f ps);
  small_limit = sound.small_limit;
  seats = seats;
  no_mjai =
      rw (any-update k f (is_kind mjai) ps (λ p. ap (λ x. kind_eq x.kind mjai) (same p)))
        sound.no_mjai;
}

pub Seating-change_all :
    (mode : GameMode) (limit : ℕ) (ps : Participants) (f : ParticipantState → ParticipantState)
    → ((p : ParticipantState) → (f p).participant ≡ p.participant)
    → Seating mode limit ps
    → count_values is_selected (change_all f ps) ≤ seat_count mode
    → Seating mode limit (change_all f ps)
Seating-change_all mode limit ps f same sound seats = record {
  distinct = distinct-change_all f ps ∙ sound.distinct;
  keyed = keyed-change_all f ps same ∙ sound.keyed;
  within_limit = omega (arith, length-change_all f ps);
  small_limit = sound.small_limit;
  seats = seats;
  no_mjai =
      rw (any-change_all f (is_kind mjai) ps (λ p. ap (λ x. kind_eq x.kind mjai) (same p)))
        sound.no_mjai;
}

pub Seating-unready :
    (mode : GameMode) (limit : ℕ) (ps : Participants)
    → Seating mode limit ps
    → Seating mode limit (change_all unready_human ps)
unfolding unready_human
Seating-unready mode limit ps sound =
    Seating-change_all mode limit ps unready_human (λ p. ground arith) sound
      (omega (
        arith,
        count-change_all_same unready_human is_selected ps (λ p. ground arith),
        sound.seats,
      ))

-- All participants give up their seats.
pub Seating-cleared :
    (mode : GameMode) (limit : ℕ) (ps : Participants)
    → has_distinct_keys ps ≡ true
    → is_keyed_by_id ps ≡ true
    → length ps ≤ limit
    → limit + 16 < 2 ^ 64
    → is_three_player mode && any_value (is_kind mjai) ps ≡ false
    → Seating mode limit (change_all deselected ps)
unfolding deselected
Seating-cleared mode limit ps distinct keyed within small other = record {
  distinct = distinct-change_all deselected ps ∙ distinct;
  keyed = keyed-change_all deselected ps (λ p. refl) ∙ keyed;
  within_limit = omega (arith, length-change_all deselected ps);
  small_limit = small;
  seats = omega (arith, count-change_all_none deselected is_selected ps (λ p. refl));
  no_mjai = rw (any-change_all deselected (is_kind mjai) ps (λ p. refl)) other;
}

mode_eq_same : (a b : GameMode) → mode_eq a b ≡ true → a ≡ b
unfolding mode_eq
mode_eq_same four_player_red_east b e = ground arith
mode_eq_same four_player_red_half b e = ground arith
mode_eq_same three_player_red_east b e = ground arith
mode_eq_same three_player_red_half b e = ground arith

-- A new mode clears the seats; the old mode keeps them.
pub Seating-configured :
    (mode mode' : GameMode) (limit limit' : ℕ) (ps : Participants)
    → Seating mode limit ps
    → is_three_player mode' && any_value (is_kind mjai) ps ≡ false
    → length ps ≤ limit'
    → limit' + 16 < 2 ^ 64
    → Seating mode' limit' (if not (mode_eq mode' mode) then change_all deselected ps else ps)
Seating-configured mode mode' limit limit' ps sound other room small =
    elim (Bool-cases (mode_eq mode' mode)) [
      | inl e ↦ rw e (record {
        distinct = sound.distinct;
        keyed = sound.keyed;
        within_limit = room;
        small_limit = small;
        seats = rw (mode_eq_same mode' mode e) sound.seats;
        no_mjai = other;
      })
      | inr e ↦ rw e (Seating-cleared mode' limit' ps sound.distinct sound.keyed room small other)
    ]

pub chosen_same :
    (character_id : Option String) (p : ParticipantState)
    → (chosen character_id p).participant ≡ p.participant
unfolding chosen
chosen_same none p = refl
chosen_same (some c) p = refl

pub Seating-remove :
    (mode : GameMode) (limit : ℕ) (ps : Participants) (k : ParticipantId)
    → Seating mode limit ps
    → Seating mode limit (remove k ps)
Seating-remove mode limit ps k sound = record {
  distinct = distinct-remove k ps sound.distinct;
  keyed = keyed-remove k ps sound.keyed;
  within_limit = omega (arith, length-remove_le k ps, sound.within_limit);
  small_limit = sound.small_limit;
  seats = omega (arith, count-remove_le k is_selected ps, sound.seats);
  no_mjai = ground (arith, any-remove k (is_kind mjai) ps);
}

pub Seating-remove_all :
    (mode : GameMode) (limit : ℕ) (ks : List ParticipantId) (ps : Participants)
    → Seating mode limit ps
    → Seating mode limit (remove_all ks ps)
unfolding remove_all
Seating-remove_all mode limit [] ps sound = sound
Seating-remove_all mode limit (k ∷ ks) ps sound =
    Seating-remove_all mode limit ks (remove k ps) (Seating-remove mode limit ps k sound)
