-- ===== src/Room/Growing.antt =====
-- What the rounds that add new bots do to the participants.
use driichi.Domain.Mode.{
  GameMode, four_player_red_east, four_player_red_half, three_player_red_east,
  three_player_red_half, seat_count,
}
use driichi.Domain.Roster.{ParticipantId, mjai, kind_eq}
use driichi.Room.Types.{ParticipantState, invalid_character}
use driichi.Room.Table.{Participants, contains_key, insert, any_value, count_values}
use driichi.Room.TableLaws.{
  has_distinct_keys, is_keyed_by_id, length-insert, distinct-insert, keyed-insert, count-insert,
  any-insert,
}
use driichi.Room.Lobby.{is_selected, is_kind, unready_human}
use driichi.Room.Bots.{free_bots, select_bots, new_bot, bot_name, add_bots}
use driichi.Room.BotNames.{bot_name-is_free}
use driichi.Room.FreeBots.{
  length-free_bots, count-select_bots, length-select_bots, distinct-select_bots, keyed-select_bots,
  any-select_bots,
}
use driichi.Room.Seating.{Seating}
use driichi.Prelude.{
  ℕ, zero, suc, ◌+◌, ◌-◌, ◌^◌, ◌≤◌, ◌<◌, ◌≡◌, refl, ◌∙◌, ◌⊎◌, inl, inr, true, false, none, some,
  String, str_eq_refl, length, Bool-cases, ok, err, arith,
}

-- What the rounds of new bots have added.
pub record Grown (rounds : ℕ) (ps ps' : Participants) : Type 0 where
  pub distinct : has_distinct_keys ps' ≡ true
  pub keyed : is_keyed_by_id ps' ≡ true
  pub longer : length ps' ≡ length ps + rounds
  pub seats : count_values is_selected ps' ≡ count_values is_selected ps + rounds
  pub no_mjai : any_value (is_kind mjai) ps ≡ false → any_value (is_kind mjai) ps' ≡ false

Grown-insert :
    (unique : ParticipantId) (character_id : String) (index rounds : ℕ) (ps ps' : Participants)
    → contains_key unique ps ≡ false
    → Grown rounds (insert unique (new_bot unique character_id index) ps) ps'
    → Grown (suc rounds) ps ps'
unfolding new_bot kind_eq
Grown-insert unique character_id index rounds ps ps' fresh g =
    let bot = new_bot unique character_id index in
    record {
      distinct = g.distinct;
      keyed = g.keyed;
      longer = omega (arith, g.longer, length-insert unique bot ps fresh);
      seats = omega (arith, g.seats, count-insert unique bot is_selected ps fresh);
      no_mjai = λ none_yet. g.no_mjai (any-insert unique bot (is_kind mjai) ps refl none_yet);
    }

add_bots_next :
    (rounds index revision : ℕ) (character_id : String) (ps : Participants) (unique : ParticipantId)
    → bot_name ps revision index ≡ some unique
    → add_bots (suc rounds) index revision (some character_id) ps
      ≡ add_bots rounds
          (suc index)
          revision
          (some character_id)
          (insert unique (new_bot unique character_id index) ps)
unfolding add_bots
add_bots_next rounds index revision character_id ps unique e = ground arith

pub add_bots_grow :
    (rounds index revision : ℕ) (character_id : String) (ps : Participants)
    → index + rounds + rounds + length ps < 2 ^ 64
    → has_distinct_keys ps ≡ true
    → is_keyed_by_id ps ≡ true
    → (ps' : Participants) × (add_bots rounds index revision (some character_id) ps ≡ (ps', ok tt))
      × Grown rounds ps ps'
unfolding add_bots new_bot
add_bots_grow zero index revision character_id ps small distinct keyed = (
  ps,
  refl,
  record {
    distinct = distinct;
    keyed = keyed;
    longer = omega arith;
    seats = omega arith;
    no_mjai = λ h. h;
  },
)
add_bots_grow (suc rounds) index revision character_id ps small distinct keyed =
    let (unique, found, fresh) = bot_name-is_free ps revision index (omega arith) in
    let bot = new_bot unique character_id index in
    let (ps', e, g) =
      add_bots_grow rounds (suc index) revision character_id (insert unique bot ps)
        (omega (arith, length-insert unique bot ps fresh)) (distinct-insert unique bot ps distinct)
        (keyed-insert unique bot ps (str_eq_refl unique) keyed) in
    (
      ps',
      add_bots_next rounds index revision character_id ps unique found ∙ e,
      Grown-insert unique character_id index rounds ps ps' fresh g,
    )

pub seat_count_le : (mode : GameMode) → seat_count mode ≤ 4
unfolding seat_count
seat_count_le four_player_red_east = omega arith
seat_count_le four_player_red_half = omega arith
seat_count_le three_player_red_east = omega arith
seat_count_le three_player_red_half = omega arith

-- The bots that are there take seats.
pub Seating-select_bots :
    (mode : GameMode) (limit n : ℕ) (ps : Participants)
    → n ≤ seat_count mode - count_values is_selected ps
    → Seating mode limit ps
    → Seating mode limit (select_bots (free_bots n ps) ps)
Seating-select_bots mode limit n ps few sound = record {
  distinct = distinct-select_bots (free_bots n ps) ps ∙ sound.distinct;
  keyed = keyed-select_bots (free_bots n ps) ps ∙ sound.keyed;
  within_limit = omega (arith, length-select_bots (free_bots n ps) ps, sound.within_limit);
  small_limit = sound.small_limit;
  seats = omega (arith, count-select_bots n ps sound.distinct, length-free_bots n ps, sound.seats);
  no_mjai = rw (any-select_bots (free_bots n ps) ps) sound.no_mjai;
}

pub Seating-Grown :
    (mode : GameMode) (limit rounds : ℕ) (ps ps' : Participants)
    → Seating mode limit ps
    → Grown rounds ps ps'
    → length ps + rounds ≤ limit
    → count_values is_selected ps + rounds ≤ seat_count mode
    → Seating mode limit ps'
Seating-Grown mode limit rounds ps ps' sound g room free = record {
  distinct = g.distinct;
  keyed = g.keyed;
  within_limit = omega (arith, g.longer);
  small_limit = sound.small_limit;
  seats = omega (arith, g.seats);
  no_mjai = elim (Bool-cases (any_value (is_kind mjai) ps)) [
    | inl some_mjai ↦ ground arith
    | inr none_yet ↦ ground (arith, g.no_mjai none_yet)
  ];
}

pub unready_same : (p : ParticipantState) → is_selected (unready_human p) ≡ is_selected p
unfolding unready_human
unready_same p = ground arith

pub add_bots_bare :
    (rounds index revision : ℕ) (ps : Participants)
    → ((rounds ≡ 0) × (add_bots rounds index revision none ps ≡ (ps, ok tt)))
      ⊎ (add_bots rounds index revision none ps ≡ (ps, err invalid_character))
unfolding add_bots
add_bots_bare zero index revision ps = inl (refl, refl)
add_bots_bare (suc rounds) index revision ps = inr refl
