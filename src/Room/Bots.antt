-- ===== src/Room/Bots.antt =====
-- crates/double_riichi_core/src/room.rs: filling the free seats with built-in bots. This operation
-- writes before its last error, so it returns the state beside the result.
use driichi.Domain.Mode.{seat_count}
use driichi.Domain.Roster.{ParticipantId, built_in_bot}
use driichi.Decision.Types.{Presence}
use driichi.Room.Catalog.{default_for}
use driichi.Room.Types.{
  ParticipantState, RoomController, no_role, bot_seat, is_lobby, RoomError, room_full,
  invalid_character, not_lobby,
}
use driichi.Room.Table.{Participants, contains_key, insert, update, count_values}
use driichi.Room.State.{Parts, RoomState, bump_revision, saturating_add}
use driichi.Room.Lobby.{is_selected, is_kind, with_participants, clear_selected_human_ready}
use driichi.Prelude.{
  ℕ, zero, suc, ◌+◌, ◌-◌, Bool, true, false, not, ◌&&◌, Option, none, some, List, [], ◌∷◌, String,
  ltb, ◌==◌, length, if◌then◌else◌, Outcome, ok, err, panic,
}
use driichi.Prelude.Decimal.{decimal, cat}

abbrev pub is_free_bot : ParticipantState → Bool
is_free_bot p = is_kind built_in_bot p && not p.selected

-- `filter`, `map` to the key and `take`.
unfoldable pub free_bots : ℕ → Participants → List ParticipantId
free_bots zero ps = []
free_bots (suc n) [] = []
free_bots (suc n) ((k, p) ∷ ps) = if is_free_bot p then k ∷ free_bots n ps else free_bots (suc n) ps

abbrev pub seated : ParticipantState → ParticipantState
seated p = record p { selected = true }

unfoldable pub select_bots : List ParticipantId → Participants → Participants
select_bots [] ps = ps
select_bots (k ∷ ks) ps = select_bots ks (update k seated ps)

unfoldable pub first_name : ℕ → ℕ → ParticipantId
first_name revision index = cat "builtin-bot-" (decimal (saturating_add revision (index + 1)))

unfoldable pub later_name : ℕ → ℕ → ParticipantId
later_name revision suffix = cat "builtin-bot-" (cat (decimal revision) (cat "-" (decimal suffix)))

-- The `while` loop over suffixes, with one unit of fuel for each test; `none` is a loop that has not
-- ended.
unfoldable pub unique_name : ℕ → Participants → ℕ → ℕ → ParticipantId → Option ParticipantId
unique_name zero ps revision suffix unique = none
unique_name (suc fuel) ps revision suffix unique =
    let next = saturating_add suffix 1 in
    let rest = unique_name fuel ps revision next (later_name revision next) in
    if contains_key unique ps then rest else some unique

unfoldable pub new_bot : ParticipantId → String → ℕ → ParticipantState
new_bot unique character_id index = record {
  participant = record {
    id = unique;
    display_name = cat "Bot " (decimal (index + 1));
    kind = built_in_bot;
  };
  character_id = character_id;
  token_id = none;
  presence = Presence.connected;
  selected = true;
  ready = true;
  role = no_role;
  controller = RoomController.permanent_auto bot_seat;
  disconnected_at = none;
  remove_after_match = false;
}

-- The name for the bot of one round. Each round tests at most two names more than there are keys: the first name, and as many later ones as there are keys and one.
unfoldable pub bot_name : Participants → ℕ → ℕ → Option ParticipantId
bot_name ps revision index =
    unique_name (suc (suc (length ps))) ps revision index (first_name revision index)

-- The `for` loop over `0..remaining`: the rounds left, and the index of the next. A name that is
-- not found is the loop without end, which `panic` stands for.
unfoldable pub add_bots :
    ℕ → ℕ → ℕ → Option String → Participants → Participants × Outcome RoomError (Unit {0})
add_bots zero index revision character ps = (ps, ok tt)
add_bots (suc rounds) index revision none ps = (ps, err invalid_character)
add_bots (suc rounds) index revision (some character_id) ps = elim (bot_name ps revision index) [
  | none ↦ (ps, panic)
  | some unique ↦
      add_bots rounds (suc index) revision (some character_id)
        (insert unique (new_bot unique character_id index) ps)
]

abbrev pub Filled : Parts → Type 0
Filled P = RoomState P × Outcome RoomError (Unit {0})

module _ {P : Parts} where
  unfoldable pub finish_fill : RoomState P → Participants × Outcome RoomError (Unit {0}) → Filled P
  finish_fill s (ps, ok _) =
      (bump_revision (clear_selected_human_ready (with_participants s ps)), ok tt)
  finish_fill s (ps, err e) = (with_participants s ps, err e)
  finish_fill s (ps, panic) = (with_participants s ps, panic)

  unfoldable pub seats_left : RoomState P → Participants → ℕ
  seats_left s ps = seat_count s.config.mode - count_values is_selected ps

  unfoldable pub fill_from : RoomState P → List ParticipantId → Filled P
  fill_from s existing =
      let ps = select_bots existing s.participants in
      finish_fill s (
        add_bots (seats_left s ps) 0 s.revision
          (default_for s.config.character_catalog built_in_bot) ps)

  unfoldable pub fill_with_bots : RoomState P → Filled P
  fill_with_bots s =
      let needed = seats_left s s.participants in
      let existing = free_bots needed s.participants in
      if not (is_lobby s.phase)
      then (s, err not_lobby)
      else if needed == 0
      then (s, ok tt)
      else if ltb s.config.max_participants (length s.participants + (needed - length existing))
      then (s, err room_full)
      else fill_from s existing
