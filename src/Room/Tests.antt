-- ===== src/Room/Tests.antt =====
-- A four-player room with one human and one bot, run through commands.
use driichi.Domain.Mode.{Seat, four_player_red_half, is_three_player, seat_count}
use driichi.Domain.Roster.{
  ParticipantId, ParticipantKind, built_in_bot, human, MatchResult, kind_eq,
}
use driichi.Decision.Clock.{casual}
use driichi.Decision.Types.{Presence}
use driichi.Room.Catalog.{RoomConfig, human_use, bot_use}
use driichi.Room.Types.{
  ParticipantState, RoomController, no_role, lobby, playing, RoomError, RoomPhase, post_match,
  is_post_match, is_connected, MatchPlayerSnapshot,
}
use driichi.Room.Table.{Participants, get, any_value, count_values, contains_key}
use driichi.Room.TableLaws.{has_distinct_keys, is_keyed_by_id}
use driichi.Room.State.{Parts, RoomState}
use driichi.Room.Bots.{bot_name, new_bot, fill_with_bots}
use driichi.Room.Match.{finish_match, can_rematch, rematch_entry, rematch_entries, has_given_up}
use driichi.Room.Rematch.{Replays, can_rematch-Returns}
use driichi.Room.CommandTypes.{RoomCommand}
use driichi.Room.Commands.{apply_simple}
use driichi.Room.Seating.{IsSeated}
use driichi.Room.BotNames.{bot_name-is_free}
use driichi.Room.Filling.{Fills, FillFails, fill_with_bots-Fills}
use driichi.Room.CommandLaws.{apply_simple-IsSeated}
use driichi.Room.History.{finish_match-clears}
use driichi.Prelude.{
  ◌↔◌, ℕ, ◌+◌, ◌≡◌, ◌⊎◌, refl, true, false, none, some, [], ◌∷◌, String, is_some, ok, err, arith,
}

-- A match machine that counts the calls.
abbrev parts : Parts
parts = record {
  Machine = ℕ;
  History = ℕ;
  ResultStep = ℕ;
  default_history = 0;
  disconnect = λ machine seat. (machine + 1, ok tt);
  reconnect = λ machine seat. (machine + 1, ok tt);
  set_permanent_auto = λ machine seat. (machine + 1, err "closed");
}

abbrev config : RoomConfig
config = record {
  room_name = "Room";
  mode = four_player_red_half;
  character_catalog = ("player-red", human_use) ∷ ("tsumogiri-bot", bot_use) ∷ [];
  time_control = casual;
  replay_save = true;
  benchmark = false;
  max_participants = 8;
  disconnected_participant_expiry = 600;
  empty_room_cleanup = 1800;
}

abbrev alice : ParticipantState
alice = record {
  participant = record { id = "alice"; display_name = "Alice"; kind = human };
  character_id = "player-red";
  token_id = none;
  presence = Presence.connected;
  selected = true;
  ready = true;
  role = no_role;
  controller = RoomController.interactive;
  disconnected_at = none;
  remove_after_match = true;
}

abbrev table : Participants
table = ("alice", alice) ∷ ("builtin-bot-1", new_bot "builtin-bot-1" "tsumogiri-bot" 0) ∷ []

abbrev room_in : RoomPhase → RoomState parts
room_in phase = record {
  id = "room";
  join_code = "000000";
  config = config;
  phase = phase;
  participants = table;
  match_roster = [];
  match_machine = some 0;
  history = 0;
  result_step = none;
  result = none;
  benchmark = none;
  benchmark_roster_ids = [];
  revision = 0;
  is_deleted = false;
  is_shutting_down = false;
  persistence_degraded = false;
  replay_available = true;
  empty_since = none;
  created_at = 0;
}

room_in-IsSeated : (phase : RoomPhase) → IsSeated (room_in phase)
unfolding has_distinct_keys is_keyed_by_id count_values any_value is_three_player seat_count kind_eq
    new_bot contains_key
room_in-IsSeated phase = record {
  distinct = refl;
  keyed = refl;
  within_limit = omega arith;
  small_limit = omega arith;
  seats = omega arith;
  no_mjai = refl;
}

bot_name-is_free_example :
    (unique : String) × (bot_name table 0 0 ≡ some unique) × (contains_key unique table ≡ false)
bot_name-is_free_example = bot_name-is_free table 0 0 (omega arith)

fill_with_bots-Fills_example :
    (s' : RoomState parts) × (((fill_with_bots (room_in lobby) ≡ (s', ok tt))
        × Fills (room_in lobby) s')
      ⊎ ((e : RoomError) × (fill_with_bots (room_in lobby) ≡ (s', err e))
          × FillFails (room_in lobby) s' e))
fill_with_bots-Fills_example = fill_with_bots-Fills (room_in lobby) (room_in-IsSeated lobby)

apply_simple-IsSeated_example :
    IsSeated (apply_simple (room_in lobby) 5 RoomCommand.fill_with_bots).0
apply_simple-IsSeated_example =
    apply_simple-IsSeated (room_in lobby) 5 RoomCommand.fill_with_bots (room_in-IsSeated lobby)

abbrev final_result : MatchResult
final_result = record { mode = four_player_red_half; players = []; final_scores = [] }

finish_match-clears_example :
    ((finish_match (room_in (playing "m")) final_result 9).1 ≡ some "m")
    × (any_value
          (λ p. p.remove_after_match)
          (finish_match (room_in (playing "m")) final_result 9).0.participants
        ≡ false)
    × (is_some (finish_match (room_in (playing "m")) final_result 9).0.match_machine ≡ false)
finish_match-clears_example =
    finish_match-clears (room_in (playing "m")) "m" final_result 9 (room_in-IsSeated (playing "m"))
      refl

abbrev bot_player : String → ParticipantId × ParticipantState
bot_player id = (id, new_bot id "tsumogiri-bot" 0)

abbrev roster_entry : ParticipantKind → String → Seat → MatchPlayerSnapshot
roster_entry kind id seat = record {
  participant_id = id;
  display_name = id;
  kind = kind;
  seat = seat;
  character_id = none;
  controller = RoomController.interactive;
}

abbrev after_match : RoomState parts
after_match = record (room_in (post_match "m")) {
  participants =
      ("alice", record alice { remove_after_match = false })
      ∷ bot_player "bot-1"
      ∷ bot_player "bot-2"
      ∷ bot_player "bot-3"
      ∷ [];
  match_roster =
      roster_entry human "alice" 0
      ∷ roster_entry built_in_bot "bot-1" 1
      ∷ roster_entry built_in_bot "bot-2" 2
      ∷ roster_entry built_in_bot "bot-3" 3
      ∷ [];
}

after_match-can_rematch : can_rematch after_match ≡ ok tt
unfolding can_rematch is_post_match seat_count rematch_entries rematch_entry get has_given_up
    is_connected kind_eq new_bot
after_match-can_rematch = refl

can_rematch-Returns_example : (can_rematch after_match ≡ ok tt) ↔ Replays after_match
can_rematch-Returns_example = can_rematch-Returns after_match
