-- ===== src/Room/Catalog.antt =====
-- crates/double_riichi_core/src/room.rs: which characters a participant may use, and a room's
-- configuration. The catalog's `BTreeMap` is a list in the order of its keys.
use Prim.Native.Nat.{Ordering}
use Prim.Native.String.{compare}
use driichi.Domain.Mode.{GameMode}
use driichi.Domain.Roster.{ParticipantKind, human, mjai, mcp, built_in_bot}
use driichi.Decision.Clock.{TimeControl, Duration, casual, from_secs}
use driichi.Room.Names.{normalize_name}
use driichi.Prelude.{
  ℕ, ◌*◌, Bool, true, false, Option, none, some, List, [], ◌∷◌, String, str_eq, if◌then◌else◌,
}

pub data CharacterUsage : Type 0 where
  human_use mjai_use mcp_use bot_use : CharacterUsage

unfoldable pub usage_eq : CharacterUsage → CharacterUsage → Bool
usage_eq human_use human_use = true
usage_eq mjai_use mjai_use = true
usage_eq mcp_use mcp_use = true
usage_eq bot_use bot_use = true
usage_eq _ _ = false

abbrev pub CharacterCatalog : Type 0
CharacterCatalog = List (String × CharacterUsage)

-- `BTreeMap::insert`.
unfoldable pub insert_character : String → CharacterUsage → CharacterCatalog → CharacterCatalog
insert_character id usage [] = (id, usage) ∷ []
insert_character id usage ((key, old) ∷ rest) = elim (compare id key) [
  | Ordering.lt ↦ (id, usage) ∷ (key, old) ∷ rest
  | Ordering.eq ↦ (id, usage) ∷ rest
  | Ordering.gt ↦ (key, old) ∷ insert_character id usage rest
]

unfoldable pub starter : CharacterCatalog
unfolding insert_character
starter = insert_character "tsumogiri-bot" bot_use (
    insert_character "mcp-bot" mcp_use (
      insert_character "mjai-bot" mjai_use
        (insert_character "player-blue" human_use (insert_character "player-red" human_use []))))

unfoldable pub usage_of : String → CharacterCatalog → Option CharacterUsage
usage_of id [] = none
usage_of id ((key, usage) ∷ rest) = if str_eq key id then some usage else usage_of id rest

unfoldable pub expected_usage : ParticipantKind → CharacterUsage
expected_usage human = human_use
expected_usage mjai = mjai_use
expected_usage mcp = mcp_use
expected_usage built_in_bot = bot_use

unfoldable pub first_with : CharacterUsage → CharacterCatalog → Option String
first_with usage [] = none
first_with usage ((key, candidate) ∷ rest) =
    if usage_eq candidate usage then some key else first_with usage rest

unfoldable pub default_for : CharacterCatalog → ParticipantKind → Option String
default_for catalog kind = first_with (expected_usage kind) catalog

unfoldable pub valid_for : CharacterCatalog → String → ParticipantKind → Bool
valid_for catalog id kind = elim (usage_of id catalog) [
  | none ↦ false
  | some usage ↦ usage_eq usage (expected_usage kind)
]

abbrev pub default_max_participants : ℕ
default_max_participants = 32

pub record RoomConfig : Type 0 where
  pub room_name : String
  pub mode : GameMode
  pub character_catalog : CharacterCatalog
  pub time_control : TimeControl
  pub replay_save : Bool
  pub benchmark : Bool
  pub max_participants : ℕ
  pub disconnected_participant_expiry : Duration
  pub empty_room_cleanup : Duration

unfoldable pub new_config : String → GameMode → CharacterCatalog → RoomConfig
new_config room_name mode catalog = record {
  room_name = elim (normalize_name room_name) [ none ↦ "Room" | some name ↦ name ];
  mode = mode;
  character_catalog = catalog;
  time_control = casual;
  replay_save = true;
  benchmark = false;
  max_participants = default_max_participants;
  disconnected_participant_expiry = from_secs (10 * 60);
  empty_room_cleanup = from_secs (30 * 60);
}
