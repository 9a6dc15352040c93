-- ===== src/Room/State.antt =====
-- crates/double_riichi_core/src/room.rs: the state of a room. The match machine, the event history
-- and the step of a result screen are parts that the room holds and calls.
use driichi.Domain.Mode.{Seat}
use driichi.Domain.Roster.{
  ParticipantId, MatchResult, ParticipantKind, human, mjai, mcp, built_in_bot,
}
use driichi.Decision.Clock.{Instant}
use driichi.Room.Catalog.{RoomConfig}
use driichi.Room.Names.{normalize_name}
use driichi.Room.Types.{
  RoomPhase, lobby, is_playing, is_connected, is_running, MatchPlayerSnapshot, BenchmarkProgress,
  RoomError, invalid_room_name,
}
use driichi.Room.Table.{Participants, any_value}
use driichi.Prelude.{
  ℕ, ◌+◌, ◌-◌, ◌^◌, Bool, true, false, not, ◌&&◌, ◌||◌, Option, none, some, List, [], String, ◌==◌,
  min, is_some, if◌then◌else◌, Outcome, ok, err,
}

-- What the room uses of the match machine. A call returns the machine that it leaves, and a failure
-- is the text of its error.
pub record Parts : Type 1 where
  pub Machine : Type 0
  pub History : Type 0
  pub ResultStep : Type 0
  pub default_history : History
  pub disconnect : Machine → Seat → Machine × Outcome String (Unit {0})
  pub reconnect : Machine → Seat → Machine × Outcome String (Unit {0})
  pub set_permanent_auto : Machine → Seat → Machine × Outcome String (Unit {0})

pub record RoomState (P : Parts) : Type 0 where
  pub id : String
  pub join_code : String
  pub config : RoomConfig
  pub phase : RoomPhase
  pub participants : Participants
  pub match_roster : List MatchPlayerSnapshot
  pub match_machine : Option (P.Machine)
  pub history : P.History
  pub result_step : Option (P.ResultStep)
  pub result : Option MatchResult
  pub benchmark : Option BenchmarkProgress
  pub benchmark_roster_ids : List ParticipantId
  pub revision : ℕ
  pub is_deleted : Bool
  pub is_shutting_down : Bool
  pub persistence_degraded : Bool
  pub replay_available : Bool
  pub empty_since : Option Instant
  pub created_at : ℕ

unfoldable pub with_ids :
    (P : Parts) → String → String → RoomConfig → Instant → ℕ → Outcome RoomError (RoomState P)
with_ids P id join_code config now unix_now =
    if config.max_participants == 0 || not (is_some (normalize_name config.room_name))
    then err invalid_room_name
    else ok (record {
      id = id;
      join_code = join_code;
      config = config;
      phase = lobby;
      participants = [];
      match_roster = [];
      match_machine = none;
      history = P.default_history;
      result_step = none;
      result = none;
      benchmark = none;
      benchmark_roster_ids = [];
      revision = 0;
      is_deleted = false;
      is_shutting_down = false;
      persistence_degraded = false;
      replay_available = config.replay_save;
      empty_since = some now;
      created_at = unix_now;
    })

-- A saturating addition on `u64`.
abbrev pub saturating_add : ℕ → ℕ → ℕ
saturating_add a b = min (a + b) (2 ^ 64 - 1)

unfoldable pub is_external : ParticipantKind → Bool
is_external human = true
is_external mjai = true
is_external mcp = true
is_external built_in_bot = false

module _ {P : Parts} where
  unfoldable pub bump_revision : RoomState P → RoomState P
  bump_revision s = record s { revision = saturating_add s.revision 1 }

  unfoldable pub benchmark_running : RoomState P → Bool
  benchmark_running s = elim s.benchmark [ none ↦ false | some run ↦ is_running run.status ]

  unfoldable pub external_connected : RoomState P → Bool
  external_connected s =
      any_value (λ p. is_external p.participant.kind && is_connected p.presence) s.participants

  unfoldable pub refresh_empty_since : RoomState P → Instant → RoomState P
  refresh_empty_since s now =
      if external_connected s || is_playing s.phase || benchmark_running s
      then record s { empty_since = none }
      else if not (is_some s.empty_since)
      then record s { empty_since = some now }
      else s
