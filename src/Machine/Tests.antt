-- ===== src/Machine/Tests.antt =====
-- Tests of a match with a small engine, and the theorems at concrete matches.
use driichi.Domain.Mode.{three_player_red_east, seat_count}
use driichi.Domain.Action.{pass}
use driichi.Domain.Event.{GameEvent, end_kyoku, ryukyoku, start_game}
use driichi.Domain.Roster.{Participant, MatchResult, human}
use driichi.Decision.Types.{DecisionError}
use driichi.Results.Types.{KyokuResultRecord}
use driichi.Results.Final.{validate}
use driichi.Projection.Table.{TableState}
use driichi.Room.Names.{trim_start, trim_end, is_whitespace}
use driichi.Machine.Types.{Engine, HeldKyoku, MatchMachine}
use driichi.Machine.Play.{new_internal, started}
use driichi.Machine.Ranking.{validate_participants, check_participants, build_result}
use driichi.Machine.Standings.{build_result-validates}
use driichi.Machine.Log.{full_log}
use driichi.Machine.Journal.{
  Continues, Call, publish, release, decide, submit, expire, store, lose, return, replay, Journaled,
  replay-Journaled,
}
use driichi.Decision.Types.{ControllerState}
use driichi.Machine.Automatic.{Automated}
use driichi.Machine.Automation.{replay-Automated}
use driichi.Machine.Reveal.{reveal, reveal_lem}
use driichi.Prelude.{ℕ, ◌≡◌, refl, false, none, some, List, [], ◌∷◌, String, ok}
use driichi.Prelude.Int.{pos}

abbrev guest : String → Participant
guest id = record { id = id; display_name = id; kind = human }

abbrev trio : List Participant
trio = guest "a" ∷ guest "b" ∷ guest "c" ∷ []

abbrev table : TableState
table = record {
  mode = three_player_red_east;
  players = [];
  dora_indicators = [];
  round = none;
  kyoku = none;
  dealer = none;
  honba = none;
  kyotaku = none;
  remaining_wall = none;
  decision = none;
}

abbrev drawn : KyokuResultRecord
drawn = record {
  version = 2;
  kyoku_sequence = 1;
  mode = three_player_red_east;
  end_event_index = 0;
  wins = [];
  settlement = record { changes = []; pot_before = 0; pot_after = 0; draw_reason = none };
  draw_event_delta_adjustment = none;
}

abbrev draw : GameEvent
draw = ryukyoku none none none none

-- An engine in which every action ends a hand in a draw.
abbrev toy : Engine
toy = record {
  State = ℕ;
  Ended = Unit;
  legal_actions = λ s seat. (s, ok (pass ∷ []));
  apply = λ s seat action. (s, ok (draw ∷ end_kyoku ∷ [], some tt));
  apply_simultaneous = λ s actions. (s, ok (draw ∷ end_kyoku ∷ [], some tt));
  result_record = λ _ _ _ _ _ _. ok drawn;
  ended_table_state = λ _ _ _ _ _. ok table;
  table_state = λ _ _ _. ok table;
  is_done = λ s. false;
  scores = λ s. pos 0 ∷ pos 0 ∷ pos 0 ∷ [];
}

abbrev start : List GameEvent
start = start_game none none ∷ []

abbrev built : MatchMachine toy
built = started toy three_player_red_east trio (7, start)

-- The match while the results of a hand are held.
abbrev hold : HeldKyoku
hold = record {
  table = table;
  result = drawn;
  next_step = 0;
  terminal_events = draw ∷ [];
  future_events = end_kyoku ∷ [];
  final_result = none;
}

abbrev holding : MatchMachine toy
holding = record built { held = some hold }

is_built :
    new_internal toy (λ _ ps. ps) (λ _ _. ok (7, start)) three_player_red_east trio 5 false
    ≡ ok built
unfolding new_internal validate_participants check_participants seat_count trim_start trim_end
    is_whitespace
is_built = refl

trio_valid : validate_participants three_player_red_east trio ≡ ok tt
unfolding validate_participants check_participants seat_count trim_start trim_end is_whitespace
trio_valid = refl

abbrev plain : DecisionError → String
plain _ = "refused"

abbrev calls : List Call
calls =
    decide 0
    ∷ lose 1 2
    ∷ submit 0 "d1" "a1" 3
    ∷ expire 999000000000
    ∷ store
    ∷ publish 0
    ∷ release
    ∷ []

replay-Journaled_example :
    Journaled built (replay plain built calls)
    × Continues
        (replay plain built calls).0
        (replay plain (replay plain built calls).0 (decide 100 ∷ publish 0 ∷ [])).0
replay-Journaled_example =
    replay-Journaled toy (λ _ ps. ps) (λ _ _. ok (7, start)) three_player_red_east trio 5 false
      built plain calls (decide 100 ∷ publish 0 ∷ []) is_built

reveal_lem_example :
    reveal holding 0
    ≡ (record holding { held = none; events = full_log holding }, ok (draw ∷ end_kyoku ∷ []))
reveal_lem_example = reveal_lem holding hold refl refl

build_result-validates_example :
    (result : MatchResult) × (build_result three_player_red_east (pos 9 ∷ pos 30 ∷ pos 9 ∷ []) trio
      ≡ ok result)
    × (validate result ≡ ok tt)
unfolding seat_count
build_result-validates_example =
    build_result-validates three_player_red_east (pos 9 ∷ pos 30 ∷ pos 9 ∷ []) trio refl trio_valid
      (refl, (refl, (refl, tt)))

-- The player of seat 1 has given up.
abbrev given_up : MatchMachine toy
given_up = record built {
  controllers =
      ControllerState.interactive ∷ ControllerState.permanent_auto ∷ ControllerState.interactive
      ∷ [];
}

replay-Automated_example :
    Automated 1
      (replay plain given_up (decide 0 ∷ lose 1 2 ∷ expire 999000000000 ∷ return 1 3 ∷ [])).0
replay-Automated_example =
    replay-Automated 1 plain given_up (decide 0 ∷ lose 1 2 ∷ expire 999000000000 ∷ return 1 3 ∷ [])
      refl
