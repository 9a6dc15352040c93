-- ===== src/Machine/Steps.antt =====
-- crates/double_riichi_core/src/match_machine.rs: how the events of an engine's step are recorded. At
-- the end of a hand they are held back, and shown when its results have been published.
use driichi.Domain.Event.{GameEvent, start_kyoku, hora, ryukyoku, end_kyoku}
use driichi.Domain.Roster.{MatchResult, completed}
use driichi.Results.Types.{KyokuResultRecord, PublishedKyokuResults}
use driichi.Results.Final.{validate}
use driichi.Projection.Table.{TableState, with_settlement_state}
use driichi.Machine.Types.{
  Engine, HeldKyoku, MatchMachine, Run, no_decision, results_pending, and_then, or_abort,
  abort_for_engine,
}
use driichi.Machine.Ranking.{build_result}
use driichi.Prelude.{
  ℕ, zero, suc, ◌+◌, Bool, true, false, not, ◌&&◌, ◌||◌, Option, none, some, List, [], ◌∷◌, ◌++◌,
  map, String, ◌==◌, ltb, leb, count, length, if◌then◌else◌, Outcome, ok, err, panic,
}
use driichi.Prelude.Int.{ℤ, eqb_ℤ}
use driichi.Prelude.Decimal.{cat}

abbrev pub take {ℓ} : {A : Type ℓ} → ℕ → List A → List A
take zero xs = []
take (suc n) [] = []
take (suc n) (x ∷ xs) = x ∷ take n xs

abbrev pub drop {ℓ} : {A : Type ℓ} → ℕ → List A → List A
drop zero xs = xs
drop (suc n) [] = []
drop (suc n) (x ∷ xs) = drop n xs

-- `iter().position`.
unfoldable pub position {ℓ} : {A : Type ℓ} → (A → Bool) → List A → Option ℕ
position p [] = none
position p (x ∷ xs) =
    let rest = position p xs in
    if p x then some 0 else elim rest [ none ↦ none | some i ↦ some (suc i) ]

abbrev pub is_start_kyoku : GameEvent → Bool
is_start_kyoku (start_kyoku _ _ _ _ _ _ _ _) = true
is_start_kyoku _ = false

abbrev pub is_terminal : GameEvent → Bool
is_terminal (hora _ _ _ _ _ _ _ _ _) = true
is_terminal (ryukyoku _ _ _ _) = true
is_terminal _ = false

abbrev pub is_end_kyoku : GameEvent → Bool
is_end_kyoku end_kyoku = true
is_end_kyoku _ = false

-- `take_while`.
unfoldable pub before_end : List GameEvent → List GameEvent
before_end [] = []
before_end (e ∷ es) = let rest = before_end es in if is_end_kyoku e then [] else e ∷ rest

abbrev pub scores_eq : List ℤ → List ℤ → Bool
scores_eq [] [] = true
scores_eq (x ∷ xs) (y ∷ ys) = eqb_ℤ x y && scores_eq xs ys
scores_eq _ _ = false

abbrev pub scores_after : KyokuResultRecord → List ℤ
scores_after r = map (λ c. c.after) r.settlement.changes

abbrev pub scores_before : KyokuResultRecord → List ℤ
scores_before r = map (λ c. c.before) r.settlement.changes

-- The text of `EngineError::Divergence`.
abbrev pub divergence : String → String
divergence reason = cat "engine adapter divergence: " reason

-- The last step shows the settlement and the terminal events.
unfoldable pub settle : HeldKyoku → HeldKyoku
settle hold = record hold {
  next_step = suc hold.next_step;
  table =
      with_settlement_state hold.table (scores_after hold.result) hold.result.settlement.pot_after;
  terminal_events = [];
}

-- Where the events after the public ones begin, and where the hand ends.
unfoldable pub split_points : List GameEvent → Outcome String (ℕ × ℕ)
split_points events = elim (position is_terminal events) [
  | none ↦ err (divergence "ended kyoku without terminal event")
  | some terminal_start ↦ elim (position is_end_kyoku events) [
    | none ↦ err (divergence "ended kyoku without EndKyoku")
    | some end ↦
        if leb end terminal_start
        then err (divergence "terminal follows EndKyoku")
        else ok (terminal_start, end)
  ]
]

module _ {E : Engine} where
  unfoldable pub published_kyoku_results : MatchMachine E → Option PublishedKyokuResults
  published_kyoku_results m = elim m.held [
    | none ↦ none
    | some hold ↦
        if ltb 0 hold.next_step
        then some (record {
          kyoku_sequence = hold.result.kyoku_sequence;
          wins = take hold.next_step hold.result.wins;
          settlement =
              if ltb (length hold.result.wins) hold.next_step
              then some hold.result.settlement
              else none;
        })
        else none
  ]

  unfoldable pub publish_held : MatchMachine E → HeldKyoku → ℕ → Run E (List GameEvent)
  publish_held m hold step_index =
      if not (step_index == hold.next_step) || ltb (length hold.result.wins) step_index
      then (m, err results_pending)
      else if step_index == length hold.result.wins
      then (
        record m { held = some (settle hold); events = m.events ++ hold.terminal_events },
        ok hold.terminal_events,
      )
      else (record m { held = some (record hold { next_step = suc hold.next_step }) }, ok [])

  unfoldable pub publish_kyoku_step : MatchMachine E → ℕ → Run E (List GameEvent)
  publish_kyoku_step m step_index = elim m.held [
    | none ↦ (m, err no_decision)
    | some hold ↦ publish_held m hold step_index
  ]

  unfoldable pub release_held : MatchMachine E → HeldKyoku → Run E (List GameEvent)
  release_held m hold =
      if not (ltb (length hold.result.wins) hold.next_step) then (m, err results_pending) else (
        record m {
          held = none;
          events = m.events ++ hold.future_events;
          status = elim hold.final_result [ none ↦ m.status | some result ↦ completed result ];
        },
        ok hold.future_events,
      )

  unfoldable pub release_kyoku : MatchMachine E → Run E (List GameEvent)
  release_kyoku m = elim m.held [
    | none ↦ (m, err results_pending)
    | some hold ↦ release_held m hold
  ]

  -- The result of a match that the engine has ended, if it has, after its check.
  unfoldable pub final_result : MatchMachine E → Outcome String MatchResult
  final_result m = elim (build_result m.mode (E.scores m.engine) m.players) [
    | ok result ↦ elim (validate result) [
      | ok _ ↦ ok result
      | err reason ↦ err (divergence reason)
      | panic ↦ panic
    ]
    | err reason ↦ err reason
    | panic ↦ panic
  ]

  unfoldable pub held_final_result :
      MatchMachine E → KyokuResultRecord → Outcome String (Option MatchResult)
  held_final_result m r = if not (E.is_done m.engine) then ok none else elim (final_result m) [
    | ok result ↦
        if scores_eq (scores_after r) result.final_scores
        then ok (some result)
        else err (divergence "final scores differ from settlement")
    | err reason ↦ err reason
    | panic ↦ panic
  ]

  unfoldable pub hold_kyoku :
      MatchMachine E
      → List GameEvent
      → TableState
      → KyokuResultRecord
      → Option MatchResult
      → ℕ
      → ℕ
      → Run E (List GameEvent)
  hold_kyoku m events table r final terminal_start end =
      let shown = take terminal_start events in
      (
        record m {
          last_settlement_scores = some (scores_after r);
          journal_event_count = m.journal_event_count + length events;
          persistence_events = m.persistence_events ++ events;
          events = m.events ++ shown;
          decision = none;
          held = some (record {
            table = table;
            result = r;
            next_step = 0;
            terminal_events = drop terminal_start (take end events);
            future_events = drop end events;
            final_result = final;
          });
        },
        ok shown,
      )

  unfoldable pub record_ended : MatchMachine E → List GameEvent → E.Ended → Run E (List GameEvent)
  record_ended m events ended =
      let sequence = count is_start_kyoku m.events + count is_start_kyoku (before_end events) in
      and_then
        (or_abort m
          (E.result_record m.engine ended m.players sequence m.journal_event_count events))
        (λ m r.
          and_then
            (or_abort m (
              E.ended_table_state m.engine ended m.players (scores_before r)
                r.settlement.pot_before))
            (λ m table. and_then (or_abort m (held_final_result m r)) (λ m final.
              and_then (or_abort m (split_points events))
                (λ m points. hold_kyoku m events table r final points.0 points.1))))

  unfoldable pub record_events : MatchMachine E → List GameEvent → Run E (List GameEvent)
  record_events m events =
      let m' : MatchMachine E = record m {
        journal_event_count = m.journal_event_count + length events;
        persistence_events = m.persistence_events ++ events;
        events = m.events ++ events;
      } in
      if not (E.is_done m'.engine)
      then (m', ok events)
      else and_then (or_abort m' (final_result m')) (λ m result.
        if elim m.last_settlement_scores [
          | none ↦ true
          | some last ↦ scores_eq last result.final_scores
        ]
        then (record m { status = completed result }, ok events)
        else abort_for_engine m (divergence "final scores differ from settlement"))

  unfoldable pub record_outcome :
      MatchMachine E → List GameEvent × Option (E.Ended) → Run E (List GameEvent)
  record_outcome m (events, none) = record_events m events
  record_outcome m (events, some ended) = record_ended m events ended

  -- The machine, and the events that are handed over.
  unfoldable pub take_persistence_events : MatchMachine E → MatchMachine E × List GameEvent
  take_persistence_events m = (record m { persistence_events = [] }, m.persistence_events)
