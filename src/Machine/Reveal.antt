-- ===== src/Machine/Reveal.antt =====
-- The way a hand's results are published: each step in its order, then the release.
use driichi.Domain.Event.{GameEvent}
use driichi.Domain.Roster.{completed}
use driichi.Machine.Types.{Engine, HeldKyoku, MatchMachine, Run, and_then}
use driichi.Machine.Steps.{publish_held, publish_kyoku_step, release_held, release_kyoku, settle}
use driichi.Machine.Log.{held_log, full_log}
use driichi.Prelude.{
  ℕ, zero, suc, ◌+◌, ◌<◌, ◌≡◌, refl, sym, ap, ◌∙◌, true, false, none, some, List, [], ◌++◌, length,
  append_nil, append_assoc, ltb, ◌==◌, ok, arith,
}

module _ {E : Engine} where
  -- `k` steps from step `i` on, and the events that they show.
  unfoldable pub publish_steps : MatchMachine E → ℕ → ℕ → Run E (List GameEvent)
  publish_steps m i zero = (m, ok [])
  publish_steps m i (suc k) =
      and_then (publish_kyoku_step m i)
        (λ m shown. and_then (publish_steps m (suc i) k) (λ m more. (m, ok (shown ++ more))))

  -- All steps of a hand with this many wins, and the release.
  unfoldable pub reveal : MatchMachine E → ℕ → Run E (List GameEvent)
  reveal m wins =
      and_then (publish_steps m 0 (suc wins))
        (λ m shown. and_then (release_kyoku m) (λ m more. (m, ok (shown ++ more))))

  abbrev held_at : MatchMachine E → HeldKyoku → ℕ → MatchMachine E
  held_at m hold n = record m { held = some (record hold { next_step = n }) }

  abbrev settled_at : MatchMachine E → HeldKyoku → ℕ → MatchMachine E
  settled_at m hold n = record m {
    held = some (settle (record hold { next_step = n }));
    events = m.events ++ hold.terminal_events;
  }

  next_step :
      (m : MatchMachine E) (hold : HeldKyoku) (i : ℕ)
      → i < length hold.result.wins
      → publish_kyoku_step (held_at m hold i) i ≡ (held_at m hold (suc i), ok [])
  unfolding publish_kyoku_step publish_held
  next_step m hold i low =
      let a : (i == i) ≡ true = ground arith in
      let b : ltb (length hold.result.wins) i ≡ false = ground arith in
      let c : (i == length hold.result.wins) ≡ false = ground arith in rw (a, b, c) refl

  last_step :
      (m : MatchMachine E) (hold : HeldKyoku) (i : ℕ)
      → i ≡ length hold.result.wins
      → publish_kyoku_step (held_at m hold i) i ≡ (settled_at m hold i, ok hold.terminal_events)
  unfolding publish_kyoku_step publish_held
  last_step m hold i is =
      let a : (i == i) ≡ true = ground arith in
      let b : ltb (length hold.result.wins) i ≡ false = ground arith in
      let c : (i == length hold.result.wins) ≡ true = ground arith in rw (a, b, c) refl

  publish_steps_next :
      (m m' : MatchMachine E) (i k : ℕ) (shown : List GameEvent)
      → publish_kyoku_step m i ≡ (m', ok shown)
      → publish_steps m i (suc k)
        ≡ and_then (publish_steps m' (suc i) k) (λ m more. (m, ok (shown ++ more)))
  unfolding publish_steps and_then
  publish_steps_next m m' i k shown step =
      ap
        (λ e.
          and_then e
            (λ m shown. and_then (publish_steps m (suc i) k) (λ m more. (m, ok (shown ++ more)))))
        step

  publish_steps_all :
      (m : MatchMachine E) (hold : HeldKyoku) (i k : ℕ)
      → i + k ≡ length hold.result.wins
      → publish_steps (held_at m hold i) i (suc k)
        ≡ (settled_at m hold (length hold.result.wins), ok (hold.terminal_events ++ []))
  unfolding publish_steps and_then
  publish_steps_all m hold i zero is =
      let e : i ≡ length hold.result.wins = omega (arith, is) in
      publish_steps_next (held_at m hold i) (settled_at m hold i) i zero hold.terminal_events
        (last_step m hold i e)
      ∙ ap (λ n. (settled_at m hold n, ok (hold.terminal_events ++ []))) e
  publish_steps_all m hold i (suc k) is =
      publish_steps_next (held_at m hold i) (held_at m hold (suc i)) i (suc k) []
        (next_step m hold i (omega (arith, is)))
      ∙ ap (λ r. and_then r (λ m more. (m, ok more)))
          (publish_steps_all m hold (suc i) k (omega (arith, is)))

  release_last :
      (m : MatchMachine E) (hold : HeldKyoku)
      → release_kyoku (settled_at m hold (length hold.result.wins)) ≡ (
        record m {
          held = none;
          events = (m.events ++ hold.terminal_events) ++ hold.future_events;
          status = elim hold.final_result [ none ↦ m.status | some result ↦ completed result ];
        },
        ok hold.future_events,
      )
  unfolding release_kyoku release_held settle
  release_last m hold =
      let a : ltb (length hold.result.wins) (suc (length hold.result.wins)) ≡ true = ground arith in
      rw a refl

  -- The machine and the events after all steps and the release.
  abbrev released : MatchMachine E → HeldKyoku → MatchMachine E
  released m hold = record m {
    held = none;
    events = (m.events ++ hold.terminal_events) ++ hold.future_events;
    status = elim hold.final_result [ none ↦ m.status | some result ↦ completed result ];
  }

  reveal_at :
      (m : MatchMachine E) (hold : HeldKyoku)
      → reveal (held_at m hold 0) (length hold.result.wins)
        ≡ (released m hold, ok ((hold.terminal_events ++ []) ++ hold.future_events))
  unfolding reveal and_then
  reveal_at m hold =
      ap
        (λ e.
          and_then e (λ m shown. and_then (release_kyoku m) (λ m more. (m, ok (shown ++ more)))))
        (publish_steps_all m hold 0 (length hold.result.wins) (omega arith))
      ∙ ap (λ e. and_then e (λ m more. (m, ok ((hold.terminal_events ++ []) ++ more))))
          (release_last m hold)

  -- A hand whose results no client has published yet: its steps, one for each win and one for the
  -- settlement, taken in their order, and then the release, all succeed. They return exactly the
  -- events that were held back, in their order; afterwards nothing is held, all events are shown, and
  -- a match that the hand ended is completed with its result. Nothing else of the match has changed.
  pub reveal_lem :
      (m : MatchMachine E) (hold : HeldKyoku)
      → m.held ≡ some hold
      → hold.next_step ≡ 0
      → reveal m (length hold.result.wins) ≡ (
        record m {
          held = none;
          events = full_log m;
          status = elim hold.final_result [ none ↦ m.status | some result ↦ completed result ];
        },
        ok (held_log m.held),
      )
  reveal_lem m hold held fresh =
      let is : m ≡ held_at m hold 0 =
        λ i. record m { held = (held ∙ ap some (λ j. record hold { next_step = fresh j })) i } in
      let log : (m.events ++ hold.terminal_events) ++ hold.future_events ≡ full_log m =
        append_assoc m.events hold.terminal_events hold.future_events
        ∙ ap (λ o. m.events ++ held_log o) (sym held) in
      let all_of : (hold.terminal_events ++ []) ++ hold.future_events ≡ held_log m.held =
        ap (λ l. l ++ hold.future_events) (append_nil hold.terminal_events)
        ∙ ap held_log (sym held) in
      ap (λ n. reveal n (length hold.result.wins)) is ∙ reveal_at m hold ∙ (λ i. (
        record m {
          held = none;
          events = log i;
          status = elim hold.final_result [ none ↦ m.status | some result ↦ completed result ];
        },
        ok (all_of i),
      ))
