-- ===== src/Machine/Publish.antt =====
-- Publishing a hand's results shows the events that were held back, and no other.
use driichi.Domain.Event.{GameEvent}
use driichi.Machine.Types.{Engine, HeldKyoku, MatchMachine, Run, no_decision, results_pending}
use driichi.Machine.Steps.{settle, publish_held, publish_kyoku_step, release_held, release_kyoku}
use driichi.Machine.Log.{held_log, Settled, full_log, IsLogged}
use driichi.Prelude.{
  ℕ, suc, ◌≡◌, refl, sym, ap, subst, ◌∙◌, inl, inr, true, not, ◌||◌, Option, none, some, List, [],
  ◌++◌, length, append_nil, append_assoc, ltb, leb, ◌==◌, Bool-cases, err, arith,
}
use driichi.Machine.Kept.{Kept, SameLog-Kept}

Settled-log :
    (o : Option HeldKyoku) (hold : HeldKyoku)
    → o ≡ some hold
    → Settled o
    → ltb (length hold.result.wins) hold.next_step ≡ true
    → hold.terminal_events ≡ []
Settled-log o hold e h done = elim (subst Settled e h) [ inl f ↦ absurd (ground arith) | inr f ↦ f ]

module _ {E : Engine} where
  -- What is held is replaced.
  reheld :
      (m m' : MatchMachine E) (hold : HeldKyoku) (visible : List GameEvent)
      → IsLogged m
      → m.held ≡ some hold
      → m'.events ≡ m.events ++ visible
      → m'.journal_event_count ≡ m.journal_event_count
      → m'.persistence_events ≡ m.persistence_events
      → visible ++ held_log m'.held ≡ hold.terminal_events ++ hold.future_events
      → Settled m'.held
      → Kept m m'
  reheld m m' hold visible h held shown counted stored rest settled =
      let all_of : full_log m' ≡ full_log m =
        (λ i. shown i ++ held_log m'.held)
        ∙ append_assoc m.events visible (held_log m'.held)
        ∙ ap (λ l. m.events ++ l) rest
        ∙ ap (λ o. m.events ++ held_log o) (sym held) in
      record {
        new = [];
        visible = visible;
        all_of = all_of ∙ sym (append_nil (full_log m));
        stored = stored ∙ sym (append_nil m.persistence_events);
        shown = shown;
        logged = record {
          counted = counted ∙ h.counted ∙ ap length (sym all_of);
          settled = settled;
        };
      }

  -- The last step shows the terminal events.
  show_last-Kept :
      (m : MatchMachine E) (hold : HeldKyoku)
      → IsLogged m
      → m.held ≡ some hold
      → Kept m (record m { held = some (settle hold); events = m.events ++ hold.terminal_events })
  unfolding settle
  show_last-Kept m hold h held =
      reheld m (record m { held = some (settle hold); events = m.events ++ hold.terminal_events })
        hold hold.terminal_events h held refl refl refl refl (inr refl)

  -- A step before the last shows nothing.
  show_next-Kept :
      (m : MatchMachine E) (hold : HeldKyoku)
      → IsLogged m
      → m.held ≡ some hold
      → leb (suc hold.next_step) (length hold.result.wins) ≡ true
      → Kept m (record m { held = some (record hold { next_step = suc hold.next_step }) })
  show_next-Kept m hold h held low =
      reheld m (record m { held = some (record hold { next_step = suc hold.next_step }) }) hold [] h
        held (sym (append_nil m.events)) refl refl refl (inl (ground arith))

  publish_held-Kept :
      (m : MatchMachine E) (hold : HeldKyoku) (step_index : ℕ)
      → IsLogged m
      → m.held ≡ some hold
      → Kept m (publish_held m hold step_index).0
  unfolding publish_held
  publish_held-Kept m hold step_index h held =
      elim (Bool-cases
        (not (step_index == hold.next_step) || ltb (length hold.result.wins) step_index)) [
          | inl e ↦ rw e (SameLog-Kept m m h (refl, refl, refl, refl))
          | inr e ↦ elim (Bool-cases (step_index == length hold.result.wins)) [
            | inl f ↦ rw (e, f) (show_last-Kept m hold h held)
            | inr f ↦ rw (e, f) (show_next-Kept m hold h held (ground arith))
          ]
        ]

  pub publish_kyoku_step-Kept :
      (m : MatchMachine E) (step_index : ℕ)
      → IsLogged m
      → Kept m (publish_kyoku_step m step_index).0
  unfolding publish_kyoku_step
  publish_kyoku_step-Kept m step_index h =
      elim m.held
          as (λ o.
            m.held ≡ o
            → Kept m
                (elim o as (λ _. Run E (List GameEvent)) [
                  | none ↦ (m, err no_decision)
                  | some hold ↦ publish_held m hold step_index
                ]).0) [
                  | none ↦ λ e. SameLog-Kept m m h (refl, refl, refl, refl)
                  | some hold ↦ λ e. publish_held-Kept m hold step_index h e
                ]
        refl

  release_held-Kept :
      (m : MatchMachine E) (hold : HeldKyoku)
      → IsLogged m
      → m.held ≡ some hold
      → Kept m (release_held m hold).0
  unfolding release_held
  release_held-Kept m hold h held =
      elim (Bool-cases (ltb (length hold.result.wins) hold.next_step)) [
        | inl e ↦ rw e (
            reheld m _ hold hold.future_events h held refl refl refl
              (append_nil hold.future_events
                ∙ ap (λ l. l ++ hold.future_events)
                    (sym (Settled-log m.held hold held h.settled e)))
              tt)
        | inr e ↦ rw e (SameLog-Kept m m h (refl, refl, refl, refl))
      ]

  pub release_kyoku-Kept : (m : MatchMachine E) → IsLogged m → Kept m (release_kyoku m).0
  unfolding release_kyoku
  release_kyoku-Kept m h =
      elim m.held
          as (λ o.
            m.held ≡ o
            → Kept m
                (elim o as (λ _. Run E (List GameEvent)) [
                  | none ↦ (m, err results_pending)
                  | some hold ↦ release_held m hold
                ]).0) [
                  | none ↦ λ e. SameLog-Kept m m h (refl, refl, refl, refl)
                  | some hold ↦ λ e. release_held-Kept m hold h e
                ]
        refl
