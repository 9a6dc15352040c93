-- ===== src/Machine/Log.antt =====
-- The record of events: what is shown, and what is held back until the results are published.
use driichi.Domain.Event.{GameEvent}
use driichi.Domain.Roster.{MatchResult}
use driichi.Projection.Table.{TableState}
use driichi.Results.Types.{KyokuResultRecord}
use driichi.Machine.Types.{Engine, HeldKyoku, MatchMachine, and_then, or_abort, abort_for_engine}
use driichi.Machine.Steps.{
  take, drop, position, is_terminal, is_end_kyoku, final_result, held_final_result, split_points,
  hold_kyoku, record_ended, record_events, record_outcome,
}
use driichi.Machine.Stable.{and_then-holds}
use driichi.Machine.Idle.{Idle, or_abort-Idle, abort-Idle, if-Idle}
use driichi.Prelude.{
  ℕ, zero, suc, ◌+◌, ◌≤◌, ◌≡◌, refl, sym, ap, ◌∙◌, ◌⊎◌, inl, inr, false, not, Option, none, some,
  List, [], ◌∷◌, ◌++◌, String, length, length-append, append_nil, append_assoc, ltb, Option-cases,
  Outcome, ok, err, panic, arith,
}

-- The events that are held back.
abbrev pub held_log : Option HeldKyoku → List GameEvent
held_log none = []
held_log (some hold) = hold.terminal_events ++ hold.future_events

-- Once all steps are published, no terminal events are left.
abbrev pub Settled : Option HeldKyoku → Type 0
Settled none = Unit
Settled (some hold) =
    (ltb (length hold.result.wins) hold.next_step ≡ false) ⊎ (hold.terminal_events ≡ [])

take-drop : (n : ℕ) (xs : List GameEvent) → take n xs ++ drop n xs ≡ xs
take-drop zero xs = refl
take-drop (suc n) [] = refl
take-drop (suc n) (x ∷ xs) = ap (λ l. x ∷ l) (take-drop n xs)

-- Cutting at two points loses nothing.
cut_twice :
    (a b : ℕ) (xs : List GameEvent) → a ≤ b → take a xs ++ (drop a (take b xs) ++ drop b xs) ≡ xs
cut_twice zero b xs h = take-drop b xs
cut_twice (suc a) zero xs h = absurd (omega (arith, h))
cut_twice (suc a) (suc b) [] h = refl
cut_twice (suc a) (suc b) (x ∷ xs) h = ap (λ l. x ∷ l) (cut_twice a b xs (omega arith))

split_points_order : (new : List GameEvent) (p : ℕ × ℕ) → split_points new ≡ ok p → p.0 ≤ p.1
unfolding split_points
split_points_order new (a, b) h = elim (Option-cases (position is_terminal new)) [
  | inl e ↦ absurd (ground arith)
  | inr (i, e) ↦ elim (Option-cases (position is_end_kyoku new)) [
    | inl f ↦ absurd (ground arith)
    | inr (j, f) ↦ ground arith
  ]
]

module _ {E : Engine} where
  -- All events so far.
  abbrev pub full_log : MatchMachine E → List GameEvent
  full_log m = m.events ++ held_log m.held

  -- The journal's count is that of all events, and results that are fully published hold back no
  -- terminal events.
  pub record IsLogged (m : MatchMachine E) : Type 0 where
    pub counted : m.journal_event_count ≡ length (full_log m)
    pub settled : Settled m.held

  -- The engine's events were not recorded.
  abbrev pub Unrecorded : List GameEvent → List GameEvent → MatchMachine E → Type 0
  Unrecorded es ps m = Idle es (length es, ps) m

  -- All events of an engine's step were recorded, of which some may be held back.
  pub record Recorded (es ps new : List GameEvent) (m : MatchMachine E) : Type 0 where
    pub all_of : full_log m ≡ es ++ new
    pub counted : m.journal_event_count ≡ length es + length new
    pub stored : m.persistence_events ≡ ps ++ new
    pub visible : List GameEvent
    pub shown : m.events ≡ es ++ visible
    pub settled : Settled m.held

  -- Either way of an outcome: an abort before anything was recorded, or all of its events.
  abbrev pub Settles : List GameEvent → List GameEvent → List GameEvent → MatchMachine E → Type 0
  Settles es ps new m = Unrecorded es ps m ⊎ Recorded es ps new m

  pub Idle-IsLogged :
      (es ps : List GameEvent) (m : MatchMachine E) → Idle es (length es, ps) m → IsLogged m
  Idle-IsLogged es ps m (idle, shown, counted, _) = record {
    counted = rw (idle, shown) (counted ∙ ap length (sym (append_nil es)));
    settled = rw idle tt;
  }

  pub IsLogged-Idle :
      (m : MatchMachine E) → IsLogged m → m.held ≡ none → Unrecorded m.events m.persistence_events m
  IsLogged-Idle m h idle = (idle, refl, h.counted ∙ ap length (rw idle (append_nil m.events)), refl)

  Idle-Recorded :
      (es ps new : List GameEvent) (m : MatchMachine E)
      → Idle (es ++ new) (length es + length new, ps ++ new) m
      → Recorded es ps new m
  Idle-Recorded es ps new m (idle, shown, counted, stored) = record {
    all_of = rw (idle, shown) (append_nil (es ++ new));
    counted = counted;
    stored = stored;
    visible = new;
    shown = shown;
    settled = rw idle tt;
  }

  -- The machine with an outcome's events shown and counted.
  abbrev shown_all : MatchMachine E → List GameEvent → MatchMachine E
  shown_all m new = record m {
    journal_event_count = m.journal_event_count + length new;
    persistence_events = m.persistence_events ++ new;
    events = m.events ++ new;
  }

  record_events-Idle :
      (es ps new : List GameEvent) (m : MatchMachine E)
      → Unrecorded es ps m
      → Idle (es ++ new) (length es + length new, ps ++ new) (record_events m new).0
  unfolding record_events
  record_events-Idle es ps new m (idle, shown, counted, stored) =
      let n : ℕ × List GameEvent = (length es + length new, ps ++ new) in
      let all : MatchMachine E = shown_all m new in
      let h : Idle (es ++ new) n all = (
        idle,
        ap (λ l. l ++ new) shown,
        ap (λ k. k + length new) counted,
        ap (λ l. l ++ new) stored,
      ) in
      if-Idle (es ++ new) n (not (E.is_done m.engine)) _ _ h (
        and_then-holds (Idle (es ++ new) n) (Idle (es ++ new) n) (or_abort all (final_result all)) _
          (or_abort-Idle (es ++ new) n all (final_result all) h) (λ m' k. k)
          (λ m' result _ k.
            if-Idle (es ++ new) n _ _ _ k (abort-Idle (es ++ new) n (List GameEvent) m' _ k)))

  hold_kyoku-Recorded :
      (es ps new : List GameEvent) (m : MatchMachine E) (table : TableState) (r : KyokuResultRecord)
      (final : Option MatchResult) (a b : ℕ)
      → Unrecorded es ps m
      → a ≤ b
      → Recorded es ps new (hold_kyoku m new table r final a b).0
  unfolding hold_kyoku
  hold_kyoku-Recorded es ps new m table r final a b (idle, shown, counted, stored) low = record {
    all_of =
        append_assoc m.events (take a new) _
        ∙ ap (λ l. m.events ++ l) (cut_twice a b new low)
        ∙ ap (λ l. l ++ new) shown;
    counted = ap (λ n. n + length new) counted;
    stored = ap (λ l. l ++ new) stored;
    visible = take a new;
    shown = ap (λ l. l ++ take a new) shown;
    settled = inl (ground arith);
  }

  or_abort_ok :
      {A : Type 0} (m : MatchMachine E) (o : Outcome String A) (a : A)
      → (or_abort m o).1 ≡ ok a
      → o ≡ ok a
  unfolding or_abort abort_for_engine
  or_abort_ok m (ok b) a h = cc
  or_abort_ok m (err e) a h = cc
  or_abort_ok m panic a h = cc

  -- The last steps of an outcome that has ended a hand, once the engine has made its record.
  hold_split-Settles :
      (es ps new : List GameEvent) (m : MatchMachine E) (table : TableState) (r : KyokuResultRecord)
      (final : Option MatchResult)
      → Unrecorded es ps m
      → Settles es ps new
          (and_then
            (or_abort m (split_points new))
            (λ m points. hold_kyoku m new table r final points.0 points.1)).0
  hold_split-Settles es ps new m table r final j =
      and_then-holds (Unrecorded es ps) (Settles es ps new) (or_abort m (split_points new))
        (λ m points. hold_kyoku m new table r final points.0 points.1)
        (or_abort-Idle es (length es, ps) m (split_points new) j) (λ m i. inl i)
        (λ m' points e i. inr (
          hold_kyoku-Recorded es ps new m' table r final points.0 points.1 i
            (split_points_order new points (or_abort_ok m (split_points new) points e))))

  hold_final-Settles :
      (es ps new : List GameEvent) (m : MatchMachine E) (table : TableState) (r : KyokuResultRecord)
      → Unrecorded es ps m
      → Settles es ps new
          (and_then (or_abort m (held_final_result m r)) (λ m final.
            and_then
              (or_abort m (split_points new))
              (λ m points. hold_kyoku m new table r final points.0 points.1))).0
  hold_final-Settles es ps new m table r l =
      and_then-holds (Unrecorded es ps) (Settles es ps new) (or_abort m (held_final_result m r)) _
        (or_abort-Idle es (length es, ps) m (held_final_result m r) l) (λ m j. inl j)
        (λ m final _ j. hold_split-Settles es ps new m table r final j)

  record_ended-Settles :
      (es ps new : List GameEvent) (m : MatchMachine E) (ended : E.Ended)
      → Unrecorded es ps m
      → Settles es ps new (record_ended m new ended).0
  unfolding record_ended
  record_ended-Settles es ps new m ended h =
      and_then-holds (Unrecorded es ps) (Settles es ps new) (or_abort m _) _
        (or_abort-Idle es (length es, ps) m _ h) (λ m k. inl k)
        (λ m r _ k.
          and_then-holds (Unrecorded es ps) (Settles es ps new) (or_abort m _) _
            (or_abort-Idle es (length es, ps) m _ k) (λ m l. inl l)
            (λ m table _ l. hold_final-Settles es ps new m table r l))

  pub record_outcome-Settles :
      (es ps new : List GameEvent) (m : MatchMachine E) (ended : Option (E.Ended))
      → Unrecorded es ps m
      → Settles es ps new (record_outcome m (new, ended)).0
  unfolding record_outcome
  record_outcome-Settles es ps new m none h =
      inr (Idle-Recorded es ps new (record_events m new).0 (record_events-Idle es ps new m h))
  record_outcome-Settles es ps new m (some ended) h = record_ended-Settles es ps new m ended h

  pub Settles-IsLogged :
      (es ps new : List GameEvent) (m : MatchMachine E) → Settles es ps new m → IsLogged m
  Settles-IsLogged es ps new m (inl h) = Idle-IsLogged es ps m h
  Settles-IsLogged es ps new m (inr h) = record {
    counted = h.counted ∙ sym (length-append es new) ∙ ap length (sym h.all_of);
    settled = h.settled;
  }
