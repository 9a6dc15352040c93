-- ===== src/Decision/Timeout.antt =====
-- Deadlines: what happens when they pass, and that nothing happens before.
use driichi.Decision.Clock.{Instant}
use driichi.Decision.Types.{DecisionSeat, Decision, DecisionResolution, is_expired_at, has_passed}
use driichi.Decision.Submit.{is_answered}
use driichi.Decision.Resolve.{times_out, time_out, resolve_at}
use driichi.Decision.Valid.{entry_valid, IsValid, time_out_none, time_out-valid}
use driichi.Decision.Final.{Resolves, resolution_total}
use driichi.Prelude.{
  ◌≡◌, refl, Bool, true, false, not, ◌||◌, none, some, List, [], ◌∷◌, map, any, all, ok,
  if◌then◌else◌, arith, any-not,
}

-- The entry of a seat that did not answer gets its default and the mark; another stays.
abbrev pub defaulted : DecisionSeat → DecisionSeat
defaulted e =
    if is_answered e
    then e
    else record e { submitted_action_id = some e.default_action_id; timed_out = true }

module _ (now : Instant) where
  abbrev pub all_passed : List DecisionSeat → Bool
  all_passed = all (λ e. has_passed now e.deadline)

  map-defaulted :
      (es : List DecisionSeat) → all_passed es ≡ true → map (time_out now) es ≡ map defaulted es
  unfolding time_out times_out
  map-defaulted [] p = refl
  map-defaulted (e ∷ es) p = ground (arith, map-defaulted es)

  all_answered : (es : List DecisionSeat) → all is_answered (map defaulted es) ≡ true
  all_answered [] = refl
  all_answered (e ∷ es) = ground (arith, all_answered es)

  some_times_out :
      (es : List DecisionSeat)
      → all_passed es ≡ true
      → all is_answered es ≡ false
      → any (times_out now) es ≡ true
  unfolding times_out
  some_times_out [] p u = cc
  some_times_out (e ∷ es) p u = ground (arith, some_times_out es)

  some_passed :
      (es : List DecisionSeat)
      → all_passed es ≡ true
      → all is_answered es ≡ false
      → any (λ e. has_passed now e.deadline) es ≡ true
  some_passed [] p u = cc
  some_passed (e ∷ es) p u = ground (arith, some_passed es)

  none_times_out :
      (es : List DecisionSeat)
      → all (λ e. is_answered e || not (has_passed now e.deadline)) es ≡ true
      → any (times_out now) es ≡ false
  unfolding times_out
  none_times_out [] e = refl
  none_times_out (x ∷ es) e = ground (arith, none_times_out es)

  -- Once every seat's deadline has passed, an open decision is resolved: it closes, and each seat
  -- without an answer gets its default.
  pub resolve_at-Resolves :
      (d : Decision)
      → IsValid d
      → d.is_closed ≡ false
      → all_passed d.entries ≡ true
      → (r : DecisionResolution) × ((resolve_at d now).1 ≡ ok (some r))
        × ((resolve_at d now).0 ≡ record d { entries = map defaulted d.entries; is_closed = true })
        × Resolves (map defaulted d.entries) r.actions
  unfolding resolve_at is_expired_at
  resolve_at-Resolves d v opened p =
      let es = map defaulted d.entries in
      let m = map-defaulted d.entries p in
      let u = v.pending opened in
      let valid : all entry_valid es ≡ true = rw m at (time_out-valid now d.entries v.offered) in
      let d' : Decision = record d { entries = es; is_closed = true } in
      let (r, e, _, answers) = resolution_total d' valid (all_answered d.entries) in
      let late = some_passed d.entries p u in
      let due = some_times_out d.entries p u in
      let none_left = any-not is_answered es in
      let complete = all_answered d.entries in (r, ground arith, ground arith, answers)

  -- Before the deadline of every seat that has not answered, time changes nothing.
  pub resolve_at-early :
      (d : Decision)
      → all (λ e. is_answered e || not (has_passed now e.deadline)) d.entries ≡ true
      → resolve_at d now ≡ (d, ok none)
  unfolding resolve_at
  resolve_at-early d e =
      let n = none_times_out d.entries e in ground (arith, time_out_none now d.entries n)
