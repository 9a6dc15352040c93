-- ===== src/Decision/Valid.antt =====
-- The invariant of a decision: every default and every recorded answer is an offered action, and a
-- decision is closed exactly when all of its seats have answered.
use driichi.Domain.Mode.{Seat}
use driichi.Decision.Clock.{Instant, Duration}
use driichi.Decision.Types.{ActionId, DecisionSeat, Decision, find_entry, update_entry}
use driichi.Decision.Build.{recompute_timing, retime_for, retimed}
use driichi.Decision.Submit.{offers, is_answered, answered, record_answer, submit_at}
use driichi.Decision.Answers.{submit_tests}
use driichi.Decision.Resolve.{times_out, time_out, resolve_at}
use driichi.Prelude.{
  ◌≡◌, refl, ap, inl, inr, Bool, true, false, ◌&&◌, Option, none, some, List, [], ◌∷◌, map, any,
  all, arith, any-not,
}

-- The default and the answer of a seat are among its actions.
abbrev pub answer_offered : DecisionSeat → Option ActionId → Bool
answer_offered e none = true
answer_offered e (some action_id) = offers e action_id

abbrev pub entry_valid : DecisionSeat → Bool
entry_valid e = offers e e.default_action_id && answer_offered e e.submitted_action_id

pub record IsValid (d : Decision) : Type 0 where
  pub offered : all entry_valid d.entries ≡ true
  pub complete : d.is_closed ≡ true → all is_answered d.entries ≡ true
  pub pending : d.is_closed ≡ false → all is_answered d.entries ≡ false

module _ (seat : Seat) (action_id : ActionId) where
  update-valid :
      (es : List DecisionSeat) (e : DecisionSeat)
      → find_entry seat es ≡ some e
      → offers e action_id ≡ true
      → all entry_valid es ≡ true
      → all entry_valid (update_entry seat (answered action_id) es) ≡ true
  unfolding find_entry update_entry
  update-valid [] e f o v = cc
  update-valid (x ∷ es) e f o v = ground (arith, update-valid es e)

pub record_answer-IsValid :
    (d : Decision) (seat : Seat) (action_id : ActionId) (e : DecisionSeat)
    → IsValid d
    → d.is_closed ≡ false
    → find_entry seat d.entries ≡ some e
    → offers e action_id ≡ true
    → IsValid (record_answer d seat action_id).0
unfolding record_answer
record_answer-IsValid d seat action_id e v opened f o =
    ground (arith, update-valid seat action_id d.entries e f o v.offered)

-- An answer keeps the invariant, on every branch.
pub submit_at-IsValid :
    (d : Decision) (seat : Seat) (action_id : ActionId) (now : Instant)
    → IsValid d
    → IsValid (submit_at d seat action_id now).0
submit_at-IsValid d seat action_id now v = elim (submit_tests d seat action_id now) [
  | inl (e, s, _, _) ↦ rw s v
  | inr (e, f, opened, x, u, o, s) ↦ rw s (record_answer-IsValid d seat action_id e v opened f o)
]

pub time_out-valid :
    (now : Instant) (es : List DecisionSeat)
    → all entry_valid es ≡ true
    → all entry_valid (map (time_out now) es) ≡ true
unfolding time_out
time_out-valid now [] v = refl
time_out-valid now (e ∷ es) v = ground (arith, time_out-valid now es)

-- Where no entry times out, the loop changes nothing.
pub time_out_none :
    (now : Instant) (es : List DecisionSeat)
    → any (times_out now) es ≡ false
    → map (time_out now) es ≡ es
unfolding time_out
time_out_none now [] n = refl
time_out_none now (e ∷ es) n =
    rw (time_out_none now es (ground arith)) (ap (λ x. x ∷ es) (ground arith))

-- So does the passing of time.
pub resolve_at-IsValid : (d : Decision) (now : Instant) → IsValid d → IsValid (resolve_at d now).0
unfolding resolve_at
resolve_at-IsValid d now v = ground (
  arith,
  time_out-valid now d.entries v.offered,
  time_out_none now d.entries,
  any-not is_answered (map (time_out now) d.entries),
)

update-retimed :
    (seat : Seat) (opened_at : Instant) (duration : Option Duration) (watchdog : Bool)
    (es : List DecisionSeat)
    → let es' = update_entry seat (retimed opened_at duration watchdog) es in
      (all entry_valid es' ≡ all entry_valid es) × (all is_answered es' ≡ all is_answered es)
unfolding update_entry
update-retimed seat opened_at duration watchdog [] = (refl, refl)
update-retimed seat opened_at duration watchdog (e ∷ es) =
    let ih = update-retimed seat opened_at duration watchdog es in (ground arith, ground arith)

pub recompute_entries :
    (d : Decision)
    → ((recompute_timing d).entries ≡ d.entries) × ((recompute_timing d).is_closed ≡ d.is_closed)
unfolding recompute_timing
recompute_entries d = (ground arith, ground arith)

-- And a change of a seat's time.
pub retime_for-IsValid :
    (d : Decision) (seat : Seat) (opened_at : Instant) (duration : Option Duration)
    (watchdog : Bool)
    → IsValid d
    → IsValid (retime_for d seat opened_at duration watchdog)
unfolding retime_for
retime_for-IsValid d seat opened_at duration watchdog v =
    let es = update_entry seat (retimed opened_at duration watchdog) d.entries in
    let same = update-retimed seat opened_at duration watchdog d.entries in
    let kept = recompute_entries (record d { entries = es }) in ground arith
