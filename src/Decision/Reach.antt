-- ===== src/Decision/Reach.antt =====
-- A decision over time: answers, timeouts and changes of a seat's time, in any order.
use driichi.Domain.Mode.{Seat}
use driichi.Decision.Clock.{Instant, Duration}
use driichi.Decision.Types.{
  ActionId, DecisionSeat, Decision, find_entry, update_entry, submitted_for, closed,
}
use driichi.Decision.Build.{retime_for, retimed}
use driichi.Decision.Submit.{is_answered, answered, record_answer, submit_at}
use driichi.Decision.Resolve.{times_out, time_out, resolve_at}
use driichi.Decision.Answers.{submit_tests}
use driichi.Decision.Valid.{
  IsValid, submit_at-IsValid, resolve_at-IsValid, retime_for-IsValid, recompute_entries,
}
use driichi.Prelude.{
  ◌≡◌, refl, ap, ok, err, ◌∙◌, inl, inr, Bool, true, false, Option, none, some, List, [], ◌∷◌, map,
  ◌==◌, if◌then◌else◌, arith, Option-cases, ℕ_discrete,
}

pub data Step : Decision → Decision → Type 0 where
  answer :
      (d : Decision) (seat : Seat) (action_id : ActionId) (now : Instant)
      → Step d (submit_at d seat action_id now).0
  expire : (d : Decision) (now : Instant) → Step d (resolve_at d now).0
  retime :
      (d : Decision) (seat : Seat) (opened_at : Instant) (duration : Option Duration)
      (watchdog : Bool)
      → Step d (retime_for d seat opened_at duration watchdog)

pub data Reach (d : Decision) : Decision → Type 0 where
  here : Reach d d
  next : {e f : Decision} → Reach d e → Step e f → Reach d f

abbrev answer_in : Option DecisionSeat → Option ActionId
answer_in none = none
answer_in (some e) = e.submitted_action_id

answer_for :
    (d : Decision) (seat : Seat) → submitted_for d seat ≡ answer_in (find_entry seat d.entries)
unfolding submitted_for
answer_for d seat = elim (Option-cases (find_entry seat d.entries)) [
  | inl n ↦ rw (n, submitted_for) refl
  | inr (e, f) ↦ rw (f, submitted_for) refl
]

-- An answer of one seat leaves those of the others, and is recorded for the seat.
find-answered :
    (seat s : Seat) (action_id : ActionId) (es : List DecisionSeat)
    → answer_in (find_entry s (update_entry seat (answered action_id) es))
      ≡ (elim (find_entry s es) [
        | none ↦ none
        | some e ↦ if s == seat then some action_id else e.submitted_action_id
      ])
unfolding find_entry update_entry
find-answered seat s action_id [] = refl
find-answered seat s action_id (e ∷ es) = ground (arith, find-answered seat s action_id es)

find-timed_out :
    (now : Instant) (s : Seat) (a : ActionId) (es : List DecisionSeat)
    → answer_in (find_entry s es) ≡ some a
    → answer_in (find_entry s (map (time_out now) es)) ≡ some a
unfolding find_entry time_out times_out
find-timed_out now s a [] h = h
find-timed_out now s a (e ∷ es) h = ground (arith, find-timed_out now s a es)

find-retimed :
    (seat s : Seat) (opened_at : Instant) (duration : Option Duration) (watchdog : Bool)
    (es : List DecisionSeat)
    → answer_in (find_entry s (update_entry seat (retimed opened_at duration watchdog) es))
      ≡ answer_in (find_entry s es)
unfolding find_entry update_entry
find-retimed seat s opened_at duration watchdog [] = refl
find-retimed seat s opened_at duration watchdog (e ∷ es) =
    ground (arith, find-retimed seat s opened_at duration watchdog es)

record_answer-keeps :
    (d : Decision) (seat s : Seat) (action_id a : ActionId) (e : DecisionSeat)
    → find_entry seat d.entries ≡ some e
    → is_answered e ≡ false
    → submitted_for d s ≡ some a
    → submitted_for (record_answer d seat action_id).0 s ≡ some a
unfolding record_answer submitted_for
record_answer-keeps d seat s action_id a e f u h = elim (ℕ_discrete s seat) [
  | yes same ↦ absurd (ground arith)
  | no other ↦ ground (arith, find-answered seat s action_id d.entries)
]

resolve_at-keeps :
    (d : Decision) (now : Instant) (s : Seat) (a : ActionId)
    → submitted_for d s ≡ some a
    → submitted_for (resolve_at d now).0 s ≡ some a
unfolding resolve_at submitted_for
resolve_at-keeps d now s a h = ground (arith, find-timed_out now s a d.entries)

retime_for-keeps :
    (d : Decision) (seat s : Seat) (opened_at : Instant) (duration : Option Duration)
    (watchdog : Bool)
    → submitted_for (retime_for d seat opened_at duration watchdog) s ≡ submitted_for d s
unfolding retime_for submitted_for
retime_for-keeps d seat s opened_at duration watchdog =
    let es = update_entry seat (retimed opened_at duration watchdog) d.entries in
    ground (
      arith,
      recompute_entries (record d { entries = es }),
      find-retimed seat s opened_at duration watchdog d.entries,
    )

-- The first answer of a seat, its own or the default at its deadline, is never replaced.
pub Step-keeps :
    {d d' : Decision} (s : Seat) (a : ActionId)
    → Step d d'
    → submitted_for d s ≡ some a
    → submitted_for d' s ≡ some a
Step-keeps s a (answer d seat action_id now) h = elim (submit_tests d seat action_id now) [
  | inl (_, same, _, _) ↦ rw same h
  | inr (e, f, _, _, u, _, same) ↦ rw same (record_answer-keeps d seat s action_id a e f u h)
]
Step-keeps s a (expire d now) h = resolve_at-keeps d now s a h
Step-keeps s a (retime d seat opened_at duration watchdog) h =
    retime_for-keeps d seat s opened_at duration watchdog ∙ h

Step-IsValid : {d d' : Decision} → Step d d' → IsValid d → IsValid d'
Step-IsValid (answer d seat action_id now) v = submit_at-IsValid d seat action_id now v
Step-IsValid (expire d now) v = resolve_at-IsValid d now v
Step-IsValid (retime d seat opened_at duration watchdog) v =
    retime_for-IsValid d seat opened_at duration watchdog v

-- An answer to a closed decision, and a deadline that passes, leave it as it is.
closed_refuses :
    (d : Decision) (seat : Seat) (action_id : ActionId) (now : Instant)
    → d.is_closed ≡ true
    → submit_at d seat action_id now ≡ (d, err closed)
unfolding submit_at
closed_refuses d seat action_id now c = ground arith

closed_rests : (d : Decision) (now : Instant) → d.is_closed ≡ true → resolve_at d now ≡ (d, ok none)
unfolding resolve_at
closed_rests d now c = ground arith

-- No step changes an answer of a closed decision, or opens it again.
closed_stays :
    {d d' : Decision} (s : Seat)
    → Step d d'
    → d.is_closed ≡ true
    → (d'.is_closed ≡ true) × (submitted_for d' s ≡ submitted_for d s)
unfolding retime_for
closed_stays s (answer d seat action_id now) c =
    let e = closed_refuses d seat action_id now c in
    (ap (λ r. r.0.is_closed) e ∙ c, ap (λ r. submitted_for r.0 s) e)
closed_stays s (expire d now) c =
    let e = closed_rests d now c in (ap (λ r. r.0.is_closed) e ∙ c, ap (λ r. submitted_for r.0 s) e)
closed_stays s (retime d seat opened_at duration watchdog) c =
    let es = update_entry seat (retimed opened_at duration watchdog) d.entries in
    (
      ground (arith, recompute_entries (record d { entries = es })),
      retime_for-keeps d seat s opened_at duration watchdog,
    )

-- Over any history a valid decision stays valid.
pub Reach-IsValid : {d d' : Decision} → Reach d d' → IsValid d → IsValid d'
Reach-IsValid here v = v
Reach-IsValid (next r st) v = Step-IsValid st (Reach-IsValid r v)

closed_ever :
    {d d' : Decision} (s : Seat)
    → Reach d d'
    → d.is_closed ≡ true
    → (d'.is_closed ≡ true) × (submitted_for d' s ≡ submitted_for d s)
closed_ever s here c = (c, refl)
closed_ever s (next r st) c =
    let (closed_before, same_before) = closed_ever s r c in
    let (closed_now, same_now) = closed_stays s st closed_before in
    (closed_now, same_now ∙ same_before)

-- Over any history a closed decision stays closed, and every seat's answer, or the lack of one, stays
-- what it was. At any point of that history a further answer of any seat is refused as closed and
-- changes nothing, and a deadline that passes resolves nothing and changes nothing.
pub Reach-closed :
    {d d' : Decision} (s seat : Seat) (action_id : ActionId) (now : Instant)
    → Reach d d'
    → d.is_closed ≡ true
    → (d'.is_closed ≡ true)
      × (submitted_for d' s ≡ submitted_for d s)
      × (submit_at d' seat action_id now ≡ (d', err closed))
      × (resolve_at d' now ≡ (d', ok none))
Reach-closed {d} {d'} s seat action_id now r c =
    let (still, same) = closed_ever s r c in
    (still, same, closed_refuses d' seat action_id now still, closed_rests d' now still)

-- Over any history, whatever the order of answers, timeouts and changes of time, the first answer of
-- a seat is the one that stands.
pub Reach-keeps :
    {d d' : Decision} (s : Seat) (a : ActionId)
    → Reach d d'
    → submitted_for d s ≡ some a
    → submitted_for d' s ≡ some a
Reach-keeps s a here h = h
Reach-keeps s a (next r st) h = Step-keeps s a st (Reach-keeps s a r h)
