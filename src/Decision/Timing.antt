-- ===== src/Decision/Timing.antt =====
-- The decision's own deadline: it is shown only while it is that of every seat.
use driichi.Domain.Mode.{Seat}
use driichi.Decision.Clock.{Instant, Duration}
use driichi.Decision.Types.{
  DecisionSeat, Decision, update_entry, ActionId, DecisionId, DecisionKind, DecisionError,
}
use driichi.Decision.Build.{
  after, duration_eq, same_timing, recompute_timing, retime_for, retimed, SeatOption,
  from_action_ids_with_timings, build_entries, build_entry,
}
use driichi.Decision.Submit.{answered, record_answer}
use driichi.Decision.Resolve.{time_out, resolve_at}
use driichi.Decision.Answers.{submit_tests}
use driichi.Decision.Reach.{Step, answer, expire, retime, Reach, here, next}
use driichi.Prelude.{
  ◌≡◌, refl, subst, inl, inr, Bool, true, Option, none, some, List, [], ◌∷◌, map, all, ok, bind-ok,
  arith, Outcome,
}

abbrev is_clocked : DecisionSeat → Bool
is_clocked e = duration_eq e.deadline (after e.opened_at e.duration)

abbrev agrees : Option Instant → List DecisionSeat → Bool
agrees none es = true
agrees (some t) es = all (λ e. duration_eq e.deadline (some t)) es

-- Every seat's deadline is its opening and its duration, and the decision's is that of every seat.
pub record IsTimed (d : Decision) : Type 0 where
  pub clocked : all is_clocked d.entries ≡ true
  pub shared : agrees d.deadline d.entries ≡ true

uniform_agrees :
    (first : DecisionSeat) (es : List DecisionSeat)
    → is_clocked first ≡ true
    → all is_clocked es ≡ true
    → all (same_timing first) es ≡ true
    → agrees first.deadline es ≡ true
unfolding same_timing
uniform_agrees first [] f c s = ground arith
uniform_agrees first (e ∷ es) f c s = ground (arith, uniform_agrees first es f)

recompute_first :
    (d : Decision) (es : List DecisionSeat)
    → d.entries ≡ es
    → all is_clocked es ≡ true
    → IsTimed (recompute_timing d)
unfolding recompute_timing
recompute_first d [] h c = ground arith
recompute_first d (e ∷ es) h c = ground (arith, uniform_agrees e (e ∷ es))

recompute-IsTimed : (d : Decision) → all is_clocked d.entries ≡ true → IsTimed (recompute_timing d)
recompute-IsTimed d c = recompute_first d d.entries refl c

update-clocked :
    (seat : Seat) (opened_at : Instant) (duration : Option Duration) (watchdog : Bool)
    (es : List DecisionSeat)
    → all is_clocked es ≡ true
    → all is_clocked (update_entry seat (retimed opened_at duration watchdog) es) ≡ true
unfolding update_entry
update-clocked seat opened_at duration watchdog [] c = refl
update-clocked seat opened_at duration watchdog (e ∷ es) c =
    ground (arith, update-clocked seat opened_at duration watchdog es)

module _ (q : DecisionSeat → Bool) where
  all-answered :
      (seat : Seat) (action_id : ActionId) (es : List DecisionSeat)
      → ((e : DecisionSeat) → q (answered action_id e) ≡ q e)
      → all q (update_entry seat (answered action_id) es) ≡ all q es
  unfolding update_entry
  all-answered seat action_id [] same = refl
  all-answered seat action_id (e ∷ es) same =
      ground (arith, same e, all-answered seat action_id es same)

  all-timed_out :
      (now : Instant) (es : List DecisionSeat)
      → ((e : DecisionSeat) → q (time_out now e) ≡ q e)
      → all q (map (time_out now) es) ≡ all q es
  all-timed_out now [] same = refl
  all-timed_out now (e ∷ es) same = ground (arith, same e, all-timed_out now es same)

agrees-answered :
    (t : Option Instant) (seat : Seat) (action_id : ActionId) (es : List DecisionSeat)
    → agrees t (update_entry seat (answered action_id) es) ≡ agrees t es
agrees-answered none seat action_id es = refl
agrees-answered (some t) seat action_id es = all-answered _ seat action_id es (λ e. refl)

agrees-timed_out :
    (t : Option Instant) (now : Instant) (es : List DecisionSeat)
    → agrees t (map (time_out now) es) ≡ agrees t es
unfolding time_out
agrees-timed_out none now es = refl
agrees-timed_out (some t) now es = all-timed_out _ now es (λ e. ground arith)

record_answer-IsTimed :
    (d : Decision) (seat : Seat) (action_id : ActionId)
    → IsTimed d
    → IsTimed (record_answer d seat action_id).0
unfolding record_answer
record_answer-IsTimed d seat action_id v =
    let same = all-answered is_clocked seat action_id d.entries (λ e. refl) in
    let kept = agrees-answered d.deadline seat action_id d.entries in ground arith

resolve_at-IsTimed : (d : Decision) (now : Instant) → IsTimed d → IsTimed (resolve_at d now).0
unfolding resolve_at
resolve_at-IsTimed d now v =
    let same = all-timed_out is_clocked now d.entries (λ e. unfold time_out in ground arith) in
    let kept = agrees-timed_out d.deadline now d.entries in ground arith

Step-IsTimed : {d d' : Decision} → Step d d' → IsTimed d → IsTimed d'
unfolding retime_for
Step-IsTimed (answer d seat action_id now) v = elim (submit_tests d seat action_id now) [
  | inl (_, same, _, _) ↦ rw same v
  | inr (_, _, _, _, _, _, same) ↦ rw same (record_answer-IsTimed d seat action_id v)
]
Step-IsTimed (expire d now) v = resolve_at-IsTimed d now v
Step-IsTimed (retime d seat opened_at duration watchdog) v =
    recompute-IsTimed _ (update-clocked seat opened_at duration watchdog d.entries v.clocked)

-- Over any history the deadline that a decision shows is that of every one of its seats.
pub Reach-IsTimed : {d d' : Decision} → Reach d d' → IsTimed d → IsTimed d'
Reach-IsTimed here v = v
Reach-IsTimed (next r st) v = Step-IsTimed st (Reach-IsTimed r v)

after-clocked :
    (opened_at : Instant) (duration : Option Duration)
    → duration_eq (after opened_at duration) (after opened_at duration) ≡ true
after-clocked opened_at none = refl
after-clocked opened_at (some duration) = ground arith

build_entry-clocked :
    (opened_at : Instant) (o : SeatOption) (e : DecisionSeat)
    → build_entry opened_at o ≡ ok e
    → is_clocked e ≡ true
unfolding build_entry
build_entry-clocked opened_at (seat, actions, duration, watchdog) e h =
    ground (arith, after-clocked opened_at duration)

build_entries-clocked :
    (opened_at : Instant) (os : List SeatOption) (es : List DecisionSeat)
    → build_entries opened_at os ≡ ok es
    → all is_clocked es ≡ true
unfolding build_entries
build_entries-clocked opened_at [] es h = ground arith
build_entries-clocked opened_at (o ∷ os) es h =
    let (e, first, rest) = bind-ok (build_entry opened_at o) _ h in
    let (es', second, last) = bind-ok (build_entries opened_at os) _ rest in
    let here' = build_entry-clocked opened_at o e first in
    let ih = build_entries-clocked opened_at os es' second in ground arith

abbrev OnBuilt : Outcome DecisionError Decision → Type 0
OnBuilt (ok d) = IsTimed d
OnBuilt _ = Unit

-- A decision that is built shows a deadline only if it is that of every seat.
pub from_action_ids-IsTimed :
    (id : DecisionId) (kind : DecisionKind) (os : List SeatOption) (opened_at : Instant)
    (d : Decision)
    → from_action_ids_with_timings id kind os opened_at ≡ ok d
    → IsTimed d
unfolding from_action_ids_with_timings
from_action_ids-IsTimed id kind os opened_at d h =
    let (es, built, last) = bind-ok (build_entries opened_at os) _ h in
    subst (λ r. OnBuilt r) last (recompute-IsTimed _ (build_entries-clocked opened_at os es built))
