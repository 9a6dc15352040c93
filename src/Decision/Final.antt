-- ===== src/Decision/Final.antt =====
-- What a decision hands over once all of its seats have answered.
use driichi.Domain.Mode.{Seat}
use driichi.Decision.Clock.{Instant}
use driichi.Decision.Types.{
  ActionId, DecisionAction, DecisionSeat, Decision, DecisionError, DecisionResolution,
  DecisionSubmission, ResolvedAction, accepted, resolved, update_entry, is_expired_at,
}
use driichi.Decision.Submit.{
  is_answered, answered, resolve_entry, resolve_entries, accepted_resolution, record_answer,
  submit_at,
}
use driichi.Decision.Resolve.{times_out, time_out, resolve_at}
use driichi.Decision.Answers.{submit_tests}
use driichi.Decision.Valid.{entry_valid, IsValid, resolve_at-IsValid, record_answer-IsValid}
use driichi.Prelude.{
  ◌≡◌, refl, sym, ap, ◌∙◌, inl, inr, true, false, not, ◌||◌, Option, none, some, List, [], ◌∷◌, map,
  str_eq, eq_iff, find, any, all, find-In, In, Outcome, ok, err, panic, arith, Option-cases,
  Bool-cases, any-not,
}

-- One resolved action for each entry, in order: the entry's seat, the answer that it recorded, and
-- the action that the seat was offered under that name.
abbrev pub Resolves : List DecisionSeat → List ResolvedAction → Type 0
Resolves [] [] = Unit
Resolves [] (r ∷ rs) = ⊥
Resolves (e ∷ es) [] = ⊥
Resolves (e ∷ es) (r ∷ rs) =
    (r.seat ≡ e.seat)
    × (e.submitted_action_id ≡ some r.action_id)
    × (r.timed_out ≡ e.timed_out)
    × In (record { id = r.action_id; action = r.action }) e.actions
    × Resolves es rs

find_offered :
    (actions : List DecisionAction) (action_id : ActionId)
    → any (λ a. str_eq a.id action_id) actions ≡ true
    → (a : DecisionAction) × (find (λ a. str_eq a.id action_id) actions ≡ some a)
      × (a.id ≡ action_id)
find_offered [] action_id h = cc
find_offered (a ∷ as') action_id h = elim (Bool-cases (str_eq a.id action_id)) [
  | inl e ↦ (a, rw e refl, (eq_iff a.id action_id).0 e)
  | inr n ↦ let (b, f, g) = find_offered as' action_id (ground arith) in (b, rw n f, g)
]

resolve_entry_total :
    (e : DecisionSeat) (action_id : ActionId)
    → e.submitted_action_id ≡ some action_id
    → entry_valid e ≡ true
    → (a : DecisionAction) × (a.id ≡ action_id)
      × In a e.actions
      × (resolve_entry e
          ≡ ok (record {
            seat = e.seat;
            action_id = a.id;
            action = a.action;
            timed_out = e.timed_out;
          }))
unfolding resolve_entry
resolve_entry_total e action_id s v =
    let (a, f, g) = find_offered e.actions action_id (ground arith) in
    (a, g, find-In _ e.actions a f, ground arith)

resolve_entries_total :
    (es : List DecisionSeat)
    → all entry_valid es ≡ true
    → all is_answered es ≡ true
    → (rs : List ResolvedAction) × (resolve_entries es ≡ ok rs) × Resolves es rs
unfolding resolve_entries
resolve_entries_total [] v a = ([], refl, tt)
resolve_entries_total (e ∷ es) v a = elim (Option-cases e.submitted_action_id) [
  | inl n ↦ absurd (ground arith)
  | inr (action_id, s) ↦
      let (x, named, listed, here) = resolve_entry_total e action_id s (ground arith) in
      let (rs, later, rest) = resolve_entries_total es (ground arith) (ground arith) in
      (_ ∷ rs, rw (here, later) refl, (refl, s ∙ ap some (sym named), refl, listed, rest))
]

-- What a call of `submit_at` may return with the state that it leaves.
abbrev pub Settles : Decision → Outcome DecisionError DecisionSubmission → Type 0
Settles d (ok (accepted complete)) = (complete ≡ false) × (d.is_closed ≡ false)
Settles d (ok (resolved r)) =
    (d.is_closed ≡ true) × (r.decision_id ≡ d.id) × Resolves d.entries r.actions
Settles d (err e) = Unit {0}
Settles d panic = ⊥

pub resolution_total :
    (d : Decision)
    → all entry_valid d.entries ≡ true
    → all is_answered d.entries ≡ true
    → (r : DecisionResolution) × (accepted_resolution d ≡ ok r)
      × (r.decision_id ≡ d.id)
      × Resolves d.entries r.actions
unfolding accepted_resolution
resolution_total d v a =
    let (rs, e, ok_rs) = resolve_entries_total d.entries v a in
    (record { decision_id = d.id; actions = rs }, rw e refl, refl, ok_rs)

record_answer-Settles :
    (d : Decision) (seat : Seat) (action_id : ActionId)
    → d.is_closed ≡ false
    → IsValid (record_answer d seat action_id).0
    → Settles (record_answer d seat action_id).0 (record_answer d seat action_id).1
unfolding record_answer
record_answer-Settles d seat action_id opened v =
    elim (Bool-cases (all is_answered (update_entry seat (answered action_id) d.entries))) [
      | inl done ↦
          let es = update_entry seat (answered action_id) d.entries in
          let d' : Decision = record d { entries = es; is_closed = true } in
          let valid : all entry_valid es ≡ true = ground arith in
          let (r, e, named, all_resolved) = resolution_total d' valid done in
          rw (done, e) (refl, named, all_resolved)
      | inr more ↦ rw more (refl, opened)
    ]

-- A valid decision never panics over an answer. It says "accepted" only while it stays open, and
-- when it closes it returns every seat's recorded answer with the action of that name.
pub submit_at-Settles :
    (d : Decision) (seat : Seat) (action_id : ActionId) (now : Instant)
    → IsValid d
    → Settles (submit_at d seat action_id now).0 (submit_at d seat action_id now).1
submit_at-Settles d seat action_id now v = elim (submit_tests d seat action_id now) [
  | inl (e, s, r, _) ↦ rw r tt
  | inr (e, f, opened, x, u, o, s) ↦ rw s (
      record_answer-Settles d seat action_id opened
        (record_answer-IsValid d seat action_id e v opened f o))
]

-- The same for the passing of time, which may also resolve nothing and then leaves the decision as
-- open or as closed as it was.
abbrev pub Expires :
    Decision → Decision → Outcome DecisionError (Option DecisionResolution) → Type 0
Expires before d (ok none) = d.is_closed ≡ before.is_closed
Expires before d (ok (some r)) =
    (before.is_closed ≡ false)
    × (d.is_closed ≡ true)
    × (r.decision_id ≡ d.id)
    × Resolves d.entries r.actions
Expires before d (err e) = ⊥
Expires before d panic = ⊥

timed_out_Expires :
    (d : Decision) (now : Instant)
    → d.is_closed ≡ false
    → is_expired_at d now ≡ true
    → IsValid (resolve_at d now).0
    → Expires d (resolve_at d now).0 (resolve_at d now).1
unfolding resolve_at is_expired_at
timed_out_Expires d now opened x v =
    let es = map (time_out now) d.entries in
    elim (Bool-cases (not (any (times_out now) d.entries) || any (λ e. not (is_answered e)) es)) [
      | inl waits ↦ rw (opened, x, waits) refl
      | inr done ↦
          let d' : Decision = record d { entries = es; is_closed = true } in
          let valid : all entry_valid es ≡ true = ground arith in
          let complete : all is_answered es ≡ true = ground (arith, any-not is_answered es) in
          let (r, e, named, all_resolved) = resolution_total d' valid complete in
          rw (opened, x, done, e) (refl, refl, named, all_resolved)
    ]

-- A valid decision never fails when time passes: it resolves nothing, or it closes and returns every
-- seat's answer, the default for a seat that timed out.
pub resolve_at-Expires :
    (d : Decision) (now : Instant) → IsValid d → Expires d (resolve_at d now).0 (resolve_at d now).1
unfolding resolve_at is_expired_at
resolve_at-Expires d now v = elim (Bool-cases d.is_closed) [
  | inl c ↦ rw c refl
  | inr opened ↦ elim (Bool-cases (is_expired_at d now)) [
    | inl x ↦ timed_out_Expires d now opened x (resolve_at-IsValid d now v)
    | inr n ↦ rw (opened, n) refl
  ]
]
