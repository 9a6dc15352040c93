-- ===== src/Decision/Answers.antt =====
-- The tests of an answer, one after the other.
use driichi.Domain.Mode.{Seat}
use driichi.Decision.Clock.{Instant}
use driichi.Decision.Types.{
  ActionId, DecisionSeat, Decision, DecisionError, stale_decision, foreign_action, already_consumed,
  not_eligible, no_safe_default, expired, closed, entry, is_expired_for,
}
use driichi.Decision.Submit.{offers, is_answered, record_answer, answer_entry, submit_at}
use driichi.Prelude.{
  ◌≡◌, refl, ◌⊎◌, inl, inr, true, false, none, some, err, arith, Option-cases, Bool-cases,
}

module _ (d : Decision) (seat : Seat) (action_id : ActionId) (now : Instant) where
  -- When an answer is refused with an error: the first test that fails decides.
  abbrev pub Refuses : DecisionError → Type 0
  Refuses closed = d.is_closed ≡ true
  Refuses (not_eligible s) = (s ≡ seat) × (d.is_closed ≡ false) × (entry d seat ≡ none)
  Refuses expired = (d.is_closed ≡ false) × (is_expired_for d seat now ≡ true)
  Refuses (already_consumed s) =
      (s ≡ seat)
      × (d.is_closed ≡ false)
      × (is_expired_for d seat now ≡ false)
      × ((e : DecisionSeat) × (entry d seat ≡ some e) × (is_answered e ≡ true))
  Refuses (foreign_action s a) =
      (s ≡ seat)
      × (a ≡ action_id)
      × (d.is_closed ≡ false)
      × (is_expired_for d seat now ≡ false)
      × ((e : DecisionSeat) × (entry d seat ≡ some e)
          × (is_answered e ≡ false)
          × (offers e action_id ≡ false))
  Refuses (stale_decision _ _) = ⊥
  Refuses (no_safe_default _) = ⊥

  abbrev pub Refused : Type 0
  Refused =
      (e : DecisionError) × ((submit_at d seat action_id now).0 ≡ d)
      × ((submit_at d seat action_id now).1 ≡ err e)
      × Refuses e

  -- The tests that let an answer through, and the step that records it.
  abbrev pub Passes : Type 0
  Passes =
      (e : DecisionSeat) × (entry d seat ≡ some e)
      × (d.is_closed ≡ false)
      × (is_expired_for d seat now ≡ false)
      × (is_answered e ≡ false)
      × (offers e action_id ≡ true)
      × (submit_at d seat action_id now ≡ record_answer d seat action_id)

  submit_entry :
      (e : DecisionSeat)
      → d.is_closed ≡ false
      → entry d seat ≡ some e
      → submit_at d seat action_id now ≡ answer_entry d e seat action_id now
  unfolding submit_at
  submit_entry e opened f = ground arith

  answer_cases : (e : DecisionSeat) → d.is_closed ≡ false → entry d seat ≡ some e → Refused ⊎ Passes
  unfolding answer_entry
  answer_cases e opened f = elim (Bool-cases (is_expired_for d seat now)) [
    | inl x ↦ inl (expired, ground (arith, step), ground (arith, step), (opened, x))
    | inr x ↦ elim (Bool-cases (is_answered e)) [
      | inl u ↦ inl (
        already_consumed seat,
        ground (arith, step),
        ground (arith, step),
        (refl, opened, x, (e, f, u)),
      )
      | inr u ↦ elim (Bool-cases (offers e action_id)) [
        | inl o ↦ inr (e, f, opened, x, u, o, ground (arith, step))
        | inr o ↦ inl (
          foreign_action seat action_id,
          ground (arith, step),
          ground (arith, step),
          (refl, refl, opened, x, (e, f, u, o)),
        )
      ]
    ]
  ]
    where
      step : submit_at d seat action_id now ≡ answer_entry d e seat action_id now
      step = submit_entry e opened f

  -- The first test that fails refuses an answer, and one that passes all of them is recorded.
  pub submit_tests : Refused ⊎ Passes
  unfolding submit_at
  submit_tests = elim (Bool-cases d.is_closed) [
    | inl c ↦ inl (closed, rw c refl, rw c refl, c)
    | inr opened ↦ elim (Option-cases (entry d seat)) [
      | inl n ↦ inl (not_eligible seat, ground arith, ground arith, (refl, opened, n))
      | inr (e, f) ↦ answer_cases e opened f
    ]
  ]
