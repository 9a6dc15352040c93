-- ===== src/Decision/Recording.antt =====
-- What an answer does to a decision: it is refused, or it is the one change that is made.
use driichi.Domain.Mode.{Seat}
use driichi.Decision.Clock.{Instant}
use driichi.Decision.Types.{
  ActionId, DecisionSeat, Decision, accepted, entry, find_entry, update_entry, is_expired_for,
}
use driichi.Decision.Submit.{offers, is_answered, answered, Submitted, record_answer, submit_at}
use driichi.Decision.Answers.{Refused, submit_tests}
use driichi.Prelude.{
  ◌≡◌, ◌≢◌, refl, sym, subst, ◌∙◌, ◌⊎◌, inl, inr, true, false, some, List, [], ◌∷◌, all, ok, ◌==◌,
  Bool-cases, arith,
}

-- The second list is the first, with this action as the answer of the first entry of the seat.
abbrev pub Answers : Seat → ActionId → List DecisionSeat → List DecisionSeat → Type 0
Answers seat action_id [] fs = ⊥
Answers seat action_id (e ∷ es) [] = ⊥
Answers seat action_id (e ∷ es) (f ∷ fs) =
    ((e.seat ≡ seat) × (f ≡ record e { submitted_action_id = some action_id }) × (fs ≡ es))
    ⊎ ((e.seat ≢ seat) × (f ≡ e) × Answers seat action_id es fs)

update_entry-Answers :
    (seat : Seat) (action_id : ActionId) (es : List DecisionSeat) (x : DecisionSeat)
    → find_entry seat es ≡ some x
    → Answers seat action_id es (update_entry seat (answered action_id) es)
unfolding find_entry update_entry
update_entry-Answers seat action_id [] x h = absurd (ground arith)
update_entry-Answers seat action_id (e ∷ es) x h = elim (Bool-cases (e.seat == seat)) [
  | inl same ↦ rw same (inl (ground arith, refl, refl))
  | inr other ↦
      rw other (inr (ground arith, refl, update_entry-Answers seat action_id es x (ground arith)))
]

module _ (d : Decision) (seat : Seat) (action_id : ActionId) (now : Instant) where
  -- The change that recording an answer makes: one entry, and closed is closed.
  abbrev pub Changes : Submitted → Type 0
  Changes (d', outcome) =
      Answers seat action_id d.entries d'.entries
      × (d' ≡ record d { entries = d'.entries; is_closed = all is_answered d'.entries })
      × ((d'.is_closed ≡ true) ⊎ (outcome ≡ ok (accepted false)))

  -- An answer that was open to the seat, and what it leaves.
  abbrev pub Recorded : Submitted → Type 0
  Recorded r =
      ((e : DecisionSeat) × (entry d seat ≡ some e)
        × (is_answered e ≡ false)
        × (offers e action_id ≡ true))
      × (d.is_closed ≡ false)
      × (is_expired_for d seat now ≡ false)
      × Changes r

  record_answer-Changes :
      (x : DecisionSeat)
      → entry d seat ≡ some x
      → d.is_closed ≡ false
      → Changes (record_answer d seat action_id)
  unfolding record_answer
  record_answer-Changes x h opened =
      let es = update_entry seat (answered action_id) d.entries in
      let one = update_entry-Answers seat action_id d.entries x h in
      elim (Bool-cases (all is_answered es)) [
        | inl every ↦
            rw every (one, (λ i. record d { entries = es; is_closed = sym every i }), inl refl)
        | inr some_left ↦ rw some_left (
          one,
          (λ i. record d { entries = es; is_closed = (opened ∙ sym some_left) i }),
          inr refl,
        )
      ]

  -- An answer is refused, for the first reason that its error names and with the decision left as it
  -- was, or it is recorded. Then the decision was open, and the seat's entry unexpired, unanswered
  -- and offered the action; afterwards the first entry of the seat has the action as its answer, all
  -- else of the entries is as before, the decision is closed exactly if every entry has an answer, and
  -- nothing else of it has changed; as long as it is not closed, the answer is accepted.
  pub submit_cases : Refused d seat action_id now ⊎ Recorded (submit_at d seat action_id now)
  submit_cases = elim (submit_tests d seat action_id now) [
    | inl refused ↦ inl refused
    | inr (e, found, opened, unexpired, fresh, offered, step) ↦ inr (
        subst Recorded (sym step)
          ((e, found, fresh, offered), opened, unexpired, record_answer-Changes e found opened))
  ]
