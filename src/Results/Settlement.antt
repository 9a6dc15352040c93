-- ===== src/Results/Settlement.antt =====
-- What the check of a hand's results ensures of its settlement.
use driichi.Domain.Roster.{Participant, ParticipantId}
use driichi.Results.Types.{ScoreChange}
use driichi.Results.Hand.{is_sum, is_change, check_changes}
use driichi.Prelude.{
  ℕ, zero, suc, ◌+◌, ◌≡◌, sym, subst, ◌∙◌, Bool, true, false, not, ◌||◌, Option, none, some, List,
  [], ◌∷◌, String, str_eq, eq_iff, any, get_elem?, if◌then◌else◌, Outcome, ok, expect, reject-ok,
  bind-ok, Option-cases, inl, inr, arith,
}
use driichi.Prelude.Int.{ℤ, ◌+ℤ◌, eqb_ℤ-sound, checked_add}

-- The change of a participant at its seat.
abbrev pub IsChange : ℕ → Participant → ScoreChange → Type 0
IsChange index p c = (c.seat ≡ index) × (c.participant_id ≡ p.id) × (c.after ≡ c.before +ℤ c.delta)

if_some : {A : Type 0} (b : Bool) (a s : A) → (if b then some a else none) ≡ some s → a ≡ s
if_some true a s h = cc
if_some false a s h = cc

expect_ok :
    {A : Type 0} (o : Option A) (a : A) → ◌≡◌ {A = Outcome String A} (expect o) (ok a) → o ≡ some a
expect_ok none a h = cc
expect_ok (some b) a h = cc

checked_add-sum : (a b after : ℤ) → is_sum (checked_add a b) after ≡ true → after ≡ a +ℤ b
unfolding checked_add
checked_add-sum a b after h = elim (Option-cases (checked_add a b)) [
  | inl e ↦ cc (subst (λ o. is_sum o after ≡ true) e h)
  | inr (s, e) ↦
      sym (eqb_ℤ-sound s after (subst (λ o. is_sum o after ≡ true) e h))
      ∙ sym (if_some _ (a +ℤ b) s e)
]

is_change-IsChange :
    (index : ℕ) (p : Participant) (c : ScoreChange)
    → is_change index p c ≡ true
    → IsChange index p c
unfolding is_change
is_change-IsChange index p c h = (
  ground arith,
  ground (arith, eq_iff c.participant_id p.id),
  checked_add-sum c.before c.delta c.after (ground arith),
)

pub check_changes-IsChange :
    (changes : List ScoreChange) (seen : List ParticipantId) (index i : ℕ)
    (roster : List Participant) (p : Participant)
    → check_changes changes seen index roster ≡ ok tt
    → get_elem? roster i ≡ some p
    → (c : ScoreChange) × (get_elem? changes (index + i) ≡ some c) × IsChange (index + i) p c
unfolding check_changes
check_changes-IsChange changes seen index i [] p h g = absurd (ground arith)
check_changes-IsChange changes seen index zero (q ∷ qs) p h g =
    let (_, h1) = reject-ok (any (str_eq q.id) seen || str_eq q.id "") _ _ h in
    let (c, found, h2) = bind-ok (expect (get_elem? changes index)) _ h1 in
    let (right, _) = reject-ok (not (is_change index q c)) _ _ h2 in
    let same : q ≡ p = cc in
    let here : index ≡ index + 0 = omega arith in
    subst (λ n. (c : ScoreChange) × (get_elem? changes n ≡ some c) × IsChange n p c) here
      (
        c,
        expect_ok (get_elem? changes index) c found,
        subst (λ p. IsChange index p c) same (is_change-IsChange index q c (ground arith)),
      )
check_changes-IsChange changes seen index (suc i) (q ∷ qs) p h g =
    let (_, h1) = reject-ok (any (str_eq q.id) seen || str_eq q.id "") _ _ h in
    let (c, _, h2) = bind-ok (expect (get_elem? changes index)) _ h1 in
    let (_, h3) = reject-ok (not (is_change index q c)) _ _ h2 in
    let there : suc index + i ≡ index + suc i = omega arith in
    subst (λ n. (c : ScoreChange) × (get_elem? changes n ≡ some c) × IsChange n p c) there
      (check_changes-IsChange changes (q.id ∷ seen) (suc index) i qs p h3 g)
