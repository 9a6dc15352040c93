-- ===== src/Decision/Default.antt =====
-- The default of a decision's seat: what is done for a player who does not answer in time.
use driichi.Domain.Action.{GameAction, discard, pass}
use driichi.Decision.Types.{DecisionAction}
use driichi.Decision.Build.{is_pass, is_tsumogiri, is_discard, default_action}
use driichi.Prelude.{
  ℕ, ◌≤◌, ◌≡◌, refl, ◌↔◌, ◌≢◌, inl, inr, true, false, none, some, List, find, All, In, All-mono,
  All-zip, All-of, find-true, find-none, none-find, find-In, Option-cases, arith, dec_le,
}

-- How well an action serves as a default, the best first; 3 is for what cannot be one.
abbrev pub preference : GameAction → ℕ
preference pass = 0
preference (discard tile true) = 1
preference (discard tile false) = 2
preference _ = 3

pass_iff : (x : GameAction) → (is_pass x ≡ true) ↔ (preference x ≤ 0)
unfolding is_pass
pass_iff (discard t true) = (λ h. cc, λ h. absurd (omega arith))
pass_iff (discard t false) = (λ h. cc, λ h. absurd (omega arith))
pass_iff pass = (λ h. omega arith, λ h. refl)
pass_iff _ = (λ h. cc, λ h. absurd (omega arith))

tsumogiri_iff : (x : GameAction) → (is_tsumogiri x ≡ true) ↔ (preference x ≡ 1)
unfolding is_tsumogiri
tsumogiri_iff (discard t true) = (λ h. refl, λ h. refl)
tsumogiri_iff (discard t false) = (λ h. cc, λ h. absurd (omega arith))
tsumogiri_iff _ = (λ h. cc, λ h. absurd (omega arith))

discard_iff : (x : GameAction) → (is_discard x ≡ true) ↔ ((1 ≤ preference x) × (preference x ≤ 2))
unfolding is_discard
discard_iff (discard t true) = (λ h. omega arith, λ h. refl)
discard_iff (discard t false) = (λ h. omega arith, λ h. refl)
discard_iff pass = (λ h. cc, λ h. absurd (omega arith))
discard_iff _ = (λ h. cc, λ h. absurd (omega arith))

preference-le : (x : GameAction) → preference x ≤ 3
preference-le (discard t true) = omega arith
preference-le (discard t false) = omega arith
preference-le _ = omega arith

no_pass :
    (actions : List DecisionAction)
    → find (λ a. is_pass a.action) actions ≡ none
    → All (λ a. 1 ≤ preference a.action) actions
no_pass actions h =
    All-mono actions (λ a e. ground (arith, pass_iff a.action)) (find-none _ actions h)

no_tsumogiri :
    (actions : List DecisionAction)
    → find (λ a. is_tsumogiri a.action) actions ≡ none
    → All (λ a. preference a.action ≢ 1) actions
no_tsumogiri actions h =
    All-mono actions (λ a e. ground (arith, tsumogiri_iff a.action)) (find-none _ actions h)

no_discard :
    (actions : List DecisionAction)
    → find (λ a. is_discard a.action) actions ≡ none
    → All (λ a. ¬ ((1 ≤ preference a.action) × (preference a.action ≤ 2))) actions
no_discard actions h =
    All-mono actions (λ a e. ground (arith, discard_iff a.action)) (find-none _ actions h)

abbrev IsBest : List DecisionAction → DecisionAction → Type 0
IsBest actions a =
    In a actions
    × (preference a.action ≤ 2)
    × All (λ b. preference a.action ≤ preference b.action) actions

module _ (actions : List DecisionAction) (a : DecisionAction) where
  IsBest-pass : find (λ a. is_pass a.action) actions ≡ some a → IsBest actions a
  IsBest-pass e =
      let least : preference a.action ≤ 0 = (pass_iff a.action).0 (find-true _ actions a e) in
      (find-In _ actions a e, omega arith, All-of (λ b. omega arith) actions)

  IsBest-tsumogiri :
      find (λ a. is_pass a.action) actions ≡ none
      → find (λ a. is_tsumogiri a.action) actions ≡ some a
      → IsBest actions a
  IsBest-tsumogiri n e =
      let least : preference a.action ≡ 1 = (tsumogiri_iff a.action).0 (find-true _ actions a e) in
      (
        find-In _ actions a e,
        omega arith,
        All-mono actions (λ b h. omega arith) (no_pass actions n),
      )

  IsBest-discard :
      find (λ a. is_pass a.action) actions ≡ none
      → find (λ a. is_tsumogiri a.action) actions ≡ none
      → find (λ a. is_discard a.action) actions ≡ some a
      → IsBest actions a
  IsBest-discard n m e =
      let least = (discard_iff a.action).0 (find-true _ actions a e) in
      (
        find-In _ actions a e,
        least.1,
        All-mono actions (λ b h. omega (arith, h.0, h.1))
            (All-zip _ _ actions (no_pass actions n) (no_tsumogiri actions m)),
      )

-- The default of a list of actions is one of them, it is a pass or a discard, and no action of the
-- list is preferred to it: a pass comes first, then a discard of the drawn tile, then any discard.
pub default_action-best :
    (actions : List DecisionAction) (a : DecisionAction)
    → default_action actions ≡ some a
    → In a actions
      × (preference a.action ≤ 2)
      × All (λ b. preference a.action ≤ preference b.action) actions
unfolding default_action
default_action-best actions a h = elim (Option-cases (find (λ a. is_pass a.action) actions)) [
  | inr (b, e) ↦ IsBest-pass actions a (ground arith)
  | inl n ↦ elim (Option-cases (find (λ a. is_tsumogiri a.action) actions)) [
    | inr (b, e) ↦ IsBest-tsumogiri actions a n (ground arith)
    | inl m ↦ IsBest-discard actions a n m (ground arith)
  ]
]

only_three : (n : ℕ) → 1 ≤ n → ¬ ((1 ≤ n) × (n ≤ 2)) → n ≤ 3 → n ≡ 3
only_three n low h high = elim (dec_le n 2) [
  | yes small ↦ absurd (h (low, small))
  | no large ↦ omega arith
]

-- There is no default exactly if no action is a pass or a discard.
pub default_action-none :
    (actions : List DecisionAction)
    → (default_action actions ≡ none) ↔ All (λ b. preference b.action ≡ 3) actions
unfolding default_action
default_action-none actions = (
  λ h.
      All-mono actions (λ b k. only_three (preference b.action) k.0 k.1.1 (preference-le b.action))
        (All-zip _ _ actions (no_pass actions (ground arith)) (
          All-zip _ _ actions (no_tsumogiri actions (ground arith))
            (no_discard actions (ground arith)))),
  λ h. rw (
    none-find (λ a. is_pass a.action) actions
        (All-mono actions (λ b e. ground (arith, pass_iff b.action)) h),
    none-find (λ a. is_tsumogiri a.action) actions
        (All-mono actions (λ b e. ground (arith, tsumogiri_iff b.action)) h),
    none-find (λ a. is_discard a.action) actions
        (All-mono actions (λ b e. ground (arith, discard_iff b.action)) h),
  ),
)
