-- ===== src/Decision/Naming.antt =====
-- The identifiers of a decision's actions.
use driichi.Domain.Mode.{Seat}
use driichi.Domain.Action.{GameAction}
use driichi.Decision.Clock.{Duration}
use driichi.Decision.Types.{ActionId}
use driichi.Decision.Build.{SeatOption, number_actions, number_options}
use driichi.Prelude.{
  ℕ, zero, suc, ◌+◌, ◌≡◌, refl, sym, ap, ◌∙◌, Bool, Option, some, List, [], ◌∷◌, ◌++◌, map, length,
  get_elem?, arith,
}
use driichi.Prelude.Decimal.{decimal, cat, decimal-injective, cat-injective}

abbrev ids_of : List (ActionId × GameAction) → List ActionId
ids_of actions = map (λ a. a.0) actions

-- All identifiers of the options of a decision, seat after seat.
abbrev pub all_ids : List SeatOption → List ActionId
all_ids [] = []
all_ids ((_, actions, _, _) ∷ os) = ids_of actions ++ all_ids os

abbrev name : ℕ → ActionId
name n = cat "a" (decimal n)

names : ℕ → ℕ → List ActionId
names next zero = []
names next (suc n) = name next ∷ names (suc next) n

names-append : (next m n : ℕ) → names next (m + n) ≡ names next m ++ names (next + m) n
unfolding names
names-append next zero n =
    let e : 0 + n ≡ n = omega arith in let f : next + 0 ≡ next = omega arith in rw (e, f)
names-append next (suc m) n =
    let e : suc m + n ≡ suc (m + n) = omega arith in
    let f : suc next + m ≡ next + suc m = omega arith in
    rw (e, ← f) (ap (λ l. name next ∷ l) (names-append (suc next) m n))

abbrev Option4 : Type 0
Option4 = Seat × List GameAction × Option Duration × Bool

abbrev total : List Option4 → ℕ
total [] = 0
total ((_, actions, _, _) ∷ os) = length actions + total os

number_actions-names :
    (next : ℕ) (actions : List GameAction)
    → ids_of (number_actions next actions) ≡ names next (length actions)
unfolding number_actions names
number_actions-names next [] = refl
number_actions-names next (a ∷ as') = ap (λ l. name next ∷ l) (number_actions-names (suc next) as')

number_options-names :
    (next : ℕ) (os : List Option4) → all_ids (number_options next os) ≡ names next (total os)
unfolding number_options
number_options-names next [] = unfold names in refl
number_options-names next ((seat, actions, duration, watchdog) ∷ os) =
    rw (number_actions-names next actions, number_options-names (next + length actions) os)
      (sym (names-append next (length actions) (total os)))

get-names :
    (next n i : ℕ) (x : ActionId) → get_elem? (names next n) i ≡ some x → x ≡ name (next + i)
unfolding names
get-names next zero i x h = cc
get-names next (suc n) zero x h = let e : next + 0 ≡ next = omega arith in rw e (ground arith)
get-names next (suc n) (suc i) x h =
    let e : next + suc i ≡ suc next + i = omega arith in rw e (get-names (suc next) n i x h)

-- The actions of a decision are named apart, also between seats: one identifier stands at one place
-- only.
pub number_options-distinct :
    (next : ℕ) (os : List (Seat × List GameAction × Option Duration × Bool)) (i j : ℕ)
    (x : ActionId)
    → get_elem? (all_ids (number_options next os)) i ≡ some x
    → get_elem? (all_ids (number_options next os)) j ≡ some x
    → i ≡ j
number_options-distinct next os i j x h k =
    let at_i = get-names next (total os) i x (rw number_options-names at h) in
    let at_j = get-names next (total os) j x (rw number_options-names at k) in
    let same : next + i ≡ next + j =
      decimal-injective _ _ (cat-injective "a" _ _ (sym at_i ∙ at_j)) in
    omega arith
