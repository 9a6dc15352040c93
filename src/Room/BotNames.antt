-- ===== src/Room/BotNames.antt =====
-- The loop that looks for a free bot name ends, and finds a free name.
use driichi.Domain.Roster.{ParticipantId}
use driichi.Room.Table.{Participants, contains_key, remove}
use driichi.Room.ChangeLaws.{length-remove, contains_key-remove_other}
use driichi.Room.State.{saturating_add}
use driichi.Room.Bots.{later_name, unique_name, bot_name}
use driichi.Prelude.{
  ℕ, zero, suc, ◌+◌, ◌-◌, ◌^◌, ◌≤◌, ◌<◌, ◌≡◌, ◌≢◌, ◌∙◌, inl, inr, true, false, none, some, length,
  subst, Bool-cases, Option-cases, arith,
}
use driichi.Prelude.Decimal.{decimal, decimal-injective, cat-injective}

later_name-injective : (revision i j : ℕ) → later_name revision i ≡ later_name revision j → i ≡ j
unfolding later_name
later_name-injective revision i j e = decimal-injective i j (
    cat-injective "-" _ _
      (cat-injective (decimal revision) _ _ (cat-injective "builtin-bot-" _ _ e)))

-- Distinct names that are all keys are no more than the keys.
pigeons :
    (revision k start : ℕ) (ps : Participants)
    → ((i : ℕ) → i < k → contains_key (later_name revision (start + i)) ps ≡ true)
    → k ≤ length ps
pigeons revision zero start ps h = omega arith
pigeons revision (suc k) start ps h =
    let name = later_name revision (start + 0) in
    let here = h 0 (omega arith) in
    let rest = pigeons revision k (suc start) (remove name ps) (λ i lt. others i lt) in
    omega (arith, length-remove name ps here)
  where
    others :
        (i : ℕ)
        → i < k
        → contains_key
            (later_name revision (suc start + i))
            (remove (later_name revision (start + 0)) ps)
          ≡ true
    others i lt =
        let apart : later_name revision (suc start + i) ≢ later_name revision (start + 0) =
          λ e. absurd (omega (arith, later_name-injective revision _ _ e)) in
        let shift : start + suc i ≡ suc start + i = omega arith in
        contains_key-remove_other _ _ ps apart ∙ rw shift at (h (suc i) (omega arith))

saturating_add_small : (n : ℕ) → n < 2 ^ 64 - 1 → saturating_add n 1 ≡ suc n
saturating_add_small n small = omega arith

taken :
    (fuel : ℕ) (ps : Participants) (revision suffix : ℕ) (unique : ParticipantId)
    → unique_name (suc fuel) ps revision suffix unique ≡ none
    → contains_key unique ps ≡ true
unfolding unique_name
taken fuel ps revision suffix unique e = ground arith

unnamed_next :
    (fuel : ℕ) (ps : Participants) (revision suffix : ℕ) (unique : ParticipantId)
    → suffix < 2 ^ 64 - 1
    → unique_name (suc fuel) ps revision suffix unique ≡ none
    → unique_name fuel ps revision (suc suffix) (later_name revision (suc suffix)) ≡ none
unfolding unique_name
unnamed_next fuel ps revision suffix unique small e = step _ (saturating_add_small suffix small) e
  where
    step :
        (next : ℕ)
        → saturating_add suffix 1 ≡ next
        → unique_name (suc fuel) ps revision suffix unique ≡ none
        → unique_name fuel ps revision next (later_name revision next) ≡ none
    step next same e =
        subst (λ n. unique_name fuel ps revision n (later_name revision n) ≡ none) same
          (ground arith)

unique_none :
    (fuel : ℕ) (ps : Participants) (revision suffix : ℕ) (unique : ParticipantId)
    → suffix + fuel < 2 ^ 64
    → unique_name (suc fuel) ps revision suffix unique ≡ none
    → (i : ℕ) → i < fuel
    → contains_key (later_name revision (suc suffix + i)) ps ≡ true
unique_none zero ps revision suffix unique small h i lt = absurd (omega (arith, lt))
unique_none (suc fuel) ps revision suffix unique small h zero lt =
    let e : suc suffix ≡ suc suffix + 0 = omega arith in
    subst (λ n. contains_key (later_name revision n) ps ≡ true) e
      (taken fuel ps revision _ _
        (unnamed_next (suc fuel) ps revision suffix unique (omega arith) h))
unique_none (suc fuel) ps revision suffix unique small h (suc i) lt =
    let e : suc (suc suffix) + i ≡ suc suffix + suc i = omega arith in
    subst (λ n. contains_key (later_name revision n) ps ≡ true) e
      (unique_none fuel ps revision (suc suffix) _ (omega arith)
        (unnamed_next (suc fuel) ps revision suffix unique (omega arith) h) i (omega arith))

unique_free :
    (fuel : ℕ) (ps : Participants) (revision suffix : ℕ) (unique found : ParticipantId)
    → unique_name fuel ps revision suffix unique ≡ some found
    → contains_key found ps ≡ false
unfolding unique_name
unique_free zero ps revision suffix unique found e = ground arith
unique_free (suc fuel) ps revision suffix unique found e =
    elim (Bool-cases (contains_key unique ps)) [
      | inl is_in ↦ unique_free fuel ps revision _ _ found (rw is_in at e)
      | inr is_out ↦ ground arith
    ]

-- As long as the sum of the bot's index, the number of participants and one is below 2^64, a free
-- name is found with at most two tests more than there are participants, which is the fuel of
-- `bot_name`: it returns a name, and no participant has it yet.
pub bot_name-is_free :
    (ps : Participants) (revision index : ℕ)
    → index + length ps + 1 < 2 ^ 64
    → (unique : ParticipantId) × (bot_name ps revision index ≡ some unique)
      × (contains_key unique ps ≡ false)
unfolding bot_name
bot_name-is_free ps revision index small = elim (Option-cases (bot_name ps revision index)) [
  | inl none_found ↦ absurd (
      omega (
        arith,
        pigeons revision (suc (length ps)) (suc index) ps
            (unique_none (suc (length ps)) ps revision index _ (omega arith) none_found),
      ))
  | inr (unique, found) ↦ (unique, found, unique_free _ ps revision index _ unique found)
]
