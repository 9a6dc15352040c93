-- ===== src/Machine/RankingLaws.antt =====
-- The rank that sorting gives to a seat is one more than the number of seats that stand before it.
use driichi.Results.Order.{
  Standing, standings, before, ahead, before_irrefl, before_trans, before_total,
}
use driichi.Machine.Ranking.{insert_standing, sort_standings, zeros, set_at, assign_ranks, ranks_of}
use driichi.Prelude.{
  ℕ, zero, suc, ◌+◌, ◌<◌, ◌≡◌, ◌≢◌, refl, sym, ap, subst, ◌∙◌, inl, inr, true, some, List, [], ◌∷◌,
  In, All, All-mono, All-In, length, get_elem?, if◌then◌else◌, Bool-cases, arith,
}
use driichi.Prelude.Int.{ℤ}

-- Each stands before all that follow, and has a seat of its own.
abbrev Leads : Standing → Standing → Type 0
Leads a b = (before a b ≡ true) × (a.1 ≢ b.1)

abbrev Sorted : List Standing → Type 0
Sorted [] = Unit
Sorted (a ∷ as') = All (Leads a) as' × Sorted as'

module _ (P : Standing → Type 0) where
  All-insert_standing :
      (a : Standing) (as' : List Standing) → P a → All P as' → All P (insert_standing a as')
  unfolding insert_standing
  All-insert_standing a [] h k = (h, k)
  All-insert_standing a (b ∷ bs) h k = elim (Bool-cases (before b a)) [
    | inl first ↦ rw first (k.0, All-insert_standing a bs h k.1)
    | inr after ↦ rw after (h, k)
  ]

  All-sort_standings : (as' : List Standing) → All P as' → All P (sort_standings as')
  unfolding sort_standings
  All-sort_standings [] h = tt
  All-sort_standings (a ∷ as') h =
      All-insert_standing a (sort_standings as') h.0 (All-sort_standings as' h.1)

beyond :
    (a b : Standing) (cs : List Standing)
    → before a b ≡ true
    → All (λ c. a.1 ≢ c.1) cs
    → All (Leads b) cs
    → All (Leads a) cs
beyond a b [] first others follow = tt
beyond a b (c ∷ cs) first others follow =
    ((before_trans a b c first follow.0.0, others.0), beyond a b cs first others.1 follow.1)

insert_standing-Sorted :
    (a : Standing) (as' : List Standing)
    → All (λ b. a.1 ≢ b.1) as'
    → Sorted as'
    → Sorted (insert_standing a as')
unfolding insert_standing
insert_standing-Sorted a [] apart sorted = (tt, tt)
insert_standing-Sorted a (b ∷ bs) apart sorted = elim (Bool-cases (before b a)) [
  | inl first ↦ rw first (
    All-insert_standing (Leads b) a bs (first, λ e. apart.0 (sym e)) sorted.0,
    insert_standing-Sorted a bs apart.1 sorted.1,
  )
  | inr later ↦ rw later (
      let first = before_total b a (λ e. apart.0 (sym e)) later in
      (((first, apart.0), beyond a b bs first apart.1 sorted.0), sorted))
]

standings_beyond :
    (start bound : ℕ) (scores : List ℤ)
    → bound < start
    → All (λ b. bound ≢ b.1) (standings start scores)
standings_beyond start bound [] h = tt
standings_beyond start bound (x ∷ xs) h =
    ((λ e. absurd (omega arith)), standings_beyond (suc start) bound xs (omega arith))

Sorted-standings : (start : ℕ) (scores : List ℤ) → Sorted (sort_standings (standings start scores))
unfolding sort_standings
Sorted-standings start [] = tt
Sorted-standings start (x ∷ xs) =
    insert_standing-Sorted (x, start) (sort_standings (standings (suc start) xs))
      (All-sort_standings (λ b. start ≢ b.1) (standings (suc start) xs)
        (standings_beyond (suc start) start xs (omega arith)))
      (Sorted-standings (suc start) xs)

ahead-insert_standing :
    (a b : Standing) (as' : List Standing) → ahead a (insert_standing b as') ≡ ahead a (b ∷ as')
unfolding insert_standing
ahead-insert_standing a b [] = refl
ahead-insert_standing a b (c ∷ cs) = ground (arith, ahead-insert_standing a b cs)

ahead-sort_standings :
    (a : Standing) (as' : List Standing) → ahead a (sort_standings as') ≡ ahead a as'
unfolding sort_standings
ahead-sort_standings a [] = refl
ahead-sort_standings a (b ∷ bs) =
    ahead-insert_standing a b (sort_standings bs)
    ∙ ap (λ n. if before b a then suc n else n) (ahead-sort_standings a bs)

In-insert_standing :
    (a b : Standing) (as' : List Standing) → In a (b ∷ as') → In a (insert_standing b as')
unfolding insert_standing
In-insert_standing a b [] m = m
In-insert_standing a b (c ∷ cs) m = elim (Bool-cases (before c b)) [
  | inl first ↦ rw first (elim m [
    | inl e ↦ inr (In-insert_standing a b cs (inl e))
    | inr rest ↦ elim rest [ inl e ↦ inl e | inr n ↦ inr (In-insert_standing a b cs (inr n)) ]
  ])
  | inr later ↦ rw later m
]

In-sort_standings : (a : Standing) (as' : List Standing) → In a as' → In a (sort_standings as')
unfolding sort_standings
In-sort_standings a [] m = m
In-sort_standings a (b ∷ bs) (inl e) = In-insert_standing a b (sort_standings bs) (inl e)
In-sort_standings a (b ∷ bs) (inr m) =
    In-insert_standing a b (sort_standings bs) (inr (In-sort_standings a bs m))

length-set_at : (i v : ℕ) (xs : List ℕ) → length (set_at i v xs) ≡ length xs
unfolding set_at
length-set_at i v [] = refl
length-set_at zero v (x ∷ xs) = refl
length-set_at (suc i) v (x ∷ xs) = ap suc (length-set_at i v xs)

get-set_at : (i v : ℕ) (xs : List ℕ) → i < length xs → get_elem? (set_at i v xs) i ≡ some v
unfolding set_at
get-set_at i v [] h = absurd (omega (arith, h))
get-set_at zero v (x ∷ xs) h = refl
get-set_at (suc i) v (x ∷ xs) h = get-set_at i v xs (omega arith)

get-set_at_other : (i j v : ℕ) (xs : List ℕ) → j ≢ i → get_elem? (set_at i v xs) j ≡ get_elem? xs j
unfolding set_at
get-set_at_other i j v [] h = refl
get-set_at_other zero zero v (x ∷ xs) h = absurd (h refl)
get-set_at_other zero (suc j) v (x ∷ xs) h = refl
get-set_at_other (suc i) zero v (x ∷ xs) h = refl
get-set_at_other (suc i) (suc j) v (x ∷ xs) h = get-set_at_other i j v xs (λ e. h (ap suc e))

assign_other :
    (rank j : ℕ) (as' : List Standing) (ranks : List ℕ)
    → All (λ b. j ≢ b.1) as'
    → get_elem? (assign_ranks rank as' ranks) j ≡ get_elem? ranks j
unfolding assign_ranks
assign_other rank j [] ranks h = refl
assign_other rank j ((_, seat) ∷ rest) ranks h =
    assign_other (suc rank) j rest (set_at seat (suc rank) ranks) h.1
    ∙ get-set_at_other seat j (suc rank) ranks h.0

ahead_none : (a : Standing) (as' : List Standing) → All (Leads a) as' → ahead a as' ≡ 0
ahead_none a [] h = refl
ahead_none a (b ∷ bs) h = ground (arith, before_trans a b a, before_irrefl a, ahead_none a bs h.1)

assign-Sorted :
    (rank : ℕ) (a : Standing) (as' : List Standing) (ranks : List ℕ)
    → Sorted as'
    → In a as'
    → All (λ b. b.1 < length ranks) as'
    → get_elem? (assign_ranks rank as' ranks) a.1 ≡ some (suc (rank + ahead a as'))
unfolding assign_ranks
assign-Sorted rank a [] ranks sorted m small = elim m [ ]
assign-Sorted rank a (b ∷ bs) ranks sorted (inl e) small =
    let none_ahead = ahead_none b bs sorted.0 in
    let here : get_elem? (assign_ranks rank (b ∷ bs) ranks) b.1 ≡ some (suc rank) =
      assign_other (suc rank) b.1 bs (set_at b.1 (suc rank) ranks)
        (All-mono bs (λ c l. l.1) sorted.0)
      ∙ get-set_at b.1 (suc rank) ranks small.0 in
    let count_zero : rank ≡ rank + ahead b (b ∷ bs) = ground (arith, before_irrefl b) in
    subst
      (λ c. get_elem? (assign_ranks rank (b ∷ bs) ranks) c.1 ≡ some (suc (rank + ahead c (b ∷ bs))))
      (sym e) (here ∙ ap (λ n. some (suc n)) count_zero)
assign-Sorted rank a (b ∷ bs) ranks sorted (inr m) small =
    let ih =
      assign-Sorted (suc rank) a bs (set_at b.1 (suc rank) ranks) sorted.1 m
        (rw (length-set_at b.1 (suc rank) ranks) small.1) in
    let after = All-In (Leads b) a bs sorted.0 m in
    let one_more : suc rank + ahead a bs ≡ rank + ahead a (b ∷ bs) = ground (arith, after.0) in
    ih ∙ ap (λ n. some (suc n)) one_more

pub In-standings :
    (start i : ℕ) (scores : List ℤ) (score : ℤ)
    → get_elem? scores i ≡ some score
    → In (score, start + i) (standings start scores)
In-standings start i [] score h = cc
In-standings start zero (x ∷ xs) score h =
    let e : score ≡ x = cc in
    let f : start + 0 ≡ start = omega arith in inl (ap (λ y. (y, start + 0)) e ∙ ap (λ n. (x, n)) f)
In-standings start (suc i) (x ∷ xs) score h =
    let e : start + suc i ≡ suc start + i = omega arith in
    inr (
      subst (λ n. In (score, n) (standings (suc start) xs)) (sym e)
        (In-standings (suc start) i xs score h))

standings_bounded :
    (start : ℕ) (scores : List ℤ) → All (λ b. b.1 < start + length scores) (standings start scores)
standings_bounded start [] = tt
standings_bounded start (x ∷ xs) = (
  omega arith,
  All-mono (standings (suc start) xs) (λ b h. omega (arith, h)) (standings_bounded (suc start) xs),
)

length-zeros : (n : ℕ) → length (zeros n) ≡ n
unfolding zeros
length-zeros zero = refl
length-zeros (suc n) = ap suc (length-zeros n)

-- The rank of a seat after sorting.
pub get-ranks_of :
    (scores : List ℤ) (score : ℤ) (seat : ℕ)
    → get_elem? scores seat ≡ some score
    → get_elem? (ranks_of scores) seat ≡ some (suc (ahead (score, seat) (standings 0 scores)))
unfolding ranks_of
get-ranks_of scores score seat h =
    let all_of = standings 0 scores in
    assign-Sorted 0 (score, seat) (sort_standings all_of) (zeros (length scores))
      (Sorted-standings 0 scores)
      (In-sort_standings (score, seat) all_of
        (let e : 0 + seat ≡ seat = omega arith in rw e at (In-standings 0 seat scores score h)))
      (All-sort_standings (λ b. b.1 < length (zeros (length scores))) all_of
        (rw (length-zeros (length scores))
          (All-mono all_of (λ b k. omega (arith, k)) (standings_bounded 0 scores))))
    ∙ ap (λ n. some (suc n)) (omega (arith, ahead-sort_standings (score, seat) all_of))
