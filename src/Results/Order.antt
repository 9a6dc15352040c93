-- ===== src/Results/Order.antt =====
-- The order of the final standing: by score, the earlier seat first among equals. It is strict and
-- total, so that counting who stands before a seat gives each seat its own rank.
use driichi.Results.Final.{stands_before, counted_rank}
use driichi.Domain.Mode.{range}
use driichi.Prelude.{
  ℕ, suc, ◌≤◌, ◌<◌, ◌≡◌, ◌≢◌, refl, ap, inl, inr, Bool, true, false, ◌&&◌, ◌||◌, some, List, [],
  ◌∷◌, ◌++◌, ltb, ◌==◌, In, count, count-le, length, get_elem?, Bool-cases, arith,
}
use driichi.Prelude.Int.{ℤ, eqb_ℤ, ltb_ℤ}

-- A seat with its score.
abbrev pub Standing : Type 0
Standing = ℤ × ℕ

unfoldable pub before : Standing → Standing → Bool
before (score, seat) (other_score, other) =
    ltb_ℤ other_score score || (eqb_ℤ score other_score && ltb seat other)

pub before_irrefl : (a : Standing) → before a a ≡ false
unfolding before
before_irrefl (s, i) = ground arith

pub before_trans : (a b c : Standing) → before a b ≡ true → before b c ≡ true → before a c ≡ true
unfolding before
before_trans (s, i) (t, j) (u, k) h g = ground arith

pub before_total : (a b : Standing) → a.1 ≢ b.1 → before a b ≡ false → before b a ≡ true
unfolding before
before_total (s, i) (t, j) other h = ground arith

-- The seats from a start on, with their scores.
abbrev pub standings : ℕ → List ℤ → List Standing
standings start [] = []
standings start (score ∷ scores) = (score, start) ∷ standings (suc start) scores

-- How many stand before one.
abbrev pub ahead : Standing → List Standing → ℕ
ahead a as' = count (λ b. before b a) as'

pub ahead-before :
    (a b : Standing) (as' : List Standing) → before a b ≡ true → ahead a as' ≤ ahead b as'
ahead-before a b [] h = omega arith
ahead-before a b (c ∷ as') h = ground (arith, before_trans c a b, ahead-before a b as' h)

pub ahead-before_strict :
    (a b : Standing) (as' : List Standing)
    → before a b ≡ true
    → In a as'
    → ahead a as' < ahead b as'
ahead-before_strict a b [] h m = elim m [ ]
ahead-before_strict a b (c ∷ as') h (inl e) =
    ground (arith, before_irrefl a, ahead-before a b as' h)
ahead-before_strict a b (c ∷ as') h (inr m) =
    ground (arith, before_trans c a b, ahead-before_strict a b as' h m)

pub ahead-lt : (a : Standing) (as' : List Standing) → In a as' → ahead a as' < length as'
ahead-lt a [] m = elim m [ ]
ahead-lt a (c ∷ as') (inl e) = ground (arith, before_irrefl a, count-le (λ b. before b a) as')
ahead-lt a (c ∷ as') (inr m) = ground (arith, ahead-lt a as' m)

-- Two seats of the list with as many before them are the same seat.
pub ahead-injective :
    (a b : Standing) (as' : List Standing)
    → In a as'
    → In b as'
    → ahead a as' ≡ ahead b as'
    → a.1 ≡ b.1
ahead-injective a b as' m n e = elim (Bool-cases (a.1 == b.1)) [
  | inl same ↦ ground arith
  | inr other ↦ elim (Bool-cases (before a b)) [
    | inl h ↦ absurd (omega (arith, ahead-before_strict a b as' h m))
    | inr h ↦
        absurd (omega (arith, ahead-before_strict b a as' (before_total a b (ground arith) h) n))
  ]
]

get_elem_here : (pre rest : List ℤ) (x : ℤ) → get_elem? (pre ++ x ∷ rest) (length pre) ≡ some x
get_elem_here [] rest x = refl
get_elem_here (y ∷ pre) rest x = get_elem_here pre rest x

snoc_append : (pre rest : List ℤ) (x : ℤ) → (pre ++ x ∷ []) ++ rest ≡ pre ++ x ∷ rest
snoc_append [] rest x = refl
snoc_append (y ∷ pre) rest x = ap (λ l. y ∷ l) (snoc_append pre rest x)

length_snoc : (pre : List ℤ) (x : ℤ) → length (pre ++ x ∷ []) ≡ suc (length pre)
length_snoc [] x = refl
length_snoc (y ∷ pre) x = ap suc (length_snoc pre x)

stands_here :
    (pre rest : List ℤ) (x score : ℤ) (seat : ℕ)
    → stands_before (pre ++ x ∷ rest) score seat (length pre) ≡ before (x, length pre) (score, seat)
unfolding stands_before before
stands_here pre rest x score seat = rw (stands_before, get_elem_here pre rest x) refl

count_from :
    (pre rest : List ℤ) (score : ℤ) (seat : ℕ)
    → count (stands_before (pre ++ rest) score seat) (range (length pre) (length rest))
      ≡ ahead (score, seat) (standings (length pre) rest)
count_from pre [] score seat = refl
count_from pre (x ∷ rest) score seat =
    let head = stands_here pre rest x score seat in
    let ih =
      rw (snoc_append pre rest x, length_snoc pre x) at
        (count_from (pre ++ x ∷ []) rest score seat) in
    rw (head, ih) refl

pub counted_rank-ahead :
    (scores : List ℤ) (score : ℤ) (seat : ℕ)
    → counted_rank (length scores) scores score seat
      ≡ suc (ahead (score, seat) (standings 0 scores))
unfolding counted_rank
counted_rank-ahead scores score seat = omega (arith, count_from [] scores score seat)
