-- ===== src/Domain/TileOrder.antt =====
-- The canonical order of tiles: its key as one number, and the list of all tiles in that order.
use driichi.Domain.Mode.{GameMode, four_player_red_east}
use driichi.Domain.Tile.{Tile, is_red, is_valid_for, canonical_order, canonical_key, key_le}
use driichi.Prelude.{
  ℕ, zero, suc, ◌+◌, ◌*◌, ◌/◌, ◌%◌, ◌<◌, ◌≤◌, ◌≡◌, refl, ◌↔◌, inl, inr, Bool, true, false, not,
  ◌&&◌, ◌||◌, List, [], ◌∷◌, some, arith, ltb, leb, ◌==◌, if◌then◌else◌, In, get_elem?, all,
}

-- The position of a tile in the canonical order, up to gaps.
abbrev pub rank : Tile → ℕ
rank t = t / 4 * 8 + (if is_red t then 4 else 0) + t % 4

pub rank-injective : (a b : Tile) → rank a ≡ rank b → a ≡ b
rank-injective a b h = ground arith

pub key_le-rank : (a b : Tile) → key_le (canonical_key a) (canonical_key b) ≡ leb (rank a) (rank b)
unfolding key_le canonical_key
key_le-rank a b = ground arith

-- Strictly increasing ranks, as a test that runs.
ascending : ℕ → List Tile → Bool
ascending bound [] = true
ascending bound (t ∷ ts) = leb bound (rank t) && ascending (suc (rank t)) ts

ascending-le :
    (bound : ℕ) (ts : List Tile) (i : ℕ) (t : Tile)
    → ascending bound ts ≡ true
    → get_elem? ts i ≡ some t
    → bound ≤ rank t
unfolding ascending
ascending-le bound [] i t h e = cc
ascending-le bound (x ∷ ts) zero t h e = ground arith
ascending-le bound (x ∷ ts) (suc i) t h e = ground (arith, ascending-le (suc (rank x)) ts i t)

ascending-lt :
    (bound : ℕ) (ts : List Tile) (i j : ℕ) (s t : Tile)
    → ascending bound ts ≡ true
    → i < j
    → get_elem? ts i ≡ some s
    → get_elem? ts j ≡ some t
    → rank s < rank t
unfolding ascending
ascending-lt bound [] i j s t h lt e f = cc
ascending-lt bound (x ∷ ts) i zero s t h lt e f = absurd (omega arith)
ascending-lt bound (x ∷ ts) zero (suc j) s t h lt e f =
    ground (arith, ascending-le (suc (rank x)) ts j t)
ascending-lt bound (x ∷ ts) (suc i) (suc j) s t h lt e f =
    ground (arith, ascending-lt (suc (rank x)) ts i j s t)

canonical_order-ascending : (mode : GameMode) → ascending 0 (canonical_order mode) ≡ true
unfolding canonical_order ascending is_valid_for is_red
canonical_order-ascending four_player_red_east = refl
canonical_order-ascending mode = refl

-- In the canonical order, each tile has a strictly smaller key than every tile behind it, so no
-- tile stands in the order twice.
pub canonical_order-increasing :
    (mode : GameMode) (i j : ℕ) (s t : Tile)
    → i < j
    → get_elem? (canonical_order mode) i ≡ some s
    → get_elem? (canonical_order mode) j ≡ some t
    → (key_le (canonical_key s) (canonical_key t) ≡ true)
      × (key_le (canonical_key t) (canonical_key s) ≡ false)
canonical_order-increasing mode i j s t lt e f =
    let h = ascending-lt 0 (canonical_order mode) i j s t (canonical_order-ascending mode) lt e f in
    (rw key_le-rank (ground arith), rw key_le-rank (ground arith))

holds_below : ℕ → (ℕ → Bool) → Bool
holds_below zero p = true
holds_below (suc n) p = p n && holds_below n p

holds_below_sound : (n : ℕ) (p : ℕ → Bool) (x : ℕ) → holds_below n p ≡ true → x < n → p x ≡ true
unfolding holds_below
holds_below_sound zero p x h lt = absurd (omega arith)
holds_below_sound (suc n) p x h lt = ground (arith, holds_below_sound n p x)

contains : Tile → List Tile → Bool
contains t [] = false
contains t (x ∷ xs) = t == x || contains t xs

contains_iff : (t : Tile) (ts : List Tile) → (contains t ts ≡ true) ↔ In t ts
unfolding contains
contains_iff t [] = (λ h. cc, λ h. elim h [ ])
contains_iff t (x ∷ ts) =
    let (fro, back) = contains_iff t ts in
    (
      λ h. ground (arith, fro),
      λ h. elim h [ inl e ↦ ground arith | inr m ↦ ground (arith, back m) ],
    )

all_sound : (p : ℕ → Bool) (t : Tile) (ts : List Tile) → all p ts ≡ true → In t ts → p t ≡ true
all_sound p t [] h m = elim m [ ]
all_sound p t (x ∷ ts) h (inl e) = ground arith
all_sound p t (x ∷ ts) h (inr m) = ground (arith, all_sound p t ts)

is_listed : GameMode → Tile → Bool
is_listed mode t = not (is_valid_for t mode) || contains t (canonical_order mode)

order_complete : (mode : GameMode) → holds_below 136 (is_listed mode) ≡ true
unfolding holds_below is_listed contains canonical_order is_valid_for
order_complete four_player_red_east = refl
order_complete mode = refl

is_allowed : GameMode → Tile → Bool
is_allowed mode t = ltb t 136 && is_valid_for t mode

order_sound : (mode : GameMode) → all (is_allowed mode) (canonical_order mode) ≡ true
unfolding is_allowed canonical_order is_valid_for
order_sound four_player_red_east = refl
order_sound mode = refl

-- The canonical order of a mode lists exactly the ids below 136 whose tile the mode has.
pub In-canonical_order :
    (mode : GameMode) (t : Tile)
    → In t (canonical_order mode) ↔ ((t < 136) × (is_valid_for t mode ≡ true))
unfolding is_allowed is_listed
In-canonical_order mode t = (
  λ m.
      let h = all_sound (is_allowed mode) t (canonical_order mode) (order_sound mode) m in
      (ground arith, ground arith),
  λ (lt, valid).
      (contains_iff t (canonical_order mode)).0
        (let h = holds_below_sound 136 (is_listed mode) t (order_complete mode) lt in ground arith),
)
