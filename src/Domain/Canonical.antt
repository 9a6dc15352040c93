-- ===== src/Domain/Canonical.antt =====
-- Canonical actions: two actions have one canonical form exactly if they differ in the order of
-- the tiles that they consume.
use mathlib.Core.List.{Perm, Permᴰ}
use mathlib.Core.List.Perm
use mathlib.Core.Logic.{∥∥₁_elim}
use driichi.Domain.Tile.{Tile, canonical_key, key_le}
use driichi.Domain.TileOrder.{rank, rank-injective, key_le-rank}
use driichi.Domain.Action.{
  GameAction, chi, pon, daiminkan, ankan, kakan, insert_by_key, sort_by_key, canonicalize,
}
use driichi.Prelude.{
  ◌≡◌, refl, sym, ap, ◌∙◌, ◌↔◌, List, [], ◌∷◌, arith, leb, if◌then◌else◌, Bool-cases, inl, inr,
}

-- The tiles that an action consumes, and the action with others in their place.
abbrev pub consumed : GameAction → List Tile
consumed (chi _ _ ts) = ts
consumed (pon _ _ ts) = ts
consumed (daiminkan _ _ ts) = ts
consumed (ankan ts) = ts
consumed (kakan _ ts) = ts
consumed _ = []

abbrev pub with_consumed : GameAction → List Tile → GameAction
with_consumed (chi target called _) ts = chi target called ts
with_consumed (pon target called _) ts = pon target called ts
with_consumed (daiminkan target called _) ts = daiminkan target called ts
with_consumed (ankan _) ts = ankan ts
with_consumed (kakan called _) ts = kakan called ts
with_consumed other ts = other

-- The insertion as it goes by ranks.
insert_rank :
    (t x : Tile) (xs : List Tile)
    → insert_by_key t (x ∷ xs)
      ≡ (if leb (rank t) (rank x) then t ∷ x ∷ xs else x ∷ insert_by_key t xs)
unfolding insert_by_key
insert_rank t x xs = rw (key_le-rank t x) refl

insert_perm : (t : Tile) (xs : List Tile) → Perm (insert_by_key t xs) (t ∷ xs)
unfolding insert_by_key
insert_perm t [] = Perm.rfl
insert_perm t (x ∷ xs) = elim (Bool-cases (key_le (canonical_key t) (canonical_key x))) [
  | inl first ↦ rw first Perm.rfl
  | inr later ↦ rw later (Perm.trans (Perm.cons x (insert_perm t xs)) (Perm.swap t x xs))
]

sort_perm : (xs : List Tile) → Perm (sort_by_key xs) xs
unfolding sort_by_key
sort_perm [] = Perm.nil
sort_perm (x ∷ xs) = Perm.trans (insert_perm x (sort_by_key xs)) (Perm.cons x (sort_perm xs))

insert_comm :
    (s t : Tile) (xs : List Tile)
    → insert_by_key s (insert_by_key t xs) ≡ insert_by_key t (insert_by_key s xs)
unfolding insert_by_key
insert_comm s t [] = ground (arith, key_le-rank s t, key_le-rank t s, rank-injective s t)
insert_comm s t (x ∷ xs) = ground (
  arith,
  key_le-rank s t,
  key_le-rank t s,
  key_le-rank s x,
  key_le-rank t x,
  rank-injective s t,
  insert_comm s t xs,
)

sort_of_perm : {xs ys : List Tile} → Permᴰ xs ys → sort_by_key xs ≡ sort_by_key ys
unfolding sort_by_key
sort_of_perm Permᴰ.nil = refl
sort_of_perm (Permᴰ.cons {a} {b} {l₁} {l₂} e d) = cc (sort_of_perm d)
sort_of_perm (Permᴰ.swap {a} {b} {l} e f) = cc (insert_comm a b (sort_by_key l))
sort_of_perm (Permᴰ.trans d e) = sort_of_perm d ∙ sort_of_perm e

List-set : IsSet (List Tile)
List-set = hlevel

sort-perm : {xs ys : List Tile} → Perm xs ys → sort_by_key xs ≡ sort_by_key ys
sort-perm p = ∥∥₁_elim p (List-set _ _) sort_of_perm

canonicalize_form :
    (a : GameAction)
    → canonicalize a ≡ with_consumed (with_consumed a []) (sort_by_key (consumed a))
unfolding canonicalize sort_by_key
canonicalize_form (chi _ _ _) = refl
canonicalize_form _ = refl

consumed-canonicalize : (a : GameAction) → consumed (canonicalize a) ≡ sort_by_key (consumed a)
unfolding canonicalize sort_by_key
consumed-canonicalize (chi _ _ _) = refl
consumed-canonicalize _ = refl

bare-canonicalize : (a : GameAction) → with_consumed (canonicalize a) [] ≡ with_consumed a []
unfolding canonicalize
bare-canonicalize (chi _ _ _) = refl
bare-canonicalize _ = refl

-- Two actions have the same canonical form exactly if they agree in all but the order of the
-- tiles that they consume.
pub canonicalize-eq_iff :
    (a b : GameAction)
    → (canonicalize a ≡ canonicalize b)
      ↔ ((with_consumed a [] ≡ with_consumed b []) × Perm (consumed a) (consumed b))
canonicalize-eq_iff a b = (
  λ e. (
    sym (bare-canonicalize a) ∙ ap (λ c. with_consumed c []) e ∙ bare-canonicalize b,
    let same : sort_by_key (consumed a) ≡ sort_by_key (consumed b) =
          sym (consumed-canonicalize a) ∙ ap consumed e ∙ consumed-canonicalize b in
        Perm.trans (Perm.symm (sort_perm (consumed a))) (rw same (sort_perm (consumed b))),
  ),
  λ (e, p). cc (canonicalize_form a, canonicalize_form b, sort-perm p),
)
