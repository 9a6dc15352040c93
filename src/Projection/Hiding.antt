-- ===== src/Projection/Hiding.antt =====
-- What an audience sees does not depend on what is hidden from it.
use driichi.Domain.Mode.{Seat}
use driichi.Domain.Tile.{Tile}
use driichi.Decision.Clock.{Instant}
use driichi.Decision.Types.{Decision, DecisionSeat, DecisionAction, entry}
use driichi.Projection.Table.{MeldState, TablePlayerState, TableState}
use driichi.Projection.Views.{
  Audience, player, public, benchmark_admin, replay_admin, HandVisibility, own, nothing, everything,
  reveals, visible_meld, visible_player, view_of, decided, player_view, public_view,
  benchmark_admin_view, replay_admin_view, player_decision, player_entry, public_decision,
  replay_decision, project_table_state,
}
use driichi.Prelude.{
  ◌≢◌, arith, ◌≡◌, refl, ap, sym, ◌∙◌, ◌⊎◌, inl, inr, false, Option, none, some, List, [], ◌∷◌, map,
  length, if◌then◌else◌, Option-cases,
}

-- Two lists agree place by place.
abbrev pub Pairwise : {A : Type 0} → (A → A → Type 0) → List A → List A → Type 0
Pairwise R [] [] = Unit
Pairwise R [] (y ∷ ys) = ⊥
Pairwise R (x ∷ xs) [] = ⊥
Pairwise R (x ∷ xs) (y ∷ ys) = R x y × Pairwise R xs ys

map_same :
    {A B : Type 0} (R : A → A → Type 0) (f : A → B) (xs ys : List A)
    → ((x y : A) → R x y → f x ≡ f y)
    → Pairwise R xs ys
    → map f xs ≡ map f ys
map_same R f [] [] same h = refl
map_same R f [] (y ∷ ys) same h = elim h [ ]
map_same R f (x ∷ xs) [] same h = elim h [ ]
map_same R f (x ∷ xs) (y ∷ ys) same h =
    let here = same x y h.0 in let rest = map_same R f xs ys same h.1 in cc

-- The seats whose hand and closed melds an audience must not see: to a player all but its own, to
-- the public every one, to the admins none.
abbrev pub Hidden : Audience → Seat → Type 0
Hidden (player viewer) seat = viewer ≢ seat
Hidden public seat = Unit
Hidden benchmark_admin seat = ⊥
Hidden replay_admin seat = ⊥

-- Melds of a seat that look the same: equal ones, and any two closed ones of a hidden seat.
abbrev pub SameMeld : Audience → Seat → MeldState → MeldState → Type 0
SameMeld audience seat m n =
    (m ≡ n) ⊎ (Hidden audience seat × (m.opened ≡ false) × (n.opened ≡ false))

-- Players that look the same: all is equal but the tiles of a hidden hand, of which only the number
-- is, and the closed melds of a hidden seat.
pub record SamePlayer (audience : Audience) (p q : TablePlayerState) : Type 0 where
  pub seat : p.seat ≡ q.seat
  pub participant : p.participant ≡ q.participant
  pub score : p.score ≡ q.score
  pub hand : (p.hand ≡ q.hand) ⊎ Hidden audience p.seat
  pub hand_size : length p.hand ≡ length q.hand
  pub discards : p.discards ≡ q.discards
  pub melds : Pairwise (SameMeld audience p.seat) p.melds q.melds
  pub riichi : p.riichi ≡ q.riichi
  pub riichi_discard_index : p.riichi_discard_index ≡ q.riichi_discard_index

-- Decisions that look the same: to a player in the player's own entry, to the public in the common
-- timing, and only equal ones to the replay's admin.
abbrev pub SameDecision : Audience → Decision → Decision → Type 0
SameDecision (player viewer) d e =
    (d.id ≡ e.id) × (d.kind ≡ e.kind) × (entry d viewer ≡ entry e viewer)
SameDecision replay_admin d e = d ≡ e
SameDecision _ d e =
    (d.id ≡ e.id)
    × (d.kind ≡ e.kind)
    × (d.duration ≡ e.duration)
    × (d.deadline ≡ e.deadline)
    × (d.watchdog ≡ e.watchdog)

abbrev pub SameDecided : Audience → Option Decision → Option Decision → Type 0
SameDecided audience none none = Unit
SameDecided audience (some d) (some e) = SameDecision audience d e
SameDecided audience _ _ = ⊥

abbrev visibility_of : Audience → HandVisibility
visibility_of (player viewer) = own viewer
visibility_of public = nothing
visibility_of benchmark_admin = everything
visibility_of replay_admin = everything

-- Tables that look the same to an audience.
pub record SameFor (audience : Audience) (s t : TableState) : Type 0 where
  pub mode : s.mode ≡ t.mode
  pub players : Pairwise (SamePlayer audience) s.players t.players
  pub dora_indicators : s.dora_indicators ≡ t.dora_indicators
  pub round : s.round ≡ t.round
  pub kyoku : s.kyoku ≡ t.kyoku
  pub dealer : s.dealer ≡ t.dealer
  pub honba : s.honba ≡ t.honba
  pub kyotaku : s.kyotaku ≡ t.kyotaku
  pub remaining_wall : s.remaining_wall ≡ t.remaining_wall
  pub decision : SameDecided audience s.decision t.decision

-- What is hidden from an audience is not revealed to it.
Hidden-reveals :
    (audience : Audience) (seat : Seat)
    → Hidden audience seat
    → reveals (visibility_of audience) seat ≡ false
unfolding reveals
Hidden-reveals (player viewer) seat h = ground arith
Hidden-reveals public seat h = refl
Hidden-reveals benchmark_admin seat h = elim h [ ]
Hidden-reveals replay_admin seat h = elim h [ ]

visible_meld_same :
    (audience : Audience) (seat : Seat) (m n : MeldState)
    → SameMeld audience seat m n
    → visible_meld (reveals (visibility_of audience) seat) m
      ≡ visible_meld (reveals (visibility_of audience) seat) n
unfolding visible_meld
visible_meld_same audience seat m n (inl e) =
    ap (visible_meld (reveals (visibility_of audience) seat)) e
visible_meld_same audience seat m n (inr (hidden, e, f)) =
    rw (Hidden-reveals audience seat hidden, e, f) refl

shown_hand :
    (audience : Audience) (seat : Seat) (xs ys : List Tile)
    → (xs ≡ ys) ⊎ Hidden audience seat
    → (if reveals (visibility_of audience) seat then some xs else none)
      ≡ (if reveals (visibility_of audience) seat then some ys else none)
shown_hand audience seat xs ys (inl e) = rw e refl
shown_hand audience seat xs ys (inr hidden) = rw (Hidden-reveals audience seat hidden) refl

visible_player_same :
    (audience : Audience) (p q : TablePlayerState)
    → SamePlayer audience p q
    → visible_player (visibility_of audience) p ≡ visible_player (visibility_of audience) q
unfolding visible_player
visible_player_same audience p q h =
    let melds =
      map_same (SameMeld audience p.seat) (visible_meld (reveals (visibility_of audience) p.seat))
        p.melds q.melds (visible_meld_same audience p.seat) h.melds in
    let hands = shown_hand audience p.seat p.hand q.hand h.hand in cc

view_same :
    {D : Type 0} (audience : Audience) (s t : TableState) (d e : Option D)
    → SameFor audience s t
    → d ≡ e
    → view_of s (visibility_of audience) d ≡ view_of t (visibility_of audience) e
unfolding view_of
view_same audience s t d e h same =
    let players =
      map_same (SamePlayer audience) (visible_player (visibility_of audience)) s.players t.players
        (visible_player_same audience) h.players in
    cc

decided_same :
    {D : Type 0} (audience : Audience) (show : Decision → Option D) (d e : Option Decision)
    → ((a b : Decision) → SameDecision audience a b → show a ≡ show b)
    → SameDecided audience d e
    → decided show d ≡ decided show e
decided_same audience show none none same h = refl
decided_same audience show none (some e) same h = elim h [ ]
decided_same audience show (some d) none same h = elim h [ ]
decided_same audience show (some d) (some e) same h = same d e h

player_entry_same :
    (now : Instant) (d e : Decision)
    → d.id ≡ e.id
    → d.kind ≡ e.kind
    → (x : DecisionSeat) (actions : List DecisionAction) → x.actions ≡ actions
    → player_entry d now x ≡ player_entry e now x
unfolding player_entry
player_entry_same now d e same_id same_kind x [] listed = rw (player_entry, listed) refl
player_entry_same now d e same_id same_kind x (a ∷ as') listed =
    rw (player_entry, listed, same_id, same_kind) refl

decision_without :
    (viewer : Seat) (now : Instant) (d : Decision)
    → entry d viewer ≡ none
    → player_decision d viewer now ≡ none
unfolding player_decision
decision_without viewer now d h = rw (player_decision, h) refl

decision_with :
    (viewer : Seat) (now : Instant) (d : Decision) (x : DecisionSeat)
    → entry d viewer ≡ some x
    → player_decision d viewer now ≡ player_entry d now x
unfolding player_decision
decision_with viewer now d x h = rw (player_decision, h) refl

player_decision_same :
    (viewer : Seat) (now : Instant) (d e : Decision)
    → SameDecision (player viewer) d e
    → player_decision d viewer now ≡ player_decision e viewer now
player_decision_same viewer now d e (same_id, same_kind, same_entry) =
    elim (Option-cases (entry e viewer)) [
      | inl x ↦
          decision_without viewer now d (same_entry ∙ x) ∙ sym (decision_without viewer now e x)
      | inr (x, y) ↦
          decision_with viewer now d x (same_entry ∙ y)
          ∙ player_entry_same now d e same_id same_kind x x.actions refl
          ∙ sym (decision_with viewer now e x y)
    ]

public_decision_same :
    (now : Instant) (d e : Decision)
    → SameDecision public d e
    → some (public_decision now d) ≡ some (public_decision now e)
unfolding public_decision
public_decision_same now d e (a, b, c, f, g) = rw (a, b, c, f, g) refl

-- Two tables that look the same to an audience have the same projection for it. Hidden are, from a
-- player, the hands and closed melds of all seats but its own, from the public those of every seat,
-- and from the admins none: of a hidden hand the projection depends only on its size, and of a hidden
-- closed meld only on that it is closed. Of a decision it depends, for a player, on its id, its kind
-- and the player's own entry; for the public and the benchmark's admin, on its id, its kind and its
-- common timing.
pub project_table_state-hides :
    (audience : Audience) (s t : TableState) (now : Instant)
    → SameFor audience s t
    → project_table_state s audience now ≡ project_table_state t audience now
unfolding project_table_state
project_table_state-hides (player viewer) s t now h = ap (player_view viewer) (
    view_same (player viewer) s t _ _ h (
      decided_same (player viewer) (λ d. player_decision d viewer now) s.decision t.decision
        (player_decision_same viewer now) h.decision))
project_table_state-hides public s t now h = ap public_view (
    view_same public s t _ _ h (
      decided_same public (λ d. some (public_decision now d)) s.decision t.decision
        (public_decision_same now) h.decision))
project_table_state-hides benchmark_admin s t now h = ap benchmark_admin_view (
    view_same benchmark_admin s t _ _ h (
      decided_same benchmark_admin (λ d. some (public_decision now d)) s.decision t.decision
        (public_decision_same now) h.decision))
project_table_state-hides replay_admin s t now h = ap replay_admin_view (
    view_same replay_admin s t _ _ h (
      decided_same replay_admin (λ d. some (replay_decision now d)) s.decision t.decision
        (λ a b e. ap (λ d. some (replay_decision now d)) e) h.decision))
