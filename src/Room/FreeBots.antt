-- ===== src/Room/FreeBots.antt =====
-- Selecting the free bots of a room: each of them takes one seat.
use driichi.Domain.Roster.{ParticipantId, mjai}
use driichi.Room.Types.{ParticipantState}
use driichi.Room.Table.{Participants, contains_key, update, any_value, count_values}
use driichi.Room.TableLaws.{
  has_distinct_keys, is_keyed_by_id, length-update, distinct-update, keyed-update, any-update,
}
use driichi.Room.Lobby.{is_selected, is_kind}
use driichi.Room.Bots.{is_free_bot, free_bots, seated, select_bots}
use driichi.Prelude.{
  ℕ, zero, suc, ◌+◌, ◌≤◌, min, ◌≡◌, refl, ap, ◌∙◌, true, false, List, [], ◌∷◌, length, str_eq,
  eq_iff, str_eq_refl, any, Bool-cases, inl, inr, if◌then◌else◌, arith,
}

-- The first `n` free bots seated in one pass.
seat_first : ℕ → Participants → Participants
seat_first zero ps = ps
seat_first (suc n) [] = []
seat_first (suc n) ((k, p) ∷ ps) =
    if is_free_bot p then (k, seated p) ∷ seat_first n ps else (k, p) ∷ seat_first (suc n) ps

absent-free_bots :
    (j : ParticipantId) (n : ℕ) (ps : Participants)
    → contains_key j ps ≡ false
    → any (str_eq j) (free_bots n ps) ≡ false
unfolding free_bots contains_key
absent-free_bots j zero ps h = refl
absent-free_bots j (suc n) [] h = refl
absent-free_bots j (suc n) ((k, p) ∷ ps) h =
    ground (arith, eq_iff j k, eq_iff k j, absent-free_bots j n ps, absent-free_bots j (suc n) ps)

update_here :
    (k : ParticipantId) (p : ParticipantState) (ps : Participants)
    → update k seated ((k, p) ∷ ps) ≡ (k, seated p) ∷ ps
unfolding update
update_here k p ps = rw (str_eq_refl k) refl

select_bots_skip :
    (ks : List ParticipantId) (j : ParticipantId) (p : ParticipantState) (ps : Participants)
    → any (str_eq j) ks ≡ false
    → select_bots ks ((j, p) ∷ ps) ≡ (j, p) ∷ select_bots ks ps
unfolding select_bots update
select_bots_skip [] j p ps h = refl
select_bots_skip (k ∷ ks) j p ps h = ground (arith, select_bots_skip ks j p (update k seated ps))

select_bots_first :
    (n : ℕ) (ps : Participants)
    → has_distinct_keys ps ≡ true
    → select_bots (free_bots n ps) ps ≡ seat_first n ps
unfolding free_bots select_bots seat_first has_distinct_keys update
select_bots_first zero ps h = refl
select_bots_first (suc n) [] h = refl
select_bots_first (suc n) ((k, p) ∷ ps) h = elim (Bool-cases (is_free_bot p)) [
  | inl is_free ↦ rw is_free (
      ap (select_bots (free_bots n ps)) (update_here k p ps)
      ∙ select_bots_skip (free_bots n ps) k (seated p) ps (absent-free_bots k n ps (ground arith))
      ∙ ap (λ t. (k, seated p) ∷ t) (select_bots_first n ps (ground arith)))
  | inr is_used ↦ rw is_used (
      select_bots_skip (free_bots (suc n) ps) k p ps (absent-free_bots k (suc n) ps (ground arith))
      ∙ ap (λ t. (k, p) ∷ t) (select_bots_first (suc n) ps (ground arith)))
]

count-seat_first :
    (n : ℕ) (ps : Participants)
    → count_values is_selected (seat_first n ps)
      ≡ count_values is_selected ps + length (free_bots n ps)
unfolding free_bots seat_first count_values
count-seat_first zero ps = omega arith
count-seat_first (suc n) [] = refl
count-seat_first (suc n) ((k, p) ∷ ps) =
    ground (arith, count-seat_first n ps, count-seat_first (suc n) ps)

pub length-free_bots : (n : ℕ) (ps : Participants) → length (free_bots n ps) ≤ n
unfolding free_bots
length-free_bots zero ps = omega arith
length-free_bots (suc n) [] = omega arith
length-free_bots (suc n) ((k, p) ∷ ps) =
    ground (arith, length-free_bots n ps, length-free_bots (suc n) ps)

-- All free bots are taken, or as many as are asked for.
pub free_bots-count :
    (n : ℕ) (ps : Participants) → length (free_bots n ps) ≡ min n (count_values is_free_bot ps)
unfolding free_bots count_values
free_bots-count zero ps = omega arith
free_bots-count (suc n) [] = omega arith
free_bots-count (suc n) ((k, p) ∷ ps) =
    ground (arith, free_bots-count n ps, free_bots-count (suc n) ps)

pub count-select_bots :
    (n : ℕ) (ps : Participants)
    → has_distinct_keys ps ≡ true
    → count_values is_selected (select_bots (free_bots n ps) ps)
      ≡ count_values is_selected ps + length (free_bots n ps)
count-select_bots n ps h =
    ap (count_values is_selected) (select_bots_first n ps h) ∙ count-seat_first n ps

pub length-select_bots :
    (ks : List ParticipantId) (ps : Participants) → length (select_bots ks ps) ≡ length ps
unfolding select_bots
length-select_bots [] ps = refl
length-select_bots (k ∷ ks) ps = length-select_bots ks _ ∙ length-update k seated ps

pub distinct-select_bots :
    (ks : List ParticipantId) (ps : Participants)
    → has_distinct_keys (select_bots ks ps) ≡ has_distinct_keys ps
unfolding select_bots
distinct-select_bots [] ps = refl
distinct-select_bots (k ∷ ks) ps = distinct-select_bots ks _ ∙ distinct-update k seated ps

pub keyed-select_bots :
    (ks : List ParticipantId) (ps : Participants)
    → is_keyed_by_id (select_bots ks ps) ≡ is_keyed_by_id ps
unfolding select_bots
keyed-select_bots [] ps = refl
keyed-select_bots (k ∷ ks) ps = keyed-select_bots ks _ ∙ keyed-update k seated ps (λ p. refl)

pub any-select_bots :
    (ks : List ParticipantId) (ps : Participants)
    → any_value (is_kind mjai) (select_bots ks ps) ≡ any_value (is_kind mjai) ps
unfolding select_bots
any-select_bots [] ps = refl
any-select_bots (k ∷ ks) ps =
    any-select_bots ks _ ∙ any-update k seated (is_kind mjai) ps (λ p. refl)
