-- ===== src/Room/History.antt =====
-- The end of a match takes out the participants that were marked for it.
use driichi.Decision.Clock.{Instant}
use driichi.Domain.Roster.{MatchResult, ParticipantId}
use driichi.Room.Types.{ParticipantState, MatchId, playing}
use driichi.Room.Table.{Participants, contains_key, remove, any_value}
use driichi.Room.TableLaws.{has_distinct_keys}
use driichi.Room.Match.{keys_where, remove_all, finish_match, close_match}
use driichi.Room.State.{Parts, RoomState, bump_revision, refresh_empty_since}
use driichi.Room.Seating.{IsSeated}
use driichi.Room.LeavingLaws.{refresh_same, refresh_machine}
use driichi.Prelude.{
  ◌≡◌, refl, ap, ◌∙◌, Bool, true, false, some, List, [], ◌∷◌, is_some, str_eq, str_eq_refl, eq_iff,
  any, Bool-cases, inl, inr, if◌then◌else◌, arith,
}

module _ (q : ParticipantState → Bool) where
  -- What is left when the values that pass the test are gone.
  kept : Participants → Participants
  kept [] = []
  kept ((k, p) ∷ ps) = if q p then kept ps else (k, p) ∷ kept ps

  any-kept : (ps : Participants) → any_value q (kept ps) ≡ false
  unfolding kept any_value
  any-kept [] = refl
  any-kept ((k, p) ∷ ps) = ground (arith, any-kept ps)

  absent-keys_where :
      (j : ParticipantId) (ps : Participants)
      → contains_key j ps ≡ false
      → any (str_eq j) (keys_where q ps) ≡ false
  unfolding keys_where contains_key
  absent-keys_where j [] h = refl
  absent-keys_where j ((k, p) ∷ ps) h =
      ground (arith, eq_iff j k, eq_iff k j, absent-keys_where j ps)

remove_all_skip :
    (ks : List ParticipantId) (j : ParticipantId) (p : ParticipantState) (ps : Participants)
    → any (str_eq j) ks ≡ false
    → remove_all ks ((j, p) ∷ ps) ≡ (j, p) ∷ remove_all ks ps
unfolding remove_all remove
remove_all_skip [] j p ps h = refl
remove_all_skip (k ∷ ks) j p ps h = ground (arith, remove_all_skip ks j p (remove k ps))

remove_here :
    (k : ParticipantId) (p : ParticipantState) (ps : Participants) → remove k ((k, p) ∷ ps) ≡ ps
unfolding remove
remove_here k p ps = rw (str_eq_refl k) refl

remove_all-kept :
    (q : ParticipantState → Bool) (ps : Participants)
    → has_distinct_keys ps ≡ true
    → remove_all (keys_where q ps) ps ≡ kept q ps
unfolding keys_where remove_all kept has_distinct_keys
remove_all-kept q [] h = refl
remove_all-kept q ((k, p) ∷ ps) h = elim (Bool-cases (q p)) [
  | inl x ↦
      rw x (
        ap (remove_all (keys_where q ps)) (remove_here k p ps)
        ∙ remove_all-kept q ps (ground arith))
  | inr x ↦ rw x (
      remove_all_skip (keys_where q ps) k p ps (absent-keys_where q k ps (ground arith))
      ∙ ap (λ t. (k, p) ∷ t) (remove_all-kept q ps (ground arith)))
]

finish_ends :
    {P : Parts} (s : RoomState P) (match_id : MatchId) (result : MatchResult) (now : Instant)
    → s.phase ≡ playing match_id
    → finish_match s result now
      ≡ (bump_revision (refresh_empty_since (close_match s match_id result) now), some match_id)
unfolding finish_match
finish_ends s match_id result now running = ground arith

-- The end of a running match takes out every participant that was marked for it, and no match
-- machine is left.
pub finish_match-clears :
    {P : Parts} (s : RoomState P) (match_id : MatchId) (result : MatchResult) (now : Instant)
    → IsSeated s
    → s.phase ≡ playing match_id
    → ((finish_match s result now).1 ≡ some match_id)
      × (any_value (λ p. p.remove_after_match) (finish_match s result now).0.participants ≡ false)
      × (is_some (finish_match s result now).0.match_machine ≡ false)
unfolding bump_revision close_match
finish_match-clears s match_id result now sound running =
    let e = finish_ends s match_id result now running in
    let (_, same) = refresh_same (close_match s match_id result) now in
    let none_left = remove_all-kept (λ p. p.remove_after_match) s.participants sound.distinct in
    rw e (
      refl,
      rw (same, none_left) (any-kept (λ p. p.remove_after_match) s.participants),
      rw (refresh_machine (close_match s match_id result) now) refl,
    )
