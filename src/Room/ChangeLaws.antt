-- ===== src/Room/ChangeLaws.antt =====
-- Laws of the changes to all participants, and of the removal of one.
use driichi.Domain.Roster.{ParticipantId}
use driichi.Room.Types.{ParticipantState}
use driichi.Room.Table.{Participants, contains_key, remove, change_all, any_value, count_values}
use driichi.Room.TableLaws.{has_distinct_keys, is_keyed_by_id}
use driichi.Prelude.{suc, ◌≤◌, ◌≡◌, ◌≢◌, refl, Bool, true, false, [], ◌∷◌, eq_iff, length, arith}

module _ (f : ParticipantState → ParticipantState) where
  pub length-change_all : (ps : Participants) → length (change_all f ps) ≡ length ps
  unfolding change_all
  length-change_all [] = refl
  length-change_all ((j, p) ∷ ps) = ground (arith, length-change_all ps)

  pub contains_key-change_all :
      (i : ParticipantId) (ps : Participants) → contains_key i (change_all f ps) ≡ contains_key i ps
  unfolding change_all contains_key
  contains_key-change_all i [] = refl
  contains_key-change_all i ((j, p) ∷ ps) = ground (arith, contains_key-change_all i ps)

  pub distinct-change_all :
      (ps : Participants) → has_distinct_keys (change_all f ps) ≡ has_distinct_keys ps
  unfolding change_all has_distinct_keys
  distinct-change_all [] = refl
  distinct-change_all ((j, p) ∷ ps) =
      ground (arith, contains_key-change_all j ps, distinct-change_all ps)

  pub keyed-change_all :
      (ps : Participants)
      → ((p : ParticipantState) → (f p).participant ≡ p.participant)
      → is_keyed_by_id (change_all f ps) ≡ is_keyed_by_id ps
  unfolding change_all is_keyed_by_id
  keyed-change_all [] same = refl
  keyed-change_all ((j, p) ∷ ps) same = ground (arith, same p, keyed-change_all ps same)

  pub any-change_all :
      (q : ParticipantState → Bool) (ps : Participants)
      → ((p : ParticipantState) → q (f p) ≡ q p)
      → any_value q (change_all f ps) ≡ any_value q ps
  unfolding change_all any_value
  any-change_all q [] same = refl
  any-change_all q ((j, p) ∷ ps) same = ground (arith, same p, any-change_all q ps same)

  pub count-change_all_same :
      (q : ParticipantState → Bool) (ps : Participants)
      → ((p : ParticipantState) → q (f p) ≡ q p)
      → count_values q (change_all f ps) ≡ count_values q ps
  unfolding change_all count_values
  count-change_all_same q [] same = refl
  count-change_all_same q ((j, p) ∷ ps) same =
      ground (arith, same p, count-change_all_same q ps same)

  pub count-change_all_none :
      (q : ParticipantState → Bool) (ps : Participants)
      → ((p : ParticipantState) → q (f p) ≡ false)
      → count_values q (change_all f ps) ≡ 0
  unfolding change_all count_values
  count-change_all_none q [] gone = refl
  count-change_all_none q ((j, p) ∷ ps) gone =
      ground (arith, gone p, count-change_all_none q ps gone)

module _ (k : ParticipantId) where
  pub length-remove_le : (ps : Participants) → length (remove k ps) ≤ length ps
  unfolding remove
  length-remove_le [] = omega arith
  length-remove_le ((j, p) ∷ ps) = ground (arith, length-remove_le ps)

  pub length-remove :
      (ps : Participants) → contains_key k ps ≡ true → suc (length (remove k ps)) ≡ length ps
  unfolding remove contains_key
  length-remove [] h = cc
  length-remove ((j, p) ∷ ps) h = ground (arith, length-remove ps)

  pub contains_key-remove_other :
      (i : ParticipantId) (ps : Participants)
      → i ≢ k
      → contains_key i (remove k ps) ≡ contains_key i ps
  unfolding remove contains_key
  contains_key-remove_other i [] other = refl
  contains_key-remove_other i ((j, p) ∷ ps) other =
      ground (arith, eq_iff j k, eq_iff j i, contains_key-remove_other i ps other)

  contains_key-remove_missing :
      (i : ParticipantId) (ps : Participants)
      → contains_key i ps ≡ false
      → contains_key i (remove k ps) ≡ false
  unfolding remove contains_key
  contains_key-remove_missing i [] h = refl
  contains_key-remove_missing i ((j, p) ∷ ps) h = ground (arith, contains_key-remove_missing i ps)

  pub distinct-remove :
      (ps : Participants) → has_distinct_keys ps ≡ true → has_distinct_keys (remove k ps) ≡ true
  unfolding remove has_distinct_keys
  distinct-remove [] h = refl
  distinct-remove ((j, p) ∷ ps) h =
      ground (arith, contains_key-remove_missing j ps, distinct-remove ps)

  pub keyed-remove :
      (ps : Participants) → is_keyed_by_id ps ≡ true → is_keyed_by_id (remove k ps) ≡ true
  unfolding remove is_keyed_by_id
  keyed-remove [] h = refl
  keyed-remove ((j, p) ∷ ps) h = ground (arith, keyed-remove ps)

  pub any-remove :
      (q : ParticipantState → Bool) (ps : Participants)
      → any_value q ps ≡ false
      → any_value q (remove k ps) ≡ false
  unfolding remove any_value
  any-remove q [] h = refl
  any-remove q ((j, p) ∷ ps) h = ground (arith, any-remove q ps)

  pub count-remove_le :
      (q : ParticipantState → Bool) (ps : Participants)
      → count_values q (remove k ps) ≤ count_values q ps
  unfolding remove count_values
  count-remove_le q [] = omega arith
  count-remove_le q ((j, p) ∷ ps) = ground (arith, count-remove_le q ps)
