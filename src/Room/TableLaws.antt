-- ===== src/Room/TableLaws.antt =====
-- Laws of the table of participants.
use driichi.Domain.Roster.{ParticipantId}
use driichi.Room.Types.{ParticipantState}
use driichi.Room.Table.{Participants, contains_key, insert, update, any_value, count_values}
use driichi.Prelude.{
  suc, ◌≤◌, ◌≡◌, refl, Bool, true, false, not, ◌&&◌, [], ◌∷◌, str_eq, eq_iff, length, if◌then◌else◌,
  arith,
}

-- No key stands twice.
unfoldable pub has_distinct_keys : Participants → Bool
has_distinct_keys [] = true
has_distinct_keys ((k, p) ∷ ps) = not (contains_key k ps) && has_distinct_keys ps

-- Each participant stands under its own identifier.
unfoldable pub is_keyed_by_id : Participants → Bool
is_keyed_by_id [] = true
is_keyed_by_id ((k, p) ∷ ps) = str_eq k p.participant.id && is_keyed_by_id ps

module _ (k : ParticipantId) (q : ParticipantState) where
  pub length-insert :
      (ps : Participants) → contains_key k ps ≡ false → length (insert k q ps) ≡ suc (length ps)
  unfolding contains_key insert
  length-insert [] h = refl
  length-insert ((j, p) ∷ ps) h = ground (arith, length-insert ps)

  pub contains_key-insert :
      (i : ParticipantId) (ps : Participants)
      → contains_key i (insert k q ps) ≡ (if str_eq k i then true else contains_key i ps)
  unfolding contains_key insert
  contains_key-insert i [] = refl
  contains_key-insert i ((j, p) ∷ ps) =
      ground (arith, eq_iff j k, eq_iff j i, eq_iff k i, contains_key-insert i ps)

  pub distinct-insert :
      (ps : Participants) → has_distinct_keys ps ≡ true → has_distinct_keys (insert k q ps) ≡ true
  unfolding has_distinct_keys insert contains_key
  distinct-insert [] h = refl
  distinct-insert ((j, p) ∷ ps) h =
      ground (arith, eq_iff j k, eq_iff k j, contains_key-insert j ps, distinct-insert ps)

  pub keyed-insert :
      (ps : Participants)
      → str_eq k q.participant.id ≡ true
      → is_keyed_by_id ps ≡ true
      → is_keyed_by_id (insert k q ps) ≡ true
  unfolding is_keyed_by_id insert
  keyed-insert [] e h = ground arith
  keyed-insert ((j, p) ∷ ps) e h = ground (arith, eq_iff j k, keyed-insert ps)

  pub count-insert :
      (f : ParticipantState → Bool) (ps : Participants)
      → contains_key k ps ≡ false
      → count_values f (insert k q ps)
        ≡ (if f q then suc (count_values f ps) else count_values f ps)
  unfolding contains_key insert count_values
  count-insert f [] h = refl
  count-insert f ((j, p) ∷ ps) h = ground (arith, count-insert f ps)

  pub any-insert :
      (f : ParticipantState → Bool) (ps : Participants)
      → f q ≡ false
      → any_value f ps ≡ false
      → any_value f (insert k q ps) ≡ false
  unfolding insert any_value
  any-insert f [] e h = rw e refl
  any-insert f ((j, p) ∷ ps) e h = ground (arith, any-insert f ps)

module _ (k : ParticipantId) (f : ParticipantState → ParticipantState) where
  pub length-update : (ps : Participants) → length (update k f ps) ≡ length ps
  unfolding update
  length-update [] = refl
  length-update ((j, p) ∷ ps) = ground (arith, length-update ps)

  pub contains_key-update :
      (i : ParticipantId) (ps : Participants) → contains_key i (update k f ps) ≡ contains_key i ps
  unfolding update contains_key
  contains_key-update i [] = refl
  contains_key-update i ((j, p) ∷ ps) = ground (arith, contains_key-update i ps)

  pub distinct-update :
      (ps : Participants) → has_distinct_keys (update k f ps) ≡ has_distinct_keys ps
  unfolding update has_distinct_keys
  distinct-update [] = refl
  distinct-update ((j, p) ∷ ps) = ground (arith, contains_key-update j ps, distinct-update ps)

  pub keyed-update :
      (ps : Participants)
      → ((p : ParticipantState) → (f p).participant ≡ p.participant)
      → is_keyed_by_id (update k f ps) ≡ is_keyed_by_id ps
  unfolding update is_keyed_by_id
  keyed-update [] same = refl
  keyed-update ((j, p) ∷ ps) same = ground (arith, same p, keyed-update ps same)

  pub any-update :
      (q : ParticipantState → Bool) (ps : Participants)
      → ((p : ParticipantState) → q (f p) ≡ q p)
      → any_value q (update k f ps) ≡ any_value q ps
  unfolding update any_value
  any-update q [] same = refl
  any-update q ((j, p) ∷ ps) same = ground (arith, same p, any-update q ps same)

  pub count-update-le :
      (q : ParticipantState → Bool) (ps : Participants)
      → count_values q (update k f ps) ≤ suc (count_values q ps)
  unfolding update count_values
  count-update-le q [] = omega arith
  count-update-le q ((j, p) ∷ ps) = ground (arith, count-update-le q ps)

  pub count-update_same :
      (q : ParticipantState → Bool) (ps : Participants)
      → ((p : ParticipantState) → q (f p) ≡ q p)
      → count_values q (update k f ps) ≡ count_values q ps
  unfolding update count_values
  count-update_same q [] same = refl
  count-update_same q ((j, p) ∷ ps) same = ground (arith, same p, count-update_same q ps same)

  pub count-update_fewer :
      (q : ParticipantState → Bool) (ps : Participants)
      → ((p : ParticipantState) → q (f p) ≡ false)
      → count_values q (update k f ps) ≤ count_values q ps
  unfolding update count_values
  count-update_fewer q [] fewer = omega arith
  count-update_fewer q ((j, p) ∷ ps) fewer = ground (arith, fewer p, count-update_fewer q ps fewer)
