-- ===== src/Room/Table.antt =====
-- The room's `HashMap` of participants: a list of keys and values, whose order stands for the map's
-- unspecified order of iteration.
use driichi.Domain.Roster.{ParticipantId}
use driichi.Room.Types.{ParticipantState}
use driichi.Prelude.{
  ℕ, suc, Bool, true, false, Option, none, some, List, [], ◌∷◌, str_eq, if◌then◌else◌,
}

abbrev pub Participants : Type 0
Participants = List (ParticipantId × ParticipantState)

unfoldable pub get : ParticipantId → Participants → Option ParticipantState
get k [] = none
get k ((j, p) ∷ ps) = if str_eq j k then some p else get k ps

unfoldable pub contains_key : ParticipantId → Participants → Bool
contains_key k [] = false
contains_key k ((j, p) ∷ ps) = if str_eq j k then true else contains_key k ps

-- `insert` replaces the value of a key that is there.
unfoldable pub insert : ParticipantId → ParticipantState → Participants → Participants
insert k q [] = (k, q) ∷ []
insert k q ((j, p) ∷ ps) = if str_eq j k then (j, q) ∷ ps else (j, p) ∷ insert k q ps

unfoldable pub remove : ParticipantId → Participants → Participants
remove k [] = []
remove k ((j, p) ∷ ps) = if str_eq j k then ps else (j, p) ∷ remove k ps

-- A change through `get_mut`.
unfoldable pub update :
    ParticipantId → (ParticipantState → ParticipantState) → Participants → Participants
update k f [] = []
update k f ((j, p) ∷ ps) = if str_eq j k then (j, f p) ∷ ps else (j, p) ∷ update k f ps

-- A change through `values_mut`.
unfoldable pub change_all : (ParticipantState → ParticipantState) → Participants → Participants
change_all f [] = []
change_all f ((j, p) ∷ ps) = (j, f p) ∷ change_all f ps

-- Tests on `values`, and how many pass.
unfoldable pub any_value : (ParticipantState → Bool) → Participants → Bool
any_value q [] = false
any_value q ((j, p) ∷ ps) = if q p then true else any_value q ps

unfoldable pub all_values : (ParticipantState → Bool) → Participants → Bool
all_values q [] = true
all_values q ((j, p) ∷ ps) = if q p then all_values q ps else false

unfoldable pub count_values : (ParticipantState → Bool) → Participants → ℕ
count_values q [] = 0
count_values q ((j, p) ∷ ps) = if q p then suc (count_values q ps) else count_values q ps
