-- ===== src/Decision/Fresh.antt =====
-- A decision as it is built.
use driichi.Domain.Mode.{Seat}
use driichi.Decision.Clock.{Instant}
use driichi.Decision.Types.{
  DecisionId, DecisionKind, DecisionAction, DecisionSeat, Decision, DecisionError, no_safe_default,
}
use driichi.Decision.Build.{
  SeatOption, build_entry, build_entries, recompute_timing, from_action_ids_with_timings,
  default_action, default_action_id, named_action,
}
use driichi.Decision.Default.{default_action-best, default_action-none, preference}
use driichi.Decision.Submit.{is_answered}
use driichi.Decision.Valid.{entry_valid, IsValid, recompute_entries}
use driichi.Prelude.{
  ◌≡◌, ◌≤◌, refl, inl, inr, Bool, true, false, Option, none, some, List, [], ◌∷◌, map, str_eq,
  eq_iff, any, all, ltb, if◌then◌else◌, In, All, Outcome, ok, err, bind-ok, arith, Option-cases,
}

any-In :
    (actions : List DecisionAction) (a : DecisionAction)
    → In a actions
    → any (λ b. str_eq b.id a.id) actions ≡ true
any-In [] a m = elim m [ ]
any-In (b ∷ bs) a (inl e) = ground (arith, eq_iff b.id a.id)
any-In (b ∷ bs) a (inr m) = ground (arith, any-In bs a m)

build_entry-valid :
    (opened_at : Instant) (o : SeatOption) (e : DecisionSeat)
    → build_entry opened_at o ≡ ok e
    → (entry_valid e ≡ true) × (is_answered e ≡ false)
unfolding build_entry default_action_id
build_entry-valid opened_at (seat, actions, duration, watchdog) e h =
    elim (Option-cases (default_action (map named_action actions))) [
      | inl n ↦ (ground arith, ground arith)
      | inr (a, f) ↦
          let listed = (default_action-best (map named_action actions) a f).0 in
          let found = any-In (map named_action actions) a listed in (ground arith, ground arith)
    ]

build_entries-valid :
    (opened_at : Instant) (os : List SeatOption) (es : List DecisionSeat)
    → build_entries opened_at os ≡ ok es
    → (all entry_valid es ≡ true) × (any is_answered es ≡ false)
unfolding build_entries
build_entries-valid opened_at [] es h = (ground arith, ground arith)
build_entries-valid opened_at (o ∷ os) es h =
    let (e, first, rest) = bind-ok (build_entry opened_at o) _ h in
    let (es', second, last) = bind-ok (build_entries opened_at os) _ rest in
    let here = build_entry-valid opened_at o e first in
    let ih = build_entries-valid opened_at os es' second in (ground arith, ground arith)

abbrev option_seat : SeatOption → Seat
option_seat (seat, _, _, _) = seat

build_entry_seat :
    (opened_at : Instant) (o : SeatOption) (e : DecisionSeat)
    → build_entry opened_at o ≡ ok e
    → e.seat ≡ option_seat o
unfolding build_entry
build_entry_seat opened_at (seat, actions, duration, watchdog) e h = ground arith

build_entries_seats :
    (opened_at : Instant) (os : List SeatOption) (es : List DecisionSeat)
    → build_entries opened_at os ≡ ok es
    → map (λ e. e.seat) es ≡ map option_seat os
unfolding build_entries
build_entries_seats opened_at [] es h = ground arith
build_entries_seats opened_at (o ∷ os) es h =
    let (e, first, rest) = bind-ok (build_entry opened_at o) _ h in
    let (es', second, last) = bind-ok (build_entries opened_at os) _ rest in
    let here = build_entry_seat opened_at o e first in
    let ih = build_entries_seats opened_at os es' second in ground arith

unanswered :
    (es : List DecisionSeat) (s : Seat) (ss : List Seat)
    → any is_answered es ≡ false
    → map (λ e. e.seat) es ≡ s ∷ ss
    → all is_answered es ≡ false
unanswered [] s ss n m = cc
unanswered (e ∷ es) s ss n m = ground arith

abbrev unbuilt : DecisionId → DecisionKind → Instant → List DecisionSeat → Decision
unbuilt id kind opened_at entries = record {
  id = id;
  kind = kind;
  entries = entries;
  opened_at = opened_at;
  duration = none;
  deadline = none;
  watchdog = false;
  is_closed = false;
}

recompute_id : (d : Decision) → (recompute_timing d).id ≡ d.id
unfolding recompute_timing
recompute_id d = ground arith

-- A decision that is built, over at least one seat, is valid and open, and has an entry for each
-- seat in the order that was given.
pub from_action_ids-IsValid :
    (id : DecisionId) (kind : DecisionKind) (o : SeatOption) (os : List SeatOption)
    (opened_at : Instant) (d : Decision)
    → from_action_ids_with_timings id kind (o ∷ os) opened_at ≡ ok d
    → IsValid d
      × (d.is_closed ≡ false)
      × (d.id ≡ id)
      × (map (λ e. e.seat) d.entries ≡ map option_seat (o ∷ os))
unfolding from_action_ids_with_timings
from_action_ids-IsValid id kind o os opened_at d h =
    let (es, built, last) = bind-ok (build_entries opened_at (o ∷ os)) _ h in
    let raw : Decision = unbuilt id kind opened_at es in
    let kept = recompute_entries raw in
    let valid = build_entries-valid opened_at (o ∷ os) es built in
    let seats = build_entries_seats opened_at (o ∷ os) es built in
    let open_yet = unanswered es (option_seat o) (map option_seat os) valid.1 seats in
    (
      record { offered = ground arith; complete = ground arith; pending = ground arith },
      ground arith,
      ground (arith, recompute_id raw),
      ground arith,
    )

-- The first seat whose actions are all unfit for a default.
abbrev is_safe : DecisionAction → Bool
is_safe a = ltb (preference a.action) 3

abbrev pub first_unsafe : List SeatOption → Option Seat
first_unsafe [] = none
first_unsafe ((seat, actions, _, _) ∷ os) =
    if any is_safe (map named_action actions) then first_unsafe os else some seat

abbrev pub Builds : Option Seat → Outcome DecisionError Decision → Type 0
Builds none result = (d : Decision) × (result ≡ ok d)
Builds (some seat) result = result ≡ err (no_safe_default seat)

any-false :
    (as' : List DecisionAction) → All (λ a. preference a.action ≡ 3) as' → any is_safe as' ≡ false
any-false [] h = refl
any-false (a ∷ as') h = ground (arith, any-false as' h.1)

any-true :
    (as' : List DecisionAction) (a : DecisionAction)
    → In a as'
    → preference a.action ≤ 2
    → any is_safe as' ≡ true
any-true [] a m h = elim m [ ]
any-true (b ∷ bs) a (inl e) h = ground arith
any-true (b ∷ bs) a (inr m) h = ground (arith, any-true bs a m h)

abbrev BuildsEntry : Bool → Seat → Outcome DecisionError DecisionSeat → Type 0
BuildsEntry true seat result = (e : DecisionSeat) × (result ≡ ok e)
BuildsEntry false seat result = result ≡ err (no_safe_default seat)

build_entry-Builds :
    (opened_at : Instant) (o : SeatOption)
    → BuildsEntry (any is_safe (map named_action o.1)) o.0 (build_entry opened_at o)
unfolding build_entry default_action_id
build_entry-Builds opened_at (seat, actions, duration, watchdog) =
    elim (Option-cases (default_action (map named_action actions))) [
      | inl n ↦
          rw (any-false (map named_action actions) ((default_action-none _).0 n)) (ground arith)
      | inr (a, f) ↦
          let best = default_action-best (map named_action actions) a f in
          rw (any-true (map named_action actions) a best.0 best.1, f) (_, refl)
    ]

abbrev BuildsEntries : Option Seat → Outcome DecisionError (List DecisionSeat) → Type 0
BuildsEntries none result = (es : List DecisionSeat) × (result ≡ ok es)
BuildsEntries (some seat) result = result ≡ err (no_safe_default seat)

module _ (opened_at : Instant) where
  build_first :
      (o : SeatOption) (os : List SeatOption) (first : Bool) (unsafe : Option Seat)
      → BuildsEntry first o.0 (build_entry opened_at o)
      → BuildsEntries unsafe (build_entries opened_at os)
      → BuildsEntries (if first then unsafe else some o.0) (build_entries opened_at (o ∷ os))
  unfolding build_entries
  build_first o os true none (e, h) (es, k) = rw (h, k) (e ∷ es, refl)
  build_first o os true (some s) (e, h) k = rw (h, k) refl
  build_first o os false unsafe h k = rw h refl

  build_entries-Builds :
      (os : List SeatOption) → BuildsEntries (first_unsafe os) (build_entries opened_at os)
  unfolding build_entries
  build_entries-Builds [] = ([], refl)
  build_entries-Builds ((seat, actions, duration, watchdog) ∷ os) =
      build_first (seat, actions, duration, watchdog) os _ (first_unsafe os)
        (build_entry-Builds opened_at (seat, actions, duration, watchdog)) (build_entries-Builds os)

from_entries :
    (id : DecisionId) (kind : DecisionKind) (os : List SeatOption) (opened_at : Instant)
    (unsafe : Option Seat)
    → BuildsEntries unsafe (build_entries opened_at os)
    → Builds unsafe (from_action_ids_with_timings id kind os opened_at)
unfolding from_action_ids_with_timings
from_entries id kind os opened_at none (es, h) = rw h (_, refl)
from_entries id kind os opened_at (some s) h = rw h refl

-- A decision is built unless some seat has no pass and no discard among its actions; then the error
-- names the first such seat.
pub from_action_ids-Builds :
    (id : DecisionId) (kind : DecisionKind) (os : List SeatOption) (opened_at : Instant)
    → Builds (first_unsafe os) (from_action_ids_with_timings id kind os opened_at)
from_action_ids-Builds id kind os opened_at =
    from_entries id kind os opened_at (first_unsafe os) (build_entries-Builds opened_at os)
