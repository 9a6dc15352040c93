-- ===== src/Decision/Tests.antt =====
-- Tests of decisions, and the theorems at concrete decisions.
use driichi.Domain.Mode.{Seat}
use driichi.Domain.Action.{GameAction, pass, ron}
use driichi.Decision.Clock.{Duration}
use driichi.Decision.Types.{
  DecisionAction, DecisionSeat, Decision, response, accepted, foreign_action, already_consumed,
  find_entry, update_entry, is_expired_for, is_expired_at, submitted_for, expired, closed,
  DecisionResolution,
}
use driichi.Decision.Build.{
  SeatOption, build_entry, build_entries, default_action, default_action_id, is_pass, is_tsumogiri,
  is_discard, recompute_timing, same_timing, from_action_ids_with_timings, number_actions,
  number_options,
}
use driichi.Decision.Submit.{
  resolve_entry, resolve_entries, accepted_resolution, record_answer, answer_entry, submit_at,
}
use driichi.Decision.Resolve.{times_out, time_out, resolve_at}
use driichi.Decision.Default.{preference, default_action-best, default_action-none}
use driichi.Decision.Answers.{Refused}
use driichi.Decision.Recording.{Recorded, submit_cases}
use driichi.Decision.Valid.{IsValid}
use driichi.Decision.Fresh.{Builds, from_action_ids-IsValid, from_action_ids-Builds}
use driichi.Decision.Final.{Settles, Expires, Resolves, submit_at-Settles, resolve_at-Expires}
use driichi.Decision.Reach.{Reach, here, next, expire, Reach-keeps, Reach-IsValid, Reach-closed}
use driichi.Decision.Timeout.{defaulted, resolve_at-Resolves, resolve_at-early}
use driichi.Decision.Timing.{IsTimed, from_action_ids-IsTimed, Reach-IsTimed}
use driichi.Decision.Naming.{number_options-distinct}
use driichi.Prelude.{
  ℕ, ◌≡◌, ◌≤◌, ◌⊎◌, ◌↔◌, refl, Bool, Option, map, In, All, true, false, none, some, List, [], ◌∷◌,
  ok, err,
}
use driichi.Prelude.Decimal.{decimal}

-- Two seats answer a discard: one may win, both may pass.
abbrev options : List SeatOption
options =
    (1, ("a1", ron 0) ∷ ("a2", pass) ∷ [], some 10, false)
    ∷ (2, ("a3", pass) ∷ [], some 10, false)
    ∷ []

abbrev first_action : DecisionAction
first_action = record { id = "a1"; action = ron 0 }

abbrev second_action : DecisionAction
second_action = record { id = "a2"; action = pass }

abbrev first_entry : DecisionSeat
first_entry = record {
  seat = 1;
  actions = first_action ∷ second_action ∷ [];
  default_action_id = "a2";
  submitted_action_id = none;
  opened_at = 5;
  duration = some 10;
  deadline = some 15;
  watchdog = false;
  timed_out = false;
}

abbrev second_entry : DecisionSeat
second_entry = record {
  seat = 2;
  actions = record { id = "a3"; action = pass } ∷ [];
  default_action_id = "a3";
  submitted_action_id = none;
  opened_at = 5;
  duration = some 10;
  deadline = some 15;
  watchdog = false;
  timed_out = false;
}

abbrev built : Decision
built = record {
  id = "d1";
  kind = response;
  entries = first_entry ∷ second_entry ∷ [];
  opened_at = 5;
  duration = some 10;
  deadline = some 15;
  watchdog = false;
  is_closed = false;
}

-- All that a run of a decision computes with.
program : Unit {0}
unfolding from_action_ids_with_timings build_entries build_entry default_action_id default_action
    is_pass is_tsumogiri is_discard recompute_timing same_timing submit_at answer_entry
    record_answer accepted_resolution resolve_entries resolve_entry find_entry update_entry
    is_expired_for is_expired_at submitted_for resolve_at time_out times_out number_options
    number_actions decimal
program = tt

builds : from_action_ids_with_timings "d1" response options 5 ≡ ok built
unfolding program
builds = refl

late : (submit_at built 1 "a1" 15).1 ≡ err expired
unfolding program
late = refl

foreign : (submit_at built 1 "a3" 7).1 ≡ err (foreign_action 1 "a3")
unfolding program
foreign = refl

first_answer : (submit_at built 1 "a1" 7).1 ≡ ok (accepted false)
unfolding program
first_answer = refl

twice : (submit_at (submit_at built 1 "a1" 7).0 1 "a2" 8).1 ≡ err (already_consumed 1)
unfolding program
twice = refl

timed_out : (resolve_at (submit_at built 1 "a1" 7).0 16).0.is_closed ≡ true
unfolding program
timed_out = refl

built-IsValid : IsValid built
built-IsValid = (from_action_ids-IsValid "d1" response _ _ 5 built builds).0

from_action_ids-IsValid_example :
    IsValid built
    × (built.is_closed ≡ false)
    × (built.id ≡ "d1")
    × (map (λ e. e.seat) built.entries ≡ 1 ∷ 2 ∷ [])
from_action_ids-IsValid_example = from_action_ids-IsValid "d1" response _ _ 5 built builds

from_action_ids-Builds_example : Builds none (from_action_ids_with_timings "d1" response options 5)
unfolding program
from_action_ids-Builds_example = from_action_ids-Builds "d1" response options 5

from_action_ids-IsTimed_example : IsTimed built
from_action_ids-IsTimed_example = from_action_ids-IsTimed "d1" response _ 5 built builds

submit_cases_example : Refused built 1 "a1" 7 ⊎ Recorded built 1 "a1" 7 (submit_at built 1 "a1" 7)
submit_cases_example = submit_cases built 1 "a1" 7

submit_at-Settles_example : Settles (submit_at built 1 "a1" 7).0 (submit_at built 1 "a1" 7).1
submit_at-Settles_example = submit_at-Settles built 1 "a1" 7 built-IsValid

resolve_at-Expires_example : Expires built (resolve_at built 16).0 (resolve_at built 16).1
resolve_at-Expires_example = resolve_at-Expires built 16 built-IsValid

history : Reach (submit_at built 1 "a1" 7).0 (resolve_at (submit_at built 1 "a1" 7).0 16).0
history = next here (expire _ 16)

recorded : submitted_for (submit_at built 1 "a1" 7).0 1 ≡ some "a1"
unfolding program
recorded = refl

Reach-keeps_example : submitted_for (resolve_at (submit_at built 1 "a1" 7).0 16).0 1 ≡ some "a1"
Reach-keeps_example = Reach-keeps 1 "a1" history recorded

Reach-IsValid_example : IsValid (resolve_at built 16).0
Reach-IsValid_example = Reach-IsValid (next here (expire built 16)) built-IsValid

Reach-IsTimed_example : IsTimed (resolve_at built 16).0
Reach-IsTimed_example =
    Reach-IsTimed (next here (expire built 16))
      (from_action_ids-IsTimed "d1" response _ 5 built builds)

closed_at_16 : (resolve_at built 16).0.is_closed ≡ true
unfolding program
closed_at_16 = refl

Reach-closed_example :
    let d = (resolve_at built 16).0 in
    let d' = (resolve_at d 20).0 in
    (d'.is_closed ≡ true)
    × (submitted_for d' 2 ≡ submitted_for d 2)
    × (submit_at d' 1 "a1" 21 ≡ (d', err closed))
    × (resolve_at d' 21 ≡ (d', ok none))
Reach-closed_example =
    Reach-closed 2 1 "a1" 21 (next here (expire (resolve_at built 16).0 20)) closed_at_16

resolve_at-Resolves_example :
    (r : DecisionResolution) × ((resolve_at built 16).1 ≡ ok (some r))
    × ((resolve_at built 16).0
        ≡ record built { entries = map defaulted built.entries; is_closed = true })
    × Resolves (map defaulted built.entries) r.actions
resolve_at-Resolves_example = resolve_at-Resolves 16 built built-IsValid refl refl

resolve_at-early_example : resolve_at built 14 ≡ (built, ok none)
resolve_at-early_example = resolve_at-early 14 built refl

default_action-best_example :
    In second_action first_entry.actions
    × (preference pass ≤ 2)
    × All (λ b. preference pass ≤ preference b.action) first_entry.actions
unfolding program
default_action-best_example = default_action-best first_entry.actions second_action refl

default_action-none_example :
    (default_action (first_action ∷ []) ≡ none)
    ↔ All (λ b. preference b.action ≡ 3) (first_action ∷ [])
default_action-none_example = default_action-none (first_action ∷ [])

abbrev raw_options : List (Seat × List GameAction × Option Duration × Bool)
raw_options = (1, ron 0 ∷ pass ∷ [], some 10, false) ∷ (2, pass ∷ [], some 10, false) ∷ []

number_options-distinct_example : ◌≡◌ {A = ℕ} 2 2
unfolding program
number_options-distinct_example = number_options-distinct 1 raw_options 2 2 "a3" refl refl
