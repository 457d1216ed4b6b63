-- ===== src/Window.antt =====
-- translator.py, translate_batch_detailed: the groups of a request, run by a pool of threads with a
-- bounded window. `pending` are the groups that have not been submitted, `futures` those that have and
-- are not done; here each group stands in a slot that says which. What the threads of a group do comes
-- to its result, which is an argument, as is the order in which the groups end.
mod Tests
pub mod Answered
pub mod Ends
pub mod Loop
pub mod Order
pub mod Results
use cwa_e_book_translate_plu.Prelude.{
  ℕ, zero, suc, ◌+◌, ◌-◌, max, Bool, true, false, not, ◌&&◌, String, Result, ok, err, List, [], ◌∷◌,
  ◌++◌, map, Option, none, some, Text, codes, Value, length, get_elem?, set, all, ltb, ◌==◌,
  if◌then◌else◌,
}
use cwa_e_book_translate_plu.Batch
use cwa_e_book_translate_plu.Batch.{Config, is_valid_selection, translation_groups, is_empty}
use cwa_e_book_translate_plu.Envelope.Group.{
  BatchTranslationItem, failed, empty, GroupResult, translated, over_budget, provider_unavailable,
  no_ids, marker_text,
}

pub data Status : Type 0 where
  pending running done : Status

abbrev pub Slot : Type 0
Slot = List ℕ × Status

-- the item of a group that failed as a whole, for each of its indices
abbrev pub failed_item : Text → Option String → Option ℕ → BatchTranslationItem
failed_item shown code after = record {
  text = shown;
  provider = "";
  server_cacheable = false;
  recovery_path = failed;
  error_code = code;
  retry_after_seconds = after;
}

abbrev pub empty_item : BatchTranslationItem
empty_item = record {
  text = [];
  provider = "";
  server_cacheable = false;
  recovery_path = empty;
  error_code = none;
  retry_after_seconds = none;
}

abbrev pub missing_item : BatchTranslationItem
missing_item = failed_item (codes "[TRANSLATION ERROR: missing segment]") none none

-- `_do_group`, by the result of `_translate_group`: the items, or the reason that cancels the budget
-- and the request; `none` is a group that never ends
unfoldable pub do_group : List ℕ → GroupResult → Option (Result String (List BatchTranslationItem))
do_group idxs (translated items) = some (ok items)
do_group idxs (over_budget reason) = some (err reason)
do_group idxs (provider_unavailable code after) =
    some (ok (map (λ _. failed_item (marker_text code) (some code) after) idxs))
do_group idxs no_ids = none

-- `for j, idx in enumerate(idxs): results[idx] = ...`
unfoldable pub write_group :
    List ℕ → List BatchTranslationItem → List BatchTranslationItem → List BatchTranslationItem
write_group [] items results = results
write_group (i ∷ idxs) [] results = write_group idxs [] (set results i missing_item)
write_group (i ∷ idxs) (t ∷ items) results = write_group idxs items (set results i t)

abbrev pub is_pending : Status → Bool
is_pending pending = true
is_pending _ = false

abbrev pub is_running : Status → Bool
is_running running = true
is_running _ = false

unfoldable pub count_running : List Slot → ℕ
count_running [] = 0
count_running ((g, s) ∷ slots) = (if is_running s then 1 else 0) + count_running slots

-- `while pending and len(futures) < max_concurrent`: `free` is what is left of the window
unfoldable pub refill : ℕ → List Slot → List Slot
refill free [] = []
refill zero slots = slots
refill (suc free) ((g, pending) ∷ slots) = (g, running) ∷ refill free slots
refill (suc free) ((g, running) ∷ slots) = (g, running) ∷ refill (suc free) slots
refill (suc free) ((g, done) ∷ slots) = (g, done) ∷ refill (suc free) slots

-- `stopped` is the reason of the WorkBudgetExceeded that ended the loop.
pub record Progress : Type 0 where
  pub slots : List Slot
  pub results : List BatchTranslationItem
  pub stopped : Option String

pub data Event : Type 0 where
  refills : Event
  ends : ℕ → Event

-- the end of the group in a running slot
unfoldable pub end_group : (List ℕ → GroupResult) → ℕ → List ℕ → Progress → Progress
unfolding do_group write_group
end_group outcome i g p = elim (do_group g (outcome g)) [
  | none ↦ p
  | some (err reason) ↦ record p { stopped = some reason }
  | some (ok items) ↦ record p {
    slots = set p.slots i (g, done);
    results = write_group g items p.results;
  }
]

unfoldable pub step : ℕ → (List ℕ → GroupResult) → Progress → Event → Progress
unfolding refill count_running end_group
step max_concurrent outcome p e = elim p.stopped [
  | some r ↦ p
  | none ↦ elim e [
    | refills ↦ record p { slots = refill (max_concurrent - count_running p.slots) p.slots }
    | ends i ↦ elim (get_elem? p.slots i) [ some (g, running) ↦ end_group outcome i g p | _ ↦ p ]
  ]
]

unfoldable pub run : ℕ → (List ℕ → GroupResult) → Progress → List Event → Progress
run max_concurrent outcome p [] = p
run max_concurrent outcome p (e ∷ es) =
    run max_concurrent outcome (step max_concurrent outcome p e) es

abbrev pub is_done : Slot → Bool
is_done (g, done) = true
is_done (g, _) = false

-- `while pending or futures` has ended
unfoldable pub is_finished : Progress → Bool
is_finished p = all is_done p.slots

abbrev pub start : List Text → List (List ℕ) → Progress
start texts groups = record {
  slots = map (λ g. (g, pending)) groups;
  results = map (λ _. empty_item) texts;
  stopped = none;
}

-- How the call ends; `waiting` is a call that has not ended after these events.
pub data Answer : Type 0 where
  answered : List BatchTranslationItem → Answer
  rejected waiting : Answer
  exceeded : String → Answer

unfoldable pub answer : Progress → Answer
unfolding is_finished
answer p = elim p.stopped [
  | some r ↦ exceeded r
  | none ↦ if is_finished p then answered p.results else waiting
]

-- `translate_batch_detailed` of selected groups, or of those that the settings give
unfoldable pub translate_batch_detailed :
    Config → List Text → Option (List (List ℕ)) → ℕ → (List ℕ → GroupResult) → List Event → Answer
unfolding answer run
translate_batch_detailed c texts (some groups) max_concurrent outcome events =
    if not (is_empty groups) && not (is_valid_selection c texts groups)
    then rejected
    else answer (run (max 1 max_concurrent) outcome (start texts groups) events)
translate_batch_detailed c texts none max_concurrent outcome events =
    elim (translation_groups c texts none none) [
      | err e ↦ rejected
      | ok groups ↦ answer (run (max 1 max_concurrent) outcome (start texts groups) events)
    ]
