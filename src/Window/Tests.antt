-- ===== src/Window/Tests.antt =====
-- translator.py: a call with two groups, of which the second ends first.
use Prim.Native.Nat.{◌≤◌, ◌<◌}
use cwa_e_book_translate_plu.Prelude.{
  ℕ, zero, ◌≡◌, refl, arith, true, List, [], ◌∷◌, ◌++◌, map, concat, none, some, pos, Text, codes,
  length, get_elem?, All, strip, lstrip, is_space, is_blank,
}
use cwa_e_book_translate_plu.Batch.{
  Config, is_distinct, is_valid_selection, is_usable, is_ascending, group_limit, is_within_budget,
  text_at,
}
use cwa_e_book_translate_plu.Envelope.Group.{
  BatchTranslationItem, direct, GroupResult, translated, provider_unavailable,
}
use cwa_e_book_translate_plu.Window.{
  empty_item, failed_item, do_group, write_group, count_running, refill, Event, refills, ends,
  end_group, step, run, is_finished, start, answered, answer, translate_batch_detailed,
}
use cwa_e_book_translate_plu.Window.Results.{In}
use cwa_e_book_translate_plu.Window.Order.{in_order}
use cwa_e_book_translate_plu.Window.Answered.{
  Delivered, translate_batch_detailed-in_order, translate_batch_detailed-Delivered,
}
use cwa_e_book_translate_plu.Window.Ends.{Delivers, translate_batch_detailed-ends}
use cwa_e_book_translate_plu.Window.Loop.{run-window}

abbrev config : Config
config = record {
  batch_size = pos 2;
  source_token_budget = 0;
  output_token_factor = 2000;
  output_token_floor = 64;
  context_window = 2;
}

abbrev texts : List Text
texts = codes "uno" ∷ codes " " ∷ codes "dos" ∷ []

abbrev groups : List (List ℕ)
groups = (0 ∷ []) ∷ (2 ∷ []) ∷ []

abbrev item : BatchTranslationItem
item = record {
  text = codes "one";
  provider = "local";
  server_cacheable = true;
  recovery_path = direct;
  error_code = none;
  retry_after_seconds = none;
}

-- The second group has no provider.
abbrev outcome : List ℕ → GroupResult
outcome (zero ∷ is) = translated (item ∷ [])
outcome is = provider_unavailable "rate_limited" (some 3)

abbrev events : List Event
events = refills ∷ ends 1 ∷ ends 0 ∷ []

abbrev expected : List BatchTranslationItem
expected =
    item
    ∷ empty_item
    ∷ failed_item (codes "[TRANSLATION ERROR: rate_limited]") (some "rate_limited") (some 3)
    ∷ []

program : Unit {0}
unfolding do_group write_group count_running refill end_group step run is_finished answer
    translate_batch_detailed is_valid_selection is_distinct is_usable is_ascending group_limit
    is_within_budget text_at is_blank strip lstrip is_space
program = tt

valid : is_valid_selection config texts groups ≡ true
unfolding program
valid = refl

ended : translate_batch_detailed config texts (some groups) 2 outcome events ≡ answered expected
unfolding program
ended = refl

translate_batch_detailed-in_order_example :
    in_order outcome groups (map (λ _. empty_item) texts) ≡ some expected
translate_batch_detailed-in_order_example =
    translate_batch_detailed-in_order config texts groups 2 outcome events expected ended

translate_batch_detailed-Delivered_example :
    (length expected ≡ length texts)
    × All (Delivered outcome expected) groups
    × ((i : ℕ)
        → i < length texts
        → ¬ (In i (concat groups))
        → get_elem? expected i ≡ some empty_item)
translate_batch_detailed-Delivered_example =
    translate_batch_detailed-Delivered config texts groups 2 outcome events expected ended

both_deliver : All (Delivers outcome) groups
unfolding program
both_deliver = ((item ∷ [], refl), ((_, refl), tt))

translate_batch_detailed-ends_example :
    (more : List Event) × (results : List BatchTranslationItem) × (translate_batch_detailed config
        texts
        (some groups)
        1
        outcome
        ((refills ∷ []) ++ more)
      ≡ answered results)
translate_batch_detailed-ends_example =
    translate_batch_detailed-ends config texts groups 1 outcome (refills ∷ []) valid both_deliver

none_running : count_running (start texts groups).slots ≤ 1
unfolding program
none_running = ground arith

run-window_example : count_running (run 1 outcome (start texts groups) events).slots ≤ 1
run-window_example = run-window 1 outcome (start texts groups) events none_running
