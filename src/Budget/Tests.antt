-- ===== src/Budget/Tests.antt =====
-- work_budget.py: runs of the budget on concrete calls.
use cwa_e_book_translate_plu.Prelude.{
  ◌≡◌, refl, utf8_size, utf8_width, Value, int_value, pos, ok_or, as_positive_int, as_ticks,
  as_positive_ticks, List, [], ◌∷◌, some, none, ℕ,
}
use cwa_e_book_translate_plu.Budget.{
  Budget, Call, checks, reserves, init, cancel, ensure_active, reserve_sized, reserve_attempt,
  snapshot, step, run,
}
use cwa_e_book_translate_plu.Budget.Limits.{Within, init-run-Within}

abbrev whole : ℕ → Value
whole n = int_value (pos n)

abbrev two_attempts : Budget
two_attempts = record {
  max_attempts = 2;
  max_input_bytes = 10;
  max_output_tokens = 100;
  deadline = 5000;
  attempts = 0;
  input_bytes = 0;
  output_tokens = 0;
  cancel_reason = none;
}

abbrev calls : List (ℕ × Call)
calls =
    (10, reserves (97 ∷ 0xe9 ∷ []) (whole 40))
    ∷ (20, checks)
    ∷ (30, reserves (97 ∷ []) (whole 40))
    ∷ (40, reserves (97 ∷ []) (whole 1))
    ∷ []

program : Unit {0}
unfolding init run step cancel ensure_active reserve_attempt reserve_sized utf8_size utf8_width
    ok_or as_positive_int as_ticks as_positive_ticks snapshot
program = tt

two_attempts-run :
    snapshot (run two_attempts calls) ≡ record { attempts = 2; input_bytes = 4; output_tokens = 80 }
unfolding program
two_attempts-run = refl

init-run-Within_example : Within two_attempts (run two_attempts calls)
unfolding program
init-run-Within_example = init-run-Within (whole 2) (whole 10) (whole 100) (whole 5) 0 calls refl

abbrev cancelled : Budget
cancelled = record two_attempts { cancel_reason = some "disconnected" }
