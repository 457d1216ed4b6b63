-- ===== src/Recovery/Tests.antt =====
-- translator.py, BatchRecoveryTracker: a sink that is attached after the first increment.
use cwa_e_book_translate_plu.Prelude.{◌≡◌, refl, int_value, pos, as_positive_int, List, [], ◌∷◌}
use cwa_e_book_translate_plu.Recovery.{
  Event, records, attaches, publishes, envelope_retry_groups, init, only, add, record_count,
  attach_sink, publish, step, run,
}
use cwa_e_book_translate_plu.Recovery.Tracked.{run-published}

abbrev events : List Event
events =
    records envelope_retry_groups (int_value (pos 2))
    ∷ attaches
    ∷ records envelope_retry_groups (int_value (pos 1))
    ∷ publishes
    ∷ publishes
    ∷ []

run-published_example :
    (run init events).published envelope_retry_groups
    ≡ (run init events).counts envelope_retry_groups
unfolding run step record_count attach_sink publish add only as_positive_int
run-published_example = run-published events envelope_retry_groups refl refl
