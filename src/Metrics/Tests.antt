-- ===== src/Metrics/Tests.antt =====
-- server.py: one event of each kind.
use cwa_e_book_translate_plu.Prelude.{true, int_value, pos, List, [], ◌∷◌, codes}
use cwa_e_book_translate_plu.Metrics.{
  empty_metrics, Event, metric, http_response, outcome, exhaustion, partial_failure, batch_plan,
  run,
}
use cwa_e_book_translate_plu.Metrics.Balanced.{IsBalanced, empty_metrics-run-IsBalanced}

abbrev events : List Event
events =
    metric 300000 1 2 true
    ∷ http_response 503
    ∷ outcome (codes "internal_error")
    ∷ exhaustion (codes "deadline")
    ∷ partial_failure (int_value (pos 2))
    ∷ batch_plan (codes "uno" ∷ codes "dos" ∷ []) ((0 ∷ 1 ∷ []) ∷ [])
    ∷ []

empty_metrics-run-IsBalanced_example : IsBalanced (run empty_metrics events)
empty_metrics-run-IsBalanced_example = empty_metrics-run-IsBalanced events
