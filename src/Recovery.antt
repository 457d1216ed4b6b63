-- ===== src/Recovery.antt =====
-- translator.py: the recovery of a batch. `BatchRecoveryTracker`: counters of one request, and the
-- sink that is told of each increment once it is attached. What a thread does under the lock is one
-- step; the call of the sink comes after it, as a step of its own.
pub mod Tracked
mod Tests
use cwa_e_book_translate_plu.Prelude.{
  ℕ, zero, suc, ◌+◌, ◌==◌, Bool, true, false, Value, as_positive_int, Result, ok, err, List, [],
  ◌∷◌, Option, none, some, if◌then◌else◌,
}

-- `RECOVERY_METRIC_NAMES`; the code passes no other name
pub data Metric : Type 0 where
  envelope_retry_groups envelope_retry_recovered_groups paragraph_fallback_groups : Metric
  paragraph_fallback_recovered_segments paragraph_fallback_failed_segments : Metric

pub data Error : Type 0 where
  value_error runtime_error : Error

abbrev pub Counts : Type 0
Counts = Metric → ℕ

abbrev pub position : Metric → ℕ
position envelope_retry_groups = 0
position envelope_retry_recovered_groups = 1
position paragraph_fallback_groups = 2
position paragraph_fallback_recovered_segments = 3
position paragraph_fallback_failed_segments = 4

abbrev pub no_counts : Counts
no_counts m = 0

-- `increments`, and also `_counts` after an increment of nothing
unfoldable pub only : Metric → ℕ → Counts
only name count m = if position m == position name then count else 0

unfoldable pub add : Counts → Counts → Counts
add c d m = c m + d m

-- `sending` are the increments that threads are about to publish, `published` the sum of what the
-- sink was called with.
pub record Tracker : Type 0 where
  pub counts : Counts
  pub sink : Bool
  pub sending : List Counts
  pub published : Counts

abbrev pub init : Tracker
init = record { counts = no_counts; sink = false; sending = []; published = no_counts }

-- `record`, up to the call of the sink
unfoldable pub record_count : Tracker → Metric → Value → Tracker × Result Error (Unit {0})
unfolding only add
record_count t name count = elim (as_positive_int count) [
  | none ↦ (t, err value_error)
  | some n ↦
      let counted = record t { counts = add t.counts (only name n) } in
      if t.sink
      then (record counted { sending = only name n ∷ t.sending }, ok tt)
      else (counted, ok tt)
]

-- `attach_sink_and_flush`, up to the call of the sink
unfoldable pub attach_sink : Tracker → Tracker × Result Error (Unit {0})
attach_sink t =
    if t.sink
    then (t, err runtime_error)
    else (record t { sink = true; sending = t.counts ∷ t.sending }, ok tt)

-- `_publish` of the increments that stand first; all zero is as good as no call
unfoldable pub publish : Tracker → Tracker
unfolding add
publish t = elim t.sending [
  | [] ↦ t
  | c ∷ cs ↦ record t { sending = cs; published = add t.published c }
]

pub data Event : Type 0 where
  records : Metric → Value → Event
  attaches publishes : Event

unfoldable pub step : Tracker → Event → Tracker
step t (records name count) = (record_count t name count).0
step t attaches = (attach_sink t).0
step t publishes = publish t

unfoldable pub run : Tracker → List Event → Tracker
run t [] = t
run t (e ∷ es) = run (step t e) es
