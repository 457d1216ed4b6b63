-- ===== src/Metrics.antt =====
-- server.py: the metrics of the process. Each call updates the dictionaries under `_metrics_lock`, as one
-- step. A latency is in thousandths of a millisecond. The sink of the segment recovery is not in the model.
mod Tests
pub mod Labels
pub mod Balanced
use cwa_e_book_translate_plu.Prelude.{
  ℕ, zero, suc, ◌+◌, ◌/◌, Bool, true, false, not, ◌||◌, Result, ok, err, Value, as_positive_int,
  List, [], ◌∷◌, ◌++◌, Option, none, some, Text, codes, text_eq, strip, length, leb, ◌==◌,
  if◌then◌else◌,
}
use cwa_e_book_translate_plu.Batch.{is_empty, sum_of, paragraph_tokens}
use cwa_e_book_translate_plu.Dict.{has_key, get_or, assign}

abbrev pub Counts : Type 0
Counts = List (Text × ℕ)

-- `{name: 0 for name in names}`
abbrev pub zeros : List Text → Counts
zeros [] = []
zeros (name ∷ names) = (name, 0) ∷ zeros names

-- `counts[name] += n`
unfoldable pub add_to : Text → ℕ → Counts → Counts
add_to name n counts = assign name (get_or 0 name counts + n) counts

abbrev pub response_classes : List Text
response_classes = codes "2xx" ∷ codes "3xx" ∷ codes "4xx" ∷ codes "5xx" ∷ []

abbrev pub outcome_names : List Text
outcome_names =
    codes "auth_rejected"
    ∷ codes "auth_unavailable"
    ∷ codes "auth_rate_limited"
    ∷ codes "api_rate_limited"
    ∷ codes "work_budget_exhausted"
    ∷ codes "provider_unavailable"
    ∷ codes "invalid_provider_response"
    ∷ codes "translation_failed"
    ∷ codes "internal_error"
    ∷ codes "batch_partial_failure_requests"
    ∷ []

abbrev pub budget_reasons : List Text
budget_reasons =
    codes "attempts"
    ∷ codes "input_bytes"
    ∷ codes "output_tokens"
    ∷ codes "deadline"
    ∷ codes "queue"
    ∷ codes "cancelled"
    ∷ codes "unknown"
    ∷ []

abbrev pub size_names : List Text
size_names = codes "single" ∷ codes "2_4" ∷ codes "5_8" ∷ codes "9_10" ∷ codes "over_10" ∷ []

abbrev pub token_names : List Text
token_names =
    codes "up_to_128"
    ∷ codes "up_to_256"
    ∷ codes "up_to_450"
    ∷ codes "up_to_600"
    ∷ codes "over_600"
    ∷ []

abbrev pub latency_names : List Text
latency_names =
    codes "up_to_250"
    ∷ codes "up_to_500"
    ∷ codes "up_to_1000"
    ∷ codes "up_to_2500"
    ∷ codes "up_to_5000"
    ∷ codes "over_5000"
    ∷ []

pub record Metrics : Type 0 where
  pub total_requests : ℕ
  pub total_latency : ℕ
  pub cache_hits : ℕ
  pub cache_misses : ℕ
  pub errors : ℕ
  pub latency_buckets : Counts
  pub http_responses : Counts
  pub outcomes : Counts
  pub work_budget_reasons : Counts
  pub partial_failure_segments : ℕ
  pub groups_total : ℕ
  pub paragraphs_total : ℕ
  pub size_buckets : Counts
  pub token_buckets : Counts

-- `_empty_metrics`
abbrev pub empty_metrics : Metrics
empty_metrics = record {
  total_requests = 0;
  total_latency = 0;
  cache_hits = 0;
  cache_misses = 0;
  errors = 0;
  latency_buckets = zeros latency_names;
  http_responses = zeros response_classes;
  outcomes = zeros outcome_names;
  work_budget_reasons = zeros budget_reasons;
  partial_failure_segments = 0;
  groups_total = 0;
  paragraphs_total = 0;
  size_buckets = zeros size_names;
  token_buckets = zeros token_names;
}

unfoldable pub latency_bucket : ℕ → Text
latency_bucket latency =
    if leb latency 250000
    then codes "up_to_250"
    else if leb latency 500000
    then codes "up_to_500"
    else if leb latency 1000000
    then codes "up_to_1000"
    else if leb latency 2500000
    then codes "up_to_2500"
    else if leb latency 5000000
    then codes "up_to_5000"
    else codes "over_5000"

-- `_record_metric`
unfoldable pub record_metric : Metrics → ℕ → ℕ → ℕ → Bool → Metrics
unfolding latency_bucket add_to
record_metric m latency hits misses error = record m {
  total_requests = m.total_requests + 1;
  total_latency = m.total_latency + latency;
  cache_hits = m.cache_hits + hits;
  cache_misses = m.cache_misses + misses;
  latency_buckets = add_to (latency_bucket latency) 1 m.latency_buckets;
  errors = m.errors + (if error then 1 else 0);
}

-- `f"{int(status_code) // 100}xx"`, for the classes that are counted
unfoldable pub response_class : ℕ → Option Text
response_class status =
    if status / 100 == 2
    then some (codes "2xx")
    else if status / 100 == 3
    then some (codes "3xx")
    else if status / 100 == 4
    then some (codes "4xx")
    else if status / 100 == 5
    then some (codes "5xx")
    else none

unfoldable pub record_http_response : Metrics → ℕ → Metrics
unfolding response_class add_to
record_http_response m status = elim (response_class status) [
  | none ↦ m
  | some name ↦ record m { http_responses = add_to name 1 m.http_responses }
]

abbrev pub is_name : Text → List Text → Bool
is_name t [] = false
is_name t (name ∷ names) = text_eq name t || is_name t names

unfoldable pub record_outcome : Metrics → Text → Option Metrics
unfolding add_to
record_outcome m name =
    if is_name name outcome_names
    then some (record m { outcomes = add_to name 1 m.outcomes })
    else none

-- `_record_work_budget_exhaustion`
unfoldable pub bounded_reason : Text → Text
bounded_reason reason = if is_name reason budget_reasons then reason else codes "unknown"

unfoldable pub record_work_budget_exhaustion : Metrics → Text → Metrics
unfolding bounded_reason add_to
record_work_budget_exhaustion m reason = record m {
  outcomes = add_to (codes "work_budget_exhausted") 1 m.outcomes;
  work_budget_reasons = add_to (bounded_reason reason) 1 m.work_budget_reasons;
}

-- `_record_batch_partial_failure`; a count that is not a positive integer raises
unfoldable pub record_batch_partial_failure : Metrics → Value → Option Metrics
unfolding add_to
record_batch_partial_failure m count = elim (as_positive_int count) [
  | none ↦ none
  | some n ↦ some (record m {
    outcomes = add_to (codes "batch_partial_failure_requests") 1 m.outcomes;
    partial_failure_segments = m.partial_failure_segments + n;
  })
]

unfoldable pub group_size_bucket : ℕ → Text
group_size_bucket size =
    if size == 1
    then codes "single"
    else if leb size 4
    then codes "2_4"
    else if leb size 8
    then codes "5_8"
    else if leb size 10
    then codes "9_10"
    else codes "over_10"

unfoldable pub source_token_bucket : ℕ → Text
source_token_bucket tokens =
    if leb tokens 128
    then codes "up_to_128"
    else if leb tokens 256
    then codes "up_to_256"
    else if leb tokens 450
    then codes "up_to_450"
    else if leb tokens 600
    then codes "up_to_600"
    else codes "over_600"

-- What `_record_batch_plan` counts before it takes the lock.
pub record Plan : Type 0 where
  pub paragraph_count : ℕ
  pub sizes : Counts
  pub tokens : Counts

unfoldable pub count_groups : List Text → Plan → List (List ℕ) → Option Plan
unfolding group_size_bucket source_token_bucket add_to
count_groups paragraphs p [] = some p
count_groups paragraphs p (group ∷ groups) =
    let rest =
      count_groups paragraphs
        (record {
          paragraph_count = p.paragraph_count + length group;
          sizes = add_to (group_size_bucket (length group)) 1 p.sizes;
          tokens =
              add_to (source_token_bucket (sum_of (paragraph_tokens paragraphs) group)) 1 p.tokens;
        })
        groups in
    if is_empty group then none else rest

-- `for name, count in counted.items()`
unfoldable pub add_counts : Counts → Counts → Counts
unfolding add_to
add_counts [] counts = counts
add_counts ((name, n) ∷ more) counts = add_counts more (add_to name n counts)

abbrev pub empty_plan : Plan
empty_plan = record { paragraph_count = 0; sizes = zeros size_names; tokens = zeros token_names }

-- `_record_batch_plan`; an empty group raises before anything is recorded
unfoldable pub record_batch_plan : Metrics → List Text → List (List ℕ) → Option Metrics
unfolding count_groups add_counts
record_batch_plan m paragraphs groups = elim (count_groups paragraphs empty_plan groups) [
  | none ↦ none
  | some p ↦ some (record m {
    groups_total = m.groups_total + length groups;
    paragraphs_total = m.paragraphs_total + p.paragraph_count;
    size_buckets = add_counts p.sizes m.size_buckets;
    token_buckets = add_counts p.tokens m.token_buckets;
  })
]

pub data Event : Type 0 where
  metric : ℕ → ℕ → ℕ → Bool → Event
  http_response : ℕ → Event
  outcome : Text → Event
  exhaustion : Text → Event
  partial_failure : Value → Event
  batch_plan : List Text → List (List ℕ) → Event

-- A call that raises changes nothing.
abbrev pub or_same : Metrics → Option Metrics → Metrics
or_same m none = m
or_same m (some n) = n

unfoldable pub step : Metrics → Event → Metrics
unfolding record_metric record_http_response record_outcome record_work_budget_exhaustion
    record_batch_partial_failure record_batch_plan
step m (metric latency hits misses error) = record_metric m latency hits misses error
step m (http_response status) = record_http_response m status
step m (outcome name) = or_same m (record_outcome m name)
step m (exhaustion reason) = record_work_budget_exhaustion m reason
step m (partial_failure count) = or_same m (record_batch_partial_failure m count)
step m (batch_plan paragraphs groups) = or_same m (record_batch_plan m paragraphs groups)

unfoldable pub run : Metrics → List Event → Metrics
run m [] = m
run m (e ∷ es) = run (step m e) es
