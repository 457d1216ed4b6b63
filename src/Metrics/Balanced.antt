-- ===== src/Metrics/Balanced.antt =====
-- server.py: the metrics keep their fixed labels, and their sums agree.
use Prim.Native.Nat.{◌≤◌}
use cwa_e_book_translate_plu.Prelude.{
  subst, sym, ℕ, suc, ◌+◌, ◌≡◌, refl, arith, true, false, Bool-cases, Option-cases, inl, inr, Value,
  as_positive_int, List, [], ◌∷◌, none, some, some_inj, Text, codes, text_eq, length,
}
use cwa_e_book_translate_plu.Batch.{sum_of, paragraph_tokens}
use cwa_e_book_translate_plu.Dict.{
  get_or, assign, same_key, get_or-assign_same, get_or-assign_other,
}
use cwa_e_book_translate_plu.Metrics.{
  Counts, add_to, response_classes, outcome_names, budget_reasons, size_names, token_names,
  latency_names, Metrics, empty_metrics, latency_bucket, record_metric, response_class,
  record_http_response, is_name, record_outcome, bounded_reason, record_work_budget_exhaustion,
  record_batch_partial_failure, group_size_bucket, source_token_bucket, Plan, count_groups,
  add_counts, empty_plan, record_batch_plan, Event, metric, http_response, outcome, exhaustion,
  partial_failure, batch_plan, step, run,
}
use cwa_e_book_translate_plu.Metrics.Labels.{
  total, Labels, total-add_to, add_to-Labels, total-add_counts, AllNames, add_counts-Labels,
  latency_bucket-name, size_bucket-name, token_bucket-name, class-name, exhausted_name,
  partial_name, bounded_reason-name,
}

-- The labels are the fixed ones; each request is in one bucket of latency, each group in one bucket of
-- size and one of tokens, and each reason is a budget that was exhausted.
pub record IsBalanced (m : Metrics) : Type 0 where
  pub latency_labels : Labels latency_names m.latency_buckets
  pub response_labels : Labels response_classes m.http_responses
  pub outcome_labels : Labels outcome_names m.outcomes
  pub reason_labels : Labels budget_reasons m.work_budget_reasons
  pub size_labels : Labels size_names m.size_buckets
  pub token_labels : Labels token_names m.token_buckets
  pub timed : total m.latency_buckets ≡ m.total_requests
  pub failed : m.errors ≤ m.total_requests
  pub sized : total m.size_buckets ≡ m.groups_total
  pub weighed : total m.token_buckets ≡ m.groups_total
  pub explained : total m.work_budget_reasons ≤ get_or 0 (codes "work_budget_exhausted") m.outcomes

get_or-add_to :
    (k name : Text) (n : ℕ) (counts : Counts)
    → get_or 0 k counts ≤ get_or 0 k (add_to name n counts)
unfolding add_to
get_or-add_to k name n counts = elim (Bool-cases (text_eq name k)) [
  | inl e ↦
      subst (λ j. get_or 0 j counts ≤ get_or 0 j (assign name (get_or 0 name counts + n) counts))
        (same_key e) (omega (arith, get_or-assign_same 0 name (get_or 0 name counts + n) counts))
  | inr e ↦ omega (arith, get_or-assign_other 0 k name (get_or 0 name counts + n) counts e)
]

get_or-add_to_same :
    (name : Text) (n : ℕ) (counts : Counts)
    → get_or 0 name (add_to name n counts) ≡ get_or 0 name counts + n
unfolding add_to
get_or-add_to_same name n counts = get_or-assign_same 0 name (get_or 0 name counts + n) counts

record IsPlan (p : Plan) (n : ℕ) : Type 0 where
  size_labels : Labels size_names p.sizes
  token_labels : Labels token_names p.tokens
  sized : total p.sizes ≡ n
  weighed : total p.tokens ≡ n

count_groups-IsPlan :
    (paragraphs : List Text) (p q : Plan) (n : ℕ) (groups : List (List ℕ))
    → IsPlan p n
    → count_groups paragraphs p groups ≡ some q
    → IsPlan q (length groups + n)
unfolding count_groups
count_groups-IsPlan paragraphs p q n [] k e =
    subst (λ u. IsPlan u (0 + n)) (some_inj e)
      (record {
        size_labels = k.size_labels;
        token_labels = k.token_labels;
        sized = omega (arith, k.sized);
        weighed = omega (arith, k.weighed);
      })
count_groups-IsPlan paragraphs p q n ([] ∷ groups) k e = ground arith
count_groups-IsPlan paragraphs p q n ((i ∷ g) ∷ groups) k e =
    let size = group_size_bucket (length (i ∷ g)) in
    let token = source_token_bucket (sum_of (paragraph_tokens paragraphs) (i ∷ g)) in
    let next : Plan = record {
      paragraph_count = p.paragraph_count + length (i ∷ g);
      sizes = add_to size 1 p.sizes;
      tokens = add_to token 1 p.tokens;
    } in
    let more : IsPlan next (suc n) = record {
      size_labels =
          add_to-Labels size_names size 1 p.sizes (size_bucket-name (length (i ∷ g))) k.size_labels;
      token_labels =
          add_to-Labels token_names token 1 p.tokens
            (token_bucket-name (sum_of (paragraph_tokens paragraphs) (i ∷ g))) k.token_labels;
      sized = omega (arith, total-add_to size 1 p.sizes, k.sized);
      weighed = omega (arith, total-add_to token 1 p.tokens, k.weighed);
    } in
    let count : length groups + suc n ≡ suc (length groups) + n = omega arith in
    subst (IsPlan q) count (count_groups-IsPlan paragraphs next q (suc n) groups more e)

size_names-AllNames : AllNames size_names size_names
unfolding text_eq
size_names-AllNames = (refl, (refl, (refl, (refl, (refl, tt)))))

token_names-AllNames : AllNames token_names token_names
unfolding text_eq
token_names-AllNames = (refl, (refl, (refl, (refl, (refl, tt)))))

plan-IsBalanced :
    (m : Metrics) (p : Plan) (n : ℕ)
    → IsPlan p n
    → IsBalanced m
    → IsBalanced (record m {
      groups_total = m.groups_total + n;
      paragraphs_total = m.paragraphs_total + p.paragraph_count;
      size_buckets = add_counts p.sizes m.size_buckets;
      token_buckets = add_counts p.tokens m.token_buckets;
    })
plan-IsBalanced m p n k b = record {
  latency_labels = b.latency_labels;
  response_labels = b.response_labels;
  outcome_labels = b.outcome_labels;
  reason_labels = b.reason_labels;
  size_labels =
      add_counts-Labels size_names p.sizes m.size_buckets
        (subst (λ ks. AllNames ks size_names) (sym k.size_labels) size_names-AllNames)
        b.size_labels;
  token_labels =
      add_counts-Labels token_names p.tokens m.token_buckets
        (subst (λ ks. AllNames ks token_names) (sym k.token_labels) token_names-AllNames)
        b.token_labels;
  timed = b.timed;
  failed = b.failed;
  sized = omega (arith, total-add_counts p.sizes m.size_buckets, k.sized, b.sized);
  weighed = omega (arith, total-add_counts p.tokens m.token_buckets, k.weighed, b.weighed);
  explained = b.explained;
}

outcome-IsBalanced :
    (m : Metrics) (name : Text) (k : ℕ)
    → is_name name outcome_names ≡ true
    → IsBalanced m
    → IsBalanced (record m { outcomes = add_to name 1 m.outcomes; partial_failure_segments = k })
outcome-IsBalanced m name k h b = record {
  latency_labels = b.latency_labels;
  response_labels = b.response_labels;
  reason_labels = b.reason_labels;
  size_labels = b.size_labels;
  token_labels = b.token_labels;
  outcome_labels = add_to-Labels outcome_names name 1 m.outcomes h b.outcome_labels;
  timed = b.timed;
  failed = b.failed;
  sized = b.sized;
  weighed = b.weighed;
  explained =
      omega (arith, get_or-add_to (codes "work_budget_exhausted") name 1 m.outcomes, b.explained);
}

same_status :
    (m : Metrics) (status : ℕ) → response_class status ≡ none → m ≡ step m (http_response status)
unfolding step record_http_response
same_status m status e = ground (arith, e)

next_status :
    (m : Metrics) (status : ℕ) (name : Text)
    → response_class status ≡ some name
    → record m { http_responses = add_to name 1 m.http_responses } ≡ step m (http_response status)
unfolding step record_http_response
next_status m status name e = ground (arith, e)

known_outcome :
    (m : Metrics) (name : Text)
    → is_name name outcome_names ≡ true
    → step m (outcome name) ≡ record m { outcomes = add_to name 1 m.outcomes }
unfolding step record_outcome
known_outcome m name e = ground (arith, e)

unknown_outcome :
    (m : Metrics) (name : Text) → is_name name outcome_names ≡ false → step m (outcome name) ≡ m
unfolding step record_outcome
unknown_outcome m name e = ground (arith, e)

no_failure :
    (m : Metrics) (count : Value)
    → as_positive_int count ≡ none
    → step m (partial_failure count) ≡ m
unfolding step record_batch_partial_failure
no_failure m count e = ground (arith, e)

some_failure :
    (m : Metrics) (count : Value) (n : ℕ)
    → as_positive_int count ≡ some n
    → step m (partial_failure count) ≡ record m {
      outcomes = add_to (codes "batch_partial_failure_requests") 1 m.outcomes;
      partial_failure_segments = m.partial_failure_segments + n;
    }
unfolding step record_batch_partial_failure
some_failure m count n e = ground (arith, e)

no_plan :
    (m : Metrics) (paragraphs : List Text) (groups : List (List ℕ))
    → count_groups paragraphs empty_plan groups ≡ none
    → step m (batch_plan paragraphs groups) ≡ m
unfolding step record_batch_plan
no_plan m paragraphs groups e = ground (arith, e)

some_plan :
    (m : Metrics) (paragraphs : List Text) (groups : List (List ℕ)) (p : Plan)
    → count_groups paragraphs empty_plan groups ≡ some p
    → step m (batch_plan paragraphs groups) ≡ record m {
      groups_total = m.groups_total + length groups;
      paragraphs_total = m.paragraphs_total + p.paragraph_count;
      size_buckets = add_counts p.sizes m.size_buckets;
      token_buckets = add_counts p.tokens m.token_buckets;
    }
unfolding step record_batch_plan
some_plan m paragraphs groups p e = ground (arith, e)

step-IsBalanced : (m : Metrics) (e : Event) → IsBalanced m → IsBalanced (step m e)
unfolding step record_metric record_work_budget_exhaustion record_http_response record_outcome
    record_batch_partial_failure record_batch_plan
step-IsBalanced m (metric latency hits misses error) b = record {
  response_labels = b.response_labels;
  outcome_labels = b.outcome_labels;
  reason_labels = b.reason_labels;
  size_labels = b.size_labels;
  token_labels = b.token_labels;
  latency_labels =
      add_to-Labels latency_names (latency_bucket latency) 1 m.latency_buckets
        (latency_bucket-name latency) b.latency_labels;
  timed = omega (arith, total-add_to (latency_bucket latency) 1 m.latency_buckets, b.timed);
  failed = ground (arith, b.failed);
  sized = b.sized;
  weighed = b.weighed;
  explained = b.explained;
}
step-IsBalanced m (http_response status) b = elim (Option-cases (response_class status)) [
  | inl e ↦ subst IsBalanced (same_status m status e) b
  | inr (name, e) ↦ subst IsBalanced (next_status m status name e) (record {
    latency_labels = b.latency_labels;
    outcome_labels = b.outcome_labels;
    reason_labels = b.reason_labels;
    size_labels = b.size_labels;
    token_labels = b.token_labels;
    response_labels =
        add_to-Labels response_classes name 1 m.http_responses (class-name status name e)
          b.response_labels;
    timed = b.timed;
    failed = b.failed;
    sized = b.sized;
    weighed = b.weighed;
    explained = b.explained;
  })
]
step-IsBalanced m (outcome name) b = elim (Bool-cases (is_name name outcome_names)) [
  | inl e ↦
      subst IsBalanced (sym (known_outcome m name e))
        (outcome-IsBalanced m name m.partial_failure_segments e b)
  | inr e ↦ subst IsBalanced (sym (unknown_outcome m name e)) b
]
step-IsBalanced m (exhaustion reason) b = record {
  latency_labels = b.latency_labels;
  response_labels = b.response_labels;
  size_labels = b.size_labels;
  token_labels = b.token_labels;
  outcome_labels =
      add_to-Labels outcome_names (codes "work_budget_exhausted") 1 m.outcomes exhausted_name
        b.outcome_labels;
  reason_labels =
      add_to-Labels budget_reasons (bounded_reason reason) 1 m.work_budget_reasons
        (bounded_reason-name reason) b.reason_labels;
  timed = b.timed;
  failed = b.failed;
  sized = b.sized;
  weighed = b.weighed;
  explained = omega (
    arith,
    total-add_to (bounded_reason reason) 1 m.work_budget_reasons,
    get_or-add_to_same (codes "work_budget_exhausted") 1 m.outcomes,
    b.explained,
  );
}
step-IsBalanced m (partial_failure count) b = elim (Option-cases (as_positive_int count)) [
  | inl e ↦ subst IsBalanced (sym (no_failure m count e)) b
  | inr (n, e) ↦ subst IsBalanced (sym (some_failure m count n e)) (
      outcome-IsBalanced m (codes "batch_partial_failure_requests") (m.partial_failure_segments + n)
        partial_name b)
]
step-IsBalanced m (batch_plan paragraphs groups) b =
    elim (Option-cases (count_groups paragraphs empty_plan groups)) [
      | inl e ↦ subst IsBalanced (sym (no_plan m paragraphs groups e)) b
      | inr (p, e) ↦
          let first : IsPlan empty_plan 0 = record {
            size_labels = refl;
            token_labels = refl;
            sized = refl;
            weighed = refl;
          } in
          let count : length groups + 0 ≡ length groups = omega arith in
          let planned : IsPlan p (length groups) =
            subst (IsPlan p) count (count_groups-IsPlan paragraphs empty_plan p 0 groups first e) in
          subst IsBalanced (sym (some_plan m paragraphs groups p e))
            (plan-IsBalanced m p (length groups) planned b)
    ]

run-IsBalanced : (m : Metrics) (es : List Event) → IsBalanced m → IsBalanced (run m es)
unfolding run
run-IsBalanced m [] b = b
run-IsBalanced m (e ∷ es) b = run-IsBalanced (step m e) es (step-IsBalanced m e b)

-- Whatever is recorded, calls that raise included, the metrics keep their fixed labels, each request is
-- in one bucket of latency and is at most one error, each group that was planned is in one bucket of
-- size and one of source tokens, and no more reasons are counted than exhausted budgets.
pub empty_metrics-run-IsBalanced : (events : List Event) → IsBalanced (run empty_metrics events)
unfolding get_or text_eq
empty_metrics-run-IsBalanced events = run-IsBalanced empty_metrics events (record {
  latency_labels = refl;
  response_labels = refl;
  outcome_labels = refl;
  reason_labels = refl;
  size_labels = refl;
  token_labels = refl;
  timed = refl;
  failed = omega arith;
  sized = refl;
  weighed = refl;
  explained = omega arith;
})
