-- ===== src/Provider/Call.antt =====
-- translator.py: the retry loop of `_call_provider`, and `_complete` over the eligible providers.
use cwa_e_book_translate_plu.Prelude.{
  ℕ, zero, suc, ◌+◌, Bool, true, false, ◌||◌, ◌&&◌, String, Text, Result, ok, err, List, [], ◌∷◌,
  Option, none, some, leb, ◌==◌, if◌then◌else◌,
}
use cwa_e_book_translate_plu.Budget.{ensure_active, remaining_seconds}
use cwa_e_book_translate_plu.Provider.{
  Provider, local, remote, World, Attempt, Signal, exceeded, endpoint_config, endpoint_dns,
  ssl_failed, rejected, crashed, request_failed, budget_signal, CallError, CallResult, translated,
  over_budget, call_failed, call_crashed, try_once, count, failure, rate_limit,
  record_provider_call,
}

-- What an `except` clause does: it ends the call, or keeps an error and pauses before the next try.
pub data Decision : Type 0 where
  stop : CallResult → Decision
  again : CallError → ℕ → Decision

-- `status_code in {408, 500, 502, 503, 504} or transient_transport`
unfoldable pub is_retryable : ℕ → Bool → Bool
is_retryable status transient =
    status == 408
    || status == 500
    || status == 502
    || status == 503
    || status == 504
    || (status == 0 && transient)

abbrev pub call_error : ℕ → Bool → Bool → Option ℕ → CallError
call_error status retryable eligible after = record {
  status_code = status;
  retryable = retryable;
  fallback_eligible = eligible;
  retry_after_seconds = after;
}

-- the failure of a request with a status; pauses are in thousandths of a second
unfoldable pub decide_request : ℕ → Bool → Option ℕ → Decision
decide_request status transient after =
    let retryable = is_retryable status transient in
    let e = call_error status retryable retryable (if status == 429 then after else none) in
    if retryable then again e (if status == 0 then 500 else 1000) else stop (call_failed e)

unfoldable pub decide : Signal → Decision
unfolding decide_request is_retryable
decide (exceeded r) = stop (over_budget r)
decide endpoint_config = stop (call_failed (call_error 0 false false none))
decide endpoint_dns = again (call_error 0 true true none) 500
decide ssl_failed = stop (call_failed (call_error 0 false false none))
decide (request_failed status transient after) = decide_request status transient after
decide rejected = stop (call_failed (call_error 0 false true none))
decide crashed = stop call_crashed

-- the counters of an `except` clause, if the attempt was recorded
unfoldable pub settle : World → Bool → Signal → World
unfolding record_provider_call
settle w false s = w
settle w true endpoint_config = w
settle w true endpoint_dns = w
settle w true (request_failed status transient after) =
    if status == 429 then count (count w rate_limit) failure else count w failure
settle w true s = count w failure

-- `_sleep_before_retry`; the pause itself shows in the next readings of the clock
unfoldable pub sleep_before_retry : World → Attempt → ℕ → ℕ → Result Signal (Unit {0})
unfolding budget_signal
sleep_before_retry w a attempt max_retries =
    if leb max_retries (attempt + 1) then ok tt else elim (ensure_active w.budget a.pause_at) [
      | err e ↦ err (budget_signal e)
      | ok _ ↦
          if leb (remaining_seconds w.budget a.pause_remaining_at) 0
          then err (exceeded "deadline")
          else elim (ensure_active w.budget a.wake_at) [
            | err e ↦ err (budget_signal e)
            | ok _ ↦ ok tt
          ]
    ]

-- what leaves the `except` clauses when a pause raises
unfoldable pub raised : Signal → CallResult
raised (exceeded r) = over_budget r
raised s = call_crashed

-- `raise last_error or _ProviderCallError(p.name, 0, "UnknownError")`
unfoldable pub give_up : Option CallError → CallResult
give_up none = call_failed (call_error 0 false false none)
give_up (some e) = call_failed e

-- What follows an attempt that ended with a signal: the call ends, or `retry` runs the rounds left.
unfoldable pub react :
    ℕ → Attempt → ℕ → Signal → World → (CallError → World → World × CallResult) → World × CallResult
unfolding decide sleep_before_retry raised
react max_retries a attempt s w retry = elim (decide s) [
  | stop r ↦ (w, r)
  | again e pause ↦ elim (sleep_before_retry w a attempt max_retries) [
    | err s' ↦ (w, raised s')
    | ok _ ↦ retry e w
  ]
]

-- The loop, with `left` rounds to go; `env` is what the environment does in each attempt.
unfoldable pub call_loop :
    Provider
    → Text
    → ℕ
    → ℕ
    → ℕ
    → (ℕ → Attempt)
    → ℕ
    → ℕ
    → Option CallError
    → World
    → World × CallResult
unfolding give_up
call_loop p input timeout max_tokens max_retries env zero attempt last w = (w, give_up last)
call_loop p input timeout max_tokens max_retries env (suc left) attempt last w =
    let (w', recorded, result) = try_once p input timeout max_tokens w (env attempt) in
    elim result [
      | ok t ↦ (w', translated t)
      | err s ↦ react max_retries (env attempt) attempt s (settle w' recorded s) (λ e v.
          call_loop p input timeout max_tokens max_retries env left (attempt + 1) (some e) v)
    ]

unfoldable pub call_provider :
    Provider → Text → ℕ → ℕ → ℕ → (ℕ → Attempt) → World → World × CallResult
call_provider p input timeout max_tokens max_retries env w =
    call_loop p input timeout max_tokens max_retries env max_retries 0 none w

-- `_eligible_providers`
unfoldable pub eligible_providers : Provider → Option Provider → Bool → List Provider
eligible_providers primary none allow_cloud_fallback = primary ∷ []
eligible_providers primary (some fallback) allow_cloud_fallback = elim fallback.locality [
  | local ↦ primary ∷ fallback ∷ []
  | remote ↦ if allow_cloud_fallback then primary ∷ fallback ∷ [] else primary ∷ []
]

-- What `_complete` returns or raises; `unavailable` has the error code and the retry hint.
pub data Completion : Type 0 where
  completed : Text → String → Completion
  ran_out : String → Completion
  unavailable : String → Option ℕ → Completion

-- `raise ProviderUnavailableError`
unfoldable pub unavailable_after : Option CallError → Completion
unavailable_after none = unavailable "provider_unavailable" none
unavailable_after (some e) =
    if e.status_code == 429
    then unavailable "provider_rate_limited" e.retry_after_seconds
    else unavailable "provider_unavailable" none

-- The loop over the providers; `env` is what the environment does in each attempt on each of them.
unfoldable pub complete_loop :
    Text
    → ℕ
    → ℕ
    → ℕ
    → (ℕ → ℕ → Attempt)
    → ℕ
    → List Provider
    → Option CallError
    → World
    → World × Completion
unfolding unavailable_after
complete_loop input timeout max_tokens max_retries env i [] last w = (w, unavailable_after last)
complete_loop input timeout max_tokens max_retries env i (p ∷ ps) last w =
    let (w', result) = call_provider p input timeout max_tokens max_retries (env i) w in
    elim result [
      | translated t ↦ (w', completed t p.cache_namespace)
      | over_budget r ↦ (w', ran_out r)
      | call_crashed ↦ (w', unavailable_after last)
      | call_failed e ↦ elim e.fallback_eligible [
        | true ↦ complete_loop input timeout max_tokens max_retries env (i + 1) ps (some e) w'
        | false ↦ (w', unavailable_after (some e))
      ]
    ]

unfoldable pub complete :
    Provider
    → Option Provider
    → Text
    → ℕ
    → ℕ
    → ℕ
    → Bool
    → (ℕ → ℕ → Attempt)
    → World
    → World × Completion
complete primary fallback input timeout max_tokens max_retries allow_cloud_fallback env w =
    complete_loop input timeout max_tokens max_retries env 0
      (eligible_providers primary fallback allow_cloud_fallback) none w
