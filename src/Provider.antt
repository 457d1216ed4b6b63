-- ===== src/Provider.antt =====
-- translator.py: the providers, one call of a provider with its retries, the slot of the
-- process-wide semaphore, and the counters of provider calls.
mod Tests
pub mod Call
mod Rules
pub mod Balance
pub mod Retry
pub mod Complete
pub mod Stream
pub mod Starved
pub mod Resumed
use cwa_e_book_translate_plu.Prelude.{
  ℕ, zero, suc, ◌+◌, ◌-◌, min, Bool, true, false, not, ◌&&◌, ◌||◌, String, Text, Value, int_value,
  pos, Result, ok, err, List, [], ◌∷◌, ◌++◌, Option, none, some, ltb, leb, ◌==◌, if◌then◌else◌,
  str_eq,
}
use cwa_e_book_translate_plu.Budget
use cwa_e_book_translate_plu.Budget.{Budget, ensure_active, remaining_seconds, reserve_attempt}

pub data Protocol : Type 0 where
  openai anthropic : Protocol

pub data Locality : Type 0 where
  local remote : Locality

-- `_Provider` with its `ProviderSpec`; the endpoint and the key are used by the transport alone
pub record Provider : Type 0 where
  pub provider_id : String
  pub protocol : Protocol
  pub locality : Locality
  pub cache_namespace : String
  pub model : String

abbrev pub custom_provider_id : String
custom_provider_id = "openai-compatible"

-- `_provider_call_metrics`
pub record Metrics : Type 0 where
  pub attempts : ℕ
  pub successes : ℕ
  pub rate_limited : ℕ
  pub failures : ℕ

pub data Outcome : Type 0 where
  attempt success rate_limit failure : Outcome

-- `_record_provider_call`
unfoldable pub record_provider_call : Metrics → Outcome → Metrics
record_provider_call m attempt = record m { attempts = m.attempts + 1 }
record_provider_call m success = record m { successes = m.successes + 1 }
record_provider_call m rate_limit = record m { rate_limited = m.rate_limited + 1 }
record_provider_call m failure = record m { failures = m.failures + 1 }

-- `held` is the number of semaphore slots that this request holds, of `inflight_cap`.
pub record World : Type 0 where
  pub budget : Budget
  pub held : ℕ
  pub inflight_cap : ℕ
  pub metrics : Metrics

-- What `_translate_openai` and `_translate_anthropic` return or raise: a text, the end of the
-- budget, a TLS error, another `RequestException` with its status (0 without a response), whether
-- it is a ConnectionError or a Timeout, and its sanitized Retry-After, a response that is too
-- large or malformed, or anything else.
pub data Transport : Type 0 where
  answered : Text → Transport
  out_of_budget : String → Transport
  ssl_error : Transport
  request_error : ℕ → Bool → Option ℕ → Transport
  bad_response : Transport
  other_error : Transport

-- What `_resolve_custom_endpoint` returns or raises.
pub data Resolution : Type 0 where
  resolved : Resolution
  not_public : Resolution
  dns_failure : Resolution
  no_time : String → Resolution

-- What the environment decides in one attempt: the clock's readings in the order in which the code
-- takes them, the slots that other threads hold when the wait for a slot ends, and the outcomes of
-- the resolver and of the transport.
pub record Attempt : Type 0 where
  pub acquire_at : ℕ
  pub remaining_at : ℕ
  pub others : ℕ
  pub waited_at : ℕ
  pub reserve_at : ℕ
  pub resolution : Resolution
  pub timeout_at : ℕ
  pub transport : Transport
  pub pause_at : ℕ
  pub pause_remaining_at : ℕ
  pub wake_at : ℕ

pub data Signal : Type 0 where
  exceeded : String → Signal
  endpoint_config endpoint_dns ssl_failed rejected crashed : Signal
  request_failed : ℕ → Bool → Option ℕ → Signal

unfoldable pub budget_signal : Budget.Error → Signal
budget_signal (Budget.exceeded r) = exceeded r
budget_signal Budget.value_error = rejected

-- `_acquire_upstream_slot`: a slot is granted if one is free before the wait ends
unfoldable pub acquire_slot : World → Attempt → World × Result Signal (Unit {0})
acquire_slot w a = elim (ensure_active w.budget a.acquire_at) [
  | err e ↦ (w, err (budget_signal e))
  | ok _ ↦
      if leb (remaining_seconds w.budget a.remaining_at) 0
      then (w, err (exceeded "deadline"))
      else if ltb (w.held + a.others) w.inflight_cap
      then (record w { held = w.held + 1 }, ok tt)
      else if leb (remaining_seconds w.budget a.waited_at) 0
      then (w, err (exceeded "deadline"))
      else (w, err (exceeded "queue"))
]

unfoldable pub transport_signal : Transport → Result Signal Text
transport_signal (answered t) = ok t
transport_signal (out_of_budget r) = err (exceeded r)
transport_signal ssl_error = err ssl_failed
transport_signal (request_error status transient after) =
    err (request_failed status transient after)
transport_signal bad_response = err rejected
transport_signal other_error = err crashed

-- only a custom endpoint is resolved
unfoldable pub resolve : Provider → Attempt → Result Signal (Unit {0})
resolve p a =
    if str_eq p.provider_id custom_provider_id
    then elim a.resolution [
      | resolved ↦ ok tt
      | not_public ↦ err endpoint_config
      | dns_failure ↦ err endpoint_dns
      | no_time r ↦ err (exceeded r)
    ]
    else ok tt

abbrev pub count : World → Outcome → World
count w o = record w { metrics = record_provider_call w.metrics o }

-- The end of an attempt: the world, whether the attempt was recorded, and the text or the signal.
abbrev pub Ended : Type 0
Ended = World × Bool × Result Signal Text

-- the transport, after `_record_provider_call("attempt")`
unfoldable pub transfer : World → Attempt → Ended
unfolding transport_signal record_provider_call
transfer w a = elim (transport_signal a.transport) [
  | ok t ↦ (count (count w attempt) success, true, ok t)
  | err s ↦ (count w attempt, true, err s)
]

-- the work under the slot
unfoldable pub occupied : Provider → Text → ℕ → ℕ → World → Attempt → Ended
unfolding transfer budget_signal resolve
occupied p input timeout max_tokens w a =
    let (b, reply) = reserve_attempt w.budget a.reserve_at input (int_value (pos max_tokens)) in
    let w' = record w { budget = b } in
    elim reply [
      | err e ↦ (w', false, err (budget_signal e))
      | ok _ ↦ elim (resolve p a) [
        | err s ↦ (w', false, err s)
        | ok _ ↦
            if leb (min timeout (remaining_seconds b a.timeout_at)) 0
            then (w', false, err (exceeded "deadline"))
            else transfer w' a
      ]
    ]

-- `finally: _UPSTREAM_SEM.release()`
abbrev pub release : World → World
release w = record w { held = w.held - 1 }

unfoldable pub try_once : Provider → Text → ℕ → ℕ → World → Attempt → Ended
try_once p input timeout max_tokens w a =
    let (w', reply) = acquire_slot w a in
    let (w'', recorded, result) = occupied p input timeout max_tokens w' a in
    elim reply [ err s ↦ (w', false, err s) | ok _ ↦ (release w'', recorded, result) ]

-- `_ProviderCallError`
pub record CallError : Type 0 where
  pub status_code : ℕ
  pub retryable : Bool
  pub fallback_eligible : Bool
  pub retry_after_seconds : Option ℕ

pub data CallResult : Type 0 where
  translated : Text → CallResult
  over_budget : String → CallResult
  call_failed : CallError → CallResult
  call_crashed : CallResult
