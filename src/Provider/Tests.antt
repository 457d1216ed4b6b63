-- ===== src/Provider/Tests.antt =====
-- translator.py: a request against two providers.
use cwa_e_book_translate_plu.Prelude.{
  ◌≡◌, refl, ◌++◌, arith, ℕ, zero, suc, Text, codes, utf8_size, utf8_width, as_positive_int, true,
  false, [], ◌∷◌, some, none,
}
use cwa_e_book_translate_plu.Budget.{
  Budget, ensure_active, remaining_seconds, reserve_attempt, reserve_sized,
}
use cwa_e_book_translate_plu.Provider.{
  Provider, openai, anthropic, local, remote, World, Attempt, Transport, answered, request_error,
  resolved, try_once, acquire_slot, occupied, transfer, resolve, budget_signal, transport_signal,
  record_provider_call, translated, crashed, request_failed,
}
use cwa_e_book_translate_plu.Provider.Call.{
  call_provider, call_loop, react, decide, decide_request, is_retryable, sleep_before_retry, settle,
  give_up, raised, complete, complete_loop, eligible_providers, unavailable, unavailable_after,
}
use cwa_e_book_translate_plu.Provider.Balance.{Settled, call_provider-Settled}
use cwa_e_book_translate_plu.Provider.Complete.{complete-no_consent, complete-rate_limited}
use cwa_e_book_translate_plu.Provider.Stream.{
  StreamEnv, named, call_provider_stream, stream_one, translate_text_stream, stream_loop,
  close_stream, turn_after, single_delta,
}
use cwa_e_book_translate_plu.Provider.Starved.{stream_one-starved}

abbrev budget : Budget
budget = record {
  max_attempts = 10;
  max_input_bytes = 100;
  max_output_tokens = 100;
  deadline = 5000;
  attempts = 0;
  input_bytes = 0;
  output_tokens = 0;
  cancel_reason = none;
}

abbrev quiet : World
quiet = record {
  budget = budget;
  held = 0;
  inflight_cap = 1;
  metrics = record { attempts = 0; successes = 0; rate_limited = 0; failures = 0 };
}

abbrev near : Provider
near = record {
  provider_id = "ollama";
  protocol = openai;
  locality = local;
  cache_namespace = "near";
  model = "m";
}

abbrev far : Provider
far = record near { provider_id = "openai"; locality = remote; cache_namespace = "far" }

abbrev attempt : Transport → Attempt
attempt t = record {
  acquire_at = 1;
  remaining_at = 2;
  others = 0;
  waited_at = 3;
  reserve_at = 4;
  resolution = resolved;
  timeout_at = 5;
  transport = t;
  pause_at = 6;
  pause_remaining_at = 7;
  wake_at = 8;
}

abbrev input : Text
input = codes "hi"

abbrev busy_then_ok : ℕ → Attempt
busy_then_ok zero = attempt (request_error 503 false none)
busy_then_ok (suc k) = attempt (answered (codes "ok"))

abbrev limited : ℕ → Attempt
limited k = attempt (request_error 429 false (some 7))

program : Unit {0}
unfolding utf8_size utf8_width as_positive_int ensure_active remaining_seconds reserve_attempt
    reserve_sized try_once acquire_slot occupied transfer resolve budget_signal transport_signal
    record_provider_call call_provider call_loop react decide decide_request is_retryable
    sleep_before_retry settle give_up raised complete complete_loop eligible_providers
    unavailable_after call_provider_stream stream_one close_stream turn_after single_delta
program = tt

-- a failure with status 503 is tried again
second_try : (call_provider near input 60 20 3 busy_then_ok quiet).1 ≡ translated (codes "ok")
unfolding program
second_try = refl

call_provider-Settled_example :
    Settled 3 quiet (call_provider near input 60 20 3 busy_then_ok quiet).0
call_provider-Settled_example = call_provider-Settled near input 60 20 3 busy_then_ok quiet

abbrev after_limit : World
after_limit = (try_once near input 60 20 quiet (limited 0)).0

complete-rate_limited_example :
    complete near (some near) input 60 20 3 false (λ i. limited) quiet ≡ (
      settle after_limit true (request_failed 429 false (some 7)),
      unavailable "provider_rate_limited" (some 7),
    )
unfolding program
complete-rate_limited_example =
    complete-rate_limited near (some near) input 60 20 2 false (λ i. limited) quiet after_limit true
      false (some 7) refl

complete-no_consent_example :
    complete near (some far) input 60 20 3 false (λ i. busy_then_ok) quiet
    ≡ complete near none input 60 20 3 false (λ i. busy_then_ok) quiet
complete-no_consent_example =
    complete-no_consent near far input 60 20 3 (λ i. busy_then_ok) quiet refl

abbrev broken : StreamEnv
broken = record {
  opening = attempt (answered []);
  feed = record { deltas = codes "ha" ∷ []; signal = some crashed };
  nested = busy_then_ok;
}

abbrev whole : StreamEnv
whole = record broken { feed = record { deltas = codes "hallo" ∷ []; signal = none } }

abbrev streams : ℕ → StreamEnv
streams zero = broken
streams (suc i) = whole

stream_one-starved_example :
    (stream_one (record near { protocol = anthropic }) input 60 20 quiet whole).1 ≡ []
stream_one-starved_example =
    stream_one-starved (record near { protocol = anthropic }) input 60 20 quiet whole refl
      (ground arith)

abbrev silent : StreamEnv
silent = record broken { feed = record { deltas = []; signal = none } }

-- the broken start stays before the whole answer
mixed :
    (translate_text_stream near (some far) input 60 20 true streams quiet).1
    ≡ named near (codes "ha" ∷ []) ++ named far (codes "hallo" ∷ [])
unfolding program translate_text_stream stream_loop
mixed = refl
