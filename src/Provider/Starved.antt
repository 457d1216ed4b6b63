-- ===== src/Provider/Starved.antt =====
-- translator.py, translate_text_stream: an Anthropic-style stream takes a second slot, and the
-- counters of a stream.
use cwa_e_book_translate_plu.Prelude.{
  ℕ, ◌+◌, ◌≤◌, ◌≡◌, refl, ◌≢◌, Bool, Text, ok, List, [], none, some, arith, int_value, pos, ◌⊎◌, ap,
}
use cwa_e_book_translate_plu.Budget.{reserve_attempt}
use cwa_e_book_translate_plu.Provider.{
  Provider, openai, anthropic, World, Attempt, acquire_slot, try_once, CallResult, translated,
  over_budget, call_failed, call_crashed, record_provider_call, count, attempt,
}
use cwa_e_book_translate_plu.Provider.Call.{call_provider}
use cwa_e_book_translate_plu.Provider.Rules.{IsFailure, call_loop_zero, call_loop_suc}
use cwa_e_book_translate_plu.Provider.Stream.{
  StreamEnv, single_delta, call_provider_stream, close_stream, named, stream_one,
}

try_once-full :
    (p : Provider) (input : Text) (timeout max_tokens : ℕ) (w w' : World) (a : Attempt)
    (recorded : Bool) (t : Text)
    → w.inflight_cap ≤ w.held
    → try_once p input timeout max_tokens w a ≢ (w', recorded, ok t)
unfolding try_once acquire_slot
try_once-full p input timeout max_tokens w w' a recorded t h = ground arith

call_provider-full :
    (p : Provider) (input : Text) (timeout max_tokens : ℕ) (env : ℕ → Attempt) (w : World)
    → w.inflight_cap ≤ w.held
    → IsFailure (call_provider p input timeout max_tokens 1 env w).1
unfolding call_provider
call_provider-full p input timeout max_tokens env w h =
    call_loop_suc (λ r. IsFailure r.1) p input timeout max_tokens 1 env 0 0 none w
      (λ w' recorded t e.
        absurd (try_once-full p input timeout max_tokens w w' (env 0) recorded t h e))
      (λ w' recorded s r e no_text. no_text)
      (λ w' recorded s c e.
        call_loop_zero (λ r. IsFailure r.1) p input timeout max_tokens 1 env (0 + 1) (some c) _
          (λ r no_text. no_text))

single_delta-failed :
    (r : World × CallResult)
    → IsFailure r.1
    → ((single_delta r).1 ≡ []) × ((single_delta r).2 ≢ none)
unfolding single_delta
single_delta-failed (w, translated t) f = absurd (f t refl)
single_delta-failed (w, over_budget r) f = (refl, λ e. cc)
single_delta-failed (w, call_failed c) f = (refl, λ e. cc)
single_delta-failed (w, call_crashed) f = (refl, λ e. cc)

call_provider_stream-full :
    (p : Provider) (input : Text) (timeout max_tokens : ℕ) (w : World) (e : StreamEnv)
    → p.protocol ≡ anthropic
    → w.inflight_cap ≤ w.held
    → ((call_provider_stream p input timeout max_tokens w e).1 ≡ [])
      × ((call_provider_stream p input timeout max_tokens w e).2 ≢ none)
unfolding call_provider_stream
call_provider_stream-full p input timeout max_tokens w e q h =
    rw (q, call_provider_stream)
      (single_delta-failed _ (call_provider-full p input timeout max_tokens e.nested w h))

acquire_slot-granted :
    (w : World) (a : Attempt)
    → (acquire_slot w a).1 ≡ ok tt
    → acquire_slot w a ≡ (record w { held = w.held + 1 }, ok tt)
unfolding acquire_slot
acquire_slot-granted w a h = ground arith

named-nil : (p : Provider) (ds : List Text) → ds ≡ [] → named p ds ≡ []
unfolding named
named-nil p ds e = rw e

-- With an in-flight cap of one, or any cap that the stream's own slot fills, an Anthropic-style
-- provider never yields a delta, whatever the environment does: its nested call waits for a second
-- slot, which the stream itself keeps from it.
pub stream_one-starved :
    (p : Provider) (input : Text) (timeout max_tokens : ℕ) (w : World) (e : StreamEnv)
    → p.protocol ≡ anthropic
    → w.inflight_cap ≤ w.held + 1
    → (stream_one p input timeout max_tokens w e).1 ≡ []
unfolding stream_one
stream_one-starved p input timeout max_tokens w e q h =
    let slot = acquire_slot w e.opening in
    let tried =
      reserve_attempt slot.0.budget e.opening.reserve_at input (int_value (pos max_tokens)) in
    let w3 = count (record slot.0 { budget = tried.0 }) attempt in
    let none_out : slot.1 ≡ ok tt
        → named p (call_provider_stream p input timeout max_tokens w3 e).1 ≡ [] =
      λ g.
        named-nil p _
          (call_provider_stream-full p input timeout max_tokens w3 e q (
            omega (
              arith,
              ap (λ r. r.0.held) (acquire_slot-granted w e.opening g),
              ap (λ r. r.0.inflight_cap) (acquire_slot-granted w e.opening g),
            ))).0 in
    ground (arith, none_out)

-- The attempts, successes and failures that an OpenAI-style stream adds balance, but for one case:
-- a stream that ends by itself with no delta is an attempt that is neither.
pub stream_one-balance :
    (p : Provider) (input : Text) (timeout max_tokens : ℕ) (w : World) (e : StreamEnv)
    → p.protocol ≡ openai
    → let m = w.metrics in
      let n = (stream_one p input timeout max_tokens w e).0.metrics in
      (n.attempts + m.successes + m.failures ≡ m.attempts + n.successes + n.failures)
      ⊎ ((e.feed.deltas ≡ [])
          × (e.feed.signal ≡ none)
          × (n.attempts + m.successes + m.failures ≡ m.attempts + n.successes + n.failures + 1))
unfolding stream_one acquire_slot close_stream call_provider_stream record_provider_call
stream_one-balance p input timeout max_tokens w e q = ground arith
