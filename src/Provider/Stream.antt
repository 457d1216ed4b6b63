-- ===== src/Provider/Stream.antt =====
-- translator.py, translate_text_stream and _call_provider_stream: the deltas that a stream yields.
use cwa_e_book_translate_plu.Prelude.{
  ℕ, ◌+◌, Bool, String, Text, ok, err, int_value, pos, List, [], ◌∷◌, ◌++◌, map, Option, none, some,
}
use cwa_e_book_translate_plu.Budget.{reserve_attempt}
use cwa_e_book_translate_plu.Provider.{
  Provider, openai, anthropic, World, Attempt, Signal, exceeded, crashed, acquire_slot,
  budget_signal, CallResult, translated, over_budget, call_failed, call_crashed, count, attempt,
  success, failure, release, record_provider_call,
}
use cwa_e_book_translate_plu.Provider.Call.{call_provider, eligible_providers}

-- What the transport of an OpenAI-style stream brings: its deltas, and the signal that ends them,
-- if one does. The budget's checks between the lines show as such a signal.
pub record Feed : Type 0 where
  pub deltas : List Text
  pub signal : Option Signal

-- What the environment does on one provider: the wait for the slot, the stream, and the attempts
-- of the nested call.
pub record StreamEnv : Type 0 where
  pub opening : Attempt
  pub feed : Feed
  pub nested : ℕ → Attempt

-- the one delta of a call, or the signal that it raised
unfoldable pub single_delta : World × CallResult → World × List Text × Option Signal
single_delta (w, translated t) = (w, t ∷ [], none)
single_delta (w, over_budget r) = (w, [], some (exceeded r))
single_delta (w, call_failed e) = (w, [], some crashed)
single_delta (w, call_crashed) = (w, [], some crashed)

-- `_call_provider_stream`: the deltas, and the signal that ended it. An Anthropic-style provider is
-- called by `_call_provider`, with one try, and its text is the one delta.
unfoldable pub call_provider_stream :
    Provider → Text → ℕ → ℕ → World → StreamEnv → World × List Text × Option Signal
call_provider_stream p input timeout max_tokens w e = elim p.protocol [
  | openai ↦ (w, e.feed.deltas, e.feed.signal)
  | anthropic ↦ single_delta (call_provider p input timeout max_tokens 1 e.nested w)
]

-- How a stream ends for the caller.
pub data StreamEnd : Type 0 where
  finished : StreamEnd
  stopped : String → StreamEnd
  exhausted : StreamEnd

abbrev pub Delta : Type 0
Delta = Text × String

-- What becomes of one provider: the stream goes on with the next one, or it ends.
pub data Turn : Type 0 where
  next : Turn
  last : StreamEnd → Turn

-- the `except` clauses
unfoldable pub turn_after : Signal → Turn
turn_after (exceeded r) = last (stopped r)
turn_after s = next

-- the deltas with the provider's name
unfoldable pub named : Provider → List Text → List Delta
named p = map (λ d. (d, p.cache_namespace))

-- the metrics and the turn once the deltas are out
unfoldable pub close_stream : World → List Text → Option Signal → World × Turn
unfolding record_provider_call turn_after
close_stream w deltas (some s) = (count w failure, turn_after s)
close_stream w [] none = (w, next)
close_stream w (d ∷ ds) none = (count w success, last finished)

-- the body of the loop over the providers
unfoldable pub stream_one : Provider → Text → ℕ → ℕ → World → StreamEnv → World × List Delta × Turn
unfolding named close_stream turn_after budget_signal record_provider_call
stream_one p input timeout max_tokens w e =
    let (w1, slot) = acquire_slot w e.opening in
    let (b, reply) =
      reserve_attempt w1.budget e.opening.reserve_at input (int_value (pos max_tokens)) in
    let w2 = record w1 { budget = b } in
    let (w3, deltas, signal) =
      call_provider_stream p input timeout max_tokens (count w2 attempt) e in
    let (w4, turn) = close_stream (release w3) deltas signal in
    elim slot [
      | err s ↦ (w1, [], turn_after s)
      | ok _ ↦ elim reply [
        | err s ↦ (release w2, [], turn_after (budget_signal s))
        | ok _ ↦ (w4, named p deltas, turn)
      ]
    ]

unfoldable pub stream_loop :
    Text → ℕ → ℕ → (ℕ → StreamEnv) → ℕ → List Provider → World → World × List Delta × StreamEnd
stream_loop input timeout max_tokens env i [] w = (w, [], exhausted)
stream_loop input timeout max_tokens env i (p ∷ ps) w =
    let (w', deltas, turn) = stream_one p input timeout max_tokens w (env i) in
    elim turn [
      | last e ↦ (w', deltas, e)
      | next ↦
          let (w'', more, e) = stream_loop input timeout max_tokens env (i + 1) ps w' in
          (w'', deltas ++ more, e)
    ]

-- from the choice of the providers on; the check of the budget and the prompt come before
unfoldable pub translate_text_stream :
    Provider
    → Option Provider
    → Text
    → ℕ
    → ℕ
    → Bool
    → (ℕ → StreamEnv)
    → World
    → World × List Delta × StreamEnd
translate_text_stream primary fallback input timeout max_tokens allow_cloud_fallback env w =
    stream_loop input timeout max_tokens env 0
      (eligible_providers primary fallback allow_cloud_fallback) w
