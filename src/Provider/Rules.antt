-- ===== src/Provider/Rules.antt =====
-- translator.py, _call_provider: one round of the retry loop, as a rule for properties of its result.
use cwa_e_book_translate_plu.Prelude.{
  ℕ, zero, suc, ◌+◌, ◌≡◌, refl, Bool, Text, Result, ok, err, Option, some, ◌≢◌, arith, Bool-cases,
  inl, inr,
}
use cwa_e_book_translate_plu.Provider.{
  Provider, World, Attempt, Signal, exceeded, endpoint_dns, request_failed, try_once, CallError,
  CallResult, translated,
}
use cwa_e_book_translate_plu.Provider.Call.{
  Decision, stop, again, decide, decide_request, is_retryable, raised, react, settle,
  sleep_before_retry, give_up, call_loop,
}

-- a result that is no text
abbrev pub IsFailure : CallResult → Type 0
IsFailure r = (t : Text) → r ≢ translated t

abbrev FailsSafe : Decision → Type 0
FailsSafe (stop r) = IsFailure r
FailsSafe (again e pause) = Unit {0}

decide_request-FailsSafe :
    (status : ℕ) (transient : Bool) (after : Option ℕ)
    → FailsSafe (decide_request status transient after)
unfolding decide_request
decide_request-FailsSafe status transient after =
    elim (Bool-cases (is_retryable status transient)) [
      | inl e ↦ rw e tt
      | inr e ↦ rw e (λ t. ground arith)
    ]

decide-FailsSafe : (s : Signal) → FailsSafe (decide s)
unfolding decide
decide-FailsSafe (exceeded r) = λ t. ground arith
decide-FailsSafe (request_failed status transient after) =
    decide_request-FailsSafe status transient after
decide-FailsSafe endpoint_dns = tt
decide-FailsSafe _ = λ t. ground arith

raised-IsFailure : (s : Signal) → IsFailure (raised s)
unfolding raised
raised-IsFailure s t = ground arith

give_up-IsFailure : (last : Option CallError) → IsFailure (give_up last)
unfolding give_up
give_up-IsFailure last t = ground arith

module _ (P : World × CallResult → Type 0) where
  react_rule :
      (max_retries : ℕ) (a : Attempt) (attempt : ℕ) (s : Signal) (w : World)
      (retry : CallError → World → World × CallResult)
      → ((r : CallResult) → IsFailure r → P (w, r))
      → ((e : CallError) → P (retry e w))
      → P (react max_retries a attempt s w retry)
  unfolding react
  react_rule max_retries a attempt s w retry ends goes =
      go (decide s) (sleep_before_retry w a attempt max_retries) (decide-FailsSafe s)
    where
      go :
          (d : Decision) (r : Result Signal (Unit {0}))
          → FailsSafe d
          → P (elim d [
            | stop r' ↦ (w, r')
            | again e pause ↦ elim r [ err s' ↦ (w, raised s') | ok _ ↦ retry e w ]
          ])
      go (stop r') r safe = ends r' safe
      go (again e pause) (ok _) safe = goes e
      go (again e pause) (err s') safe = ends (raised s') (raised-IsFailure s')

  module _ (p : Provider) (input : Text) (timeout max_tokens max_retries : ℕ)
      (env : ℕ → Attempt) where
    pub call_loop_zero :
        (attempt : ℕ) (last : Option CallError) (w : World)
        → ((r : CallResult) → IsFailure r → P (w, r))
        → P (call_loop p input timeout max_tokens max_retries env zero attempt last w)
    unfolding call_loop
    call_loop_zero attempt last w ends = ends (give_up last) (give_up-IsFailure last)

    -- A round that gets a text ends the call; one that gets a signal ends it or goes on.
    pub call_loop_suc :
        (left attempt : ℕ) (last : Option CallError) (w : World)
        → ((w' : World) (recorded : Bool) (t : Text)
            → try_once p input timeout max_tokens w (env attempt) ≡ (w', recorded, ok t)
            → P (w', translated t))
        → ((w' : World) (recorded : Bool) (s : Signal) (r : CallResult)
            → try_once p input timeout max_tokens w (env attempt) ≡ (w', recorded, err s)
            → IsFailure r
            → P (settle w' recorded s, r))
        → ((w' : World) (recorded : Bool) (s : Signal) (e : CallError)
            → try_once p input timeout max_tokens w (env attempt) ≡ (w', recorded, err s)
            → P (
                call_loop p input timeout max_tokens max_retries env left
                  (attempt + 1)
                  (some e)
                  (settle w' recorded s)))
        → P (call_loop p input timeout max_tokens max_retries env (suc left) attempt last w)
    unfolding call_loop
    call_loop_suc left attempt last w texts ends goes =
        go (try_once p input timeout max_tokens w (env attempt)) refl
      where
        go :
            (t : World × Bool × Result Signal Text)
            → try_once p input timeout max_tokens w (env attempt) ≡ t
            → P (elim t.2 [
              | ok x ↦ (t.0, translated x)
              | err s ↦ react max_retries (env attempt) attempt s (settle t.0 t.1 s) (λ e v.
                  call_loop p input timeout max_tokens max_retries env left
                    (attempt + 1)
                    (some e)
                    v)
            ])
        go (w', recorded, ok x) e = texts w' recorded x e
        go (w', recorded, err s) e =
            react_rule max_retries (env attempt) attempt s (settle w' recorded s) _
              (λ r no_text. ends w' recorded s r e no_text) (λ c. goes w' recorded s c e)
