-- ===== src/Provider/Retry.antt =====
-- translator.py, _call_provider: where a text comes from, and which failures are not tried again.
use cwa_e_book_translate_plu.Prelude.{
  ℕ, zero, suc, ◌+◌, ◌≤◌, ◌<◌, ◌≡◌, Bool, false, Text, ok, err, Option, none, some, arith,
  if◌then◌else◌, ◌==◌,
}
use cwa_e_book_translate_plu.Provider.{
  Provider, World, Attempt, answered, request_failed, occupied, try_once, CallError, CallResult,
  translated, call_failed,
}
use cwa_e_book_translate_plu.Provider.Call.{
  is_retryable, call_error, decide, decide_request, settle, react, call_loop, call_provider,
}
use cwa_e_book_translate_plu.Provider.Rules.{call_loop_zero, call_loop_suc}

try_once-answered :
    (p : Provider) (input : Text) (timeout max_tokens : ℕ) (w w' : World) (a : Attempt)
    (recorded : Bool) (t : Text)
    → try_once p input timeout max_tokens w a ≡ (w', recorded, ok t)
    → a.transport ≡ answered t
unfolding try_once occupied
try_once-answered p input timeout max_tokens w w' a recorded t e = ground arith

abbrev Answered : ℕ → ℕ → (ℕ → Attempt) → Text → Type 0
Answered lo hi env t = (k : ℕ) × (lo ≤ k) × (k < hi) × ((env k).transport ≡ answered t)

-- What is known of a result: a text was the answer to one of the attempts from `lo` to `hi`.
abbrev Sound : ℕ → ℕ → (ℕ → Attempt) → World × CallResult → Type 0
Sound lo hi env r = (t : Text) → r.1 ≡ translated t → Answered lo hi env t

first :
    (p : Provider) (input : Text) (timeout max_tokens : ℕ) (w w' : World) (a : Attempt)
    (recorded : Bool) (x t : Text)
    → try_once p input timeout max_tokens w a ≡ (w', recorded, ok x)
    → translated x ≡ translated t
    → a.transport ≡ answered t
first p input timeout max_tokens w w' a recorded x t e same =
    cc (try_once-answered p input timeout max_tokens w w' a recorded x e)

call_loop-Sound :
    (p : Provider) (input : Text) (timeout max_tokens max_retries : ℕ) (env : ℕ → Attempt)
    (left attempt : ℕ) (last : Option CallError) (w : World)
    → Sound attempt
        (attempt + left)
        env
        (call_loop p input timeout max_tokens max_retries env left attempt last w)
call_loop-Sound p input timeout max_tokens max_retries env zero attempt last w =
    call_loop_zero (Sound attempt (attempt + 0) env) p input timeout max_tokens max_retries env
      attempt last w (λ r no_text t e. absurd (no_text t e))
call_loop-Sound p input timeout max_tokens max_retries env (suc left) attempt last w =
    call_loop_suc (Sound attempt (attempt + suc left) env) p input timeout max_tokens max_retries
      env left attempt last w
      (λ w' recorded x e t same. (
        attempt,
        omega arith,
        omega arith,
        first p input timeout max_tokens w w' (env attempt) recorded x t e same,
      ))
      (λ w' recorded s r e no_text t same. absurd (no_text t same))
      (λ w' recorded s c e t same.
        let (k, above, below, found) =
          call_loop-Sound p input timeout max_tokens max_retries env left (attempt + 1) (some c)
            (settle w' recorded s) t same in
        (k, omega arith, omega arith, found))

-- A text that a call of a provider returns is the one that the provider answered in one of the at
-- most `max_retries` attempts.
pub call_provider-answered :
    (p : Provider) (input : Text) (timeout max_tokens max_retries : ℕ) (env : ℕ → Attempt)
    (w : World) (t : Text)
    → (call_provider p input timeout max_tokens max_retries env w).1 ≡ translated t
    → (k : ℕ) × (k < max_retries) × ((env k).transport ≡ answered t)
unfolding call_provider
call_provider-answered p input timeout max_tokens max_retries env w t e =
    let (k, _, below, found) =
      call_loop-Sound p input timeout max_tokens max_retries env max_retries 0 none w t e in
    (k, omega arith, found)

-- A response whose status is not among those to try again ends the call at once, whatever the
-- later attempts would bring: the call fails with that status, is not eligible for the fallback,
-- and keeps the provider's Retry-After only for status 429.
pub call_provider-not_retryable :
    (p : Provider) (input : Text) (timeout max_tokens n : ℕ) (env : ℕ → Attempt) (w w' : World)
    (recorded transient : Bool) (status : ℕ) (after : Option ℕ)
    → try_once p input timeout max_tokens w (env 0)
      ≡ (w', recorded, err (request_failed status transient after))
    → is_retryable status transient ≡ false
    → call_provider p input timeout max_tokens (suc n) env w ≡ (
      settle w' recorded (request_failed status transient after),
      call_failed (call_error status false false (if status == 429 then after else none)),
    )
unfolding call_provider call_loop react decide decide_request
call_provider-not_retryable p input timeout max_tokens n env w w' recorded transient status after e
      h =
    ground arith
