-- ===== src/Provider/Balance.antt =====
-- translator.py, _call_provider: the slot is given back, the attempts are bounded, and the counters
-- of provider calls balance.
use cwa_e_book_translate_plu.Prelude.{
  ℕ, zero, suc, ◌+◌, ◌≤◌, ◌≡◌, Bool, Text, Result, ok, err, Option, none, some, arith, subst,
}
use cwa_e_book_translate_plu.Budget.{reserve_attempt, reserve_sized}
use cwa_e_book_translate_plu.Provider.{
  Provider, World, Attempt, Signal, acquire_slot, occupied, try_once, CallError,
}
use cwa_e_book_translate_plu.Provider.Rules.{call_loop_zero, call_loop_suc}
use cwa_e_book_translate_plu.Provider.Call.{settle, call_loop, call_provider}

-- From `v` to `w` the slots held are the same, and `tries` more attempts at most were recorded,
-- each of which ended as a success or as a failure; rate-limited ones are among the failures.
pub record Settled (tries : ℕ) (v w : World) : Type 0 where
  pub slots : w.held ≡ v.held
  pub tried : w.metrics.attempts ≤ v.metrics.attempts + tries
  pub balanced :
      w.metrics.attempts + v.metrics.successes + v.metrics.failures
      ≡ v.metrics.attempts + w.metrics.successes + w.metrics.failures
  pub charged : w.metrics.attempts + v.budget.attempts ≤ v.metrics.attempts + w.budget.attempts
  pub limited :
      w.metrics.rate_limited + v.metrics.failures ≤ v.metrics.rate_limited + w.metrics.failures

-- the same for an attempt that ended with a signal that is not yet counted
abbrev After : World → World × Bool × Result Signal Text → Type 0
After v (w, recorded, ok t) = Settled 1 v w
After v (w, recorded, err s) = Settled 1 v (settle w recorded s)

try_once-After :
    (p : Provider) (input : Text) (timeout max_tokens : ℕ) (w : World) (a : Attempt)
    → After w (try_once p input timeout max_tokens w a)
unfolding try_once acquire_slot occupied settle reserve_attempt reserve_sized
try_once-After p input timeout max_tokens w a = ground arith

Settled-refl : (w : World) → Settled 0 w w
Settled-refl w = ground arith

Settled-trans : {u v w : World} (n : ℕ) → Settled 1 u v → Settled n v w → Settled (suc n) u w
Settled-trans n a b = ground arith

Settled-mono : {v w : World} (m n : ℕ) → m ≤ n → Settled m v w → Settled n v w
Settled-mono m n h s = ground arith

call_loop-Settled :
    (p : Provider) (input : Text) (timeout max_tokens max_retries : ℕ) (env : ℕ → Attempt)
    (left attempt : ℕ) (last : Option CallError) (w : World)
    → Settled left w (call_loop p input timeout max_tokens max_retries env left attempt last w).0
call_loop-Settled p input timeout max_tokens max_retries env zero attempt last w =
    call_loop_zero (λ r. Settled 0 w r.0) p input timeout max_tokens max_retries env attempt last w
      (λ r no_text. Settled-refl w)
call_loop-Settled p input timeout max_tokens max_retries env (suc left) attempt last w =
    call_loop_suc (λ r. Settled (suc left) w r.0) p input timeout max_tokens max_retries env left
      attempt last w
      (λ w' recorded t e.
        Settled-mono 1 (suc left) (omega arith)
          (subst (After w) e (try_once-After p input timeout max_tokens w (env attempt))))
      (λ w' recorded s r e no_text.
        Settled-mono 1 (suc left) (omega arith)
          (subst (After w) e (try_once-After p input timeout max_tokens w (env attempt))))
      (λ w' recorded s c e.
        Settled-trans left
          (subst (After w) e (try_once-After p input timeout max_tokens w (env attempt)))
          (call_loop-Settled p input timeout max_tokens max_retries env left (attempt + 1) (some c)
            (settle w' recorded s)))

-- Whatever the environment does, a call of a provider gives back every slot that it took, records
-- at most `max_retries` attempts, each of them charged to the budget, and each recorded attempt
-- ends as one success or one failure; a rate-limited one is counted as a failure too.
pub call_provider-Settled :
    (p : Provider) (input : Text) (timeout max_tokens max_retries : ℕ) (env : ℕ → Attempt)
    (w : World)
    → Settled max_retries w (call_provider p input timeout max_tokens max_retries env w).0
unfolding call_provider
call_provider-Settled p input timeout max_tokens max_retries env w =
    call_loop-Settled p input timeout max_tokens max_retries env max_retries 0 none w
