-- ===== src/Budget/Limits.antt =====
-- work_budget.py: the caps hold after every history, and the outcome of a reservation.
use cwa_e_book_translate_plu.Prelude.{
  ℕ, ◌+◌, ◌≤◌, ◌<◌, ◌≡◌, refl, ◌↔◌, Value, ok, err, as_positive_int, List, [], ◌∷◌, none, some,
  arith, utf8_size, Text, ap,
}
use cwa_e_book_translate_plu.Budget.{
  Budget, Call, cancels, checks, reserves, Error, init, cancel, reserve_sized, reserve_attempt,
  step, run,
}

-- The counters are within the caps, and the caps and the deadline are those of `origin`.
pub record Within (origin b : Budget) : Type 0 where
  pub same_attempts : b.max_attempts ≡ origin.max_attempts
  pub same_bytes : b.max_input_bytes ≡ origin.max_input_bytes
  pub same_tokens : b.max_output_tokens ≡ origin.max_output_tokens
  pub same_deadline : b.deadline ≡ origin.deadline
  pub attempts : b.attempts ≤ origin.max_attempts
  pub bytes : b.input_bytes ≤ origin.max_input_bytes
  pub tokens : b.output_tokens ≤ origin.max_output_tokens

reserve_sized-Within :
    {o b : Budget} (now bytes tokens : ℕ)
    → Within o b
    → Within o (reserve_sized b now bytes tokens).0
unfolding reserve_sized
reserve_sized-Within now bytes tokens w = ground arith

reserve_attempt-Within :
    {o b : Budget} (now : ℕ) (text : Text) (tokens : Value)
    → Within o b
    → Within o (reserve_attempt b now text tokens).0
unfolding reserve_attempt
reserve_attempt-Within {o} {b} now text tokens w = grind (arith, reserve_sized-Within)

step-Within : {o b : Budget} (c : ℕ × Call) → Within o b → Within o (step b c).0
unfolding step cancel
step-Within (now, cancels reason) w = ground arith
step-Within (now, checks) w = w
step-Within (now, reserves text tokens) w = reserve_attempt-Within now text tokens w

pub run-Within : {o : Budget} (b : Budget) (cs : List (ℕ × Call)) → Within o b → Within o (run b cs)
unfolding run
run-Within b [] w = w
run-Within b (c ∷ cs) w = run-Within (step b c).0 cs (step-Within c w)

init-Within :
    (attempts bytes tokens seconds : Value) (now : ℕ) {b : Budget}
    → init attempts bytes tokens seconds now ≡ ok b
    → Within b b
unfolding init
init-Within attempts bytes tokens seconds now e = ground arith

-- No history of calls on a new budget takes a counter over its cap, and none moves a cap or the
-- deadline: the budget that `init` returned bounds every later state.
pub init-run-Within :
    (attempts bytes tokens seconds : Value) (now : ℕ) {b : Budget} (cs : List (ℕ × Call))
    → init attempts bytes tokens seconds now ≡ ok b
    → Within b (run b cs)
init-run-Within attempts bytes tokens seconds now {b} cs e =
    run-Within b cs (init-Within attempts bytes tokens seconds now e)

-- What a reservation needs: no cancellation, time left, and room under each of the three caps.
pub record Admits (b : Budget) (now bytes tokens : ℕ) : Type 0 where
  pub active : b.cancel_reason ≡ none
  pub in_time : now < b.deadline
  pub attempt_fits : b.attempts + 1 ≤ b.max_attempts
  pub bytes_fit : b.input_bytes + bytes ≤ b.max_input_bytes
  pub tokens_fit : b.output_tokens + tokens ≤ b.max_output_tokens

abbrev pub charged : Budget → ℕ → ℕ → Budget
charged b bytes tokens = record b {
  attempts = b.attempts + 1;
  input_bytes = b.input_bytes + bytes;
  output_tokens = b.output_tokens + tokens;
}

Admits-reserve_sized :
    (b : Budget) (now bytes tokens : ℕ)
    → (reserve_sized b now bytes tokens).1 ≡ ok tt
    → Admits b now bytes tokens
unfolding reserve_sized
Admits-reserve_sized b now bytes tokens h = ground arith

reserve_sized-Admits :
    (b : Budget) (now bytes tokens : ℕ)
    → Admits b now bytes tokens
    → reserve_sized b now bytes tokens ≡ (charged b bytes tokens, ok tt)
unfolding reserve_sized
reserve_sized-Admits b now bytes tokens h = ground arith

-- With a positive token count and an encodable text, a reservation succeeds exactly when the
-- budget admits it, and the budget is then charged one attempt, the bytes of the text and the
-- tokens.
pub reserve_attempt-Admits :
    (b : Budget) (now : ℕ) (text : Text) (output_tokens : Value) (bytes tokens : ℕ)
    → as_positive_int output_tokens ≡ some tokens
    → utf8_size text ≡ some bytes
    → (reserve_attempt b now text output_tokens ≡ (charged b bytes tokens, ok tt))
      ↔ Admits b now bytes tokens
unfolding reserve_attempt
reserve_attempt-Admits b now text output_tokens bytes tokens p q =
    rw (p, reserve_attempt)
      (rw (q, reserve_attempt)
        (
          λ h. Admits-reserve_sized b now bytes tokens (ap (λ r. r.1) h),
          reserve_sized-Admits b now bytes tokens,
        ))

-- A call that raises leaves the budget as it was.
pub step-err : (b : Budget) (c : ℕ × Call) (e : Error) → (step b c).1 ≡ err e → (step b c).0 ≡ b
unfolding step cancel reserve_attempt reserve_sized
step-err b (now, cancels reason) e h = ground arith
step-err b (now, checks) e h = refl
step-err b (now, reserves text tokens) e h = ground arith
