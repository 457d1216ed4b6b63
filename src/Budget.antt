-- ===== src/Budget.antt =====
-- work_budget.py: the request-scoped limits. Each method runs under the budget's lock, so a call is
-- one step; the clock's reading is an argument. A method returns the budget beside its result.
mod Tests
pub mod Limits
pub mod Ledger
pub mod Cancel
use cwa_e_book_translate_plu.Prelude.{
  ℕ, ◌+◌, ◌-◌, String, Text, Value, Result, ok, err, ◌>>=◌, ok_or, as_positive_int,
  as_positive_ticks, List, [], ◌∷◌, Option, none, some, ltb, leb, str_eq, utf8_size, if◌then◌else◌,
}

pub data Error : Type 0 where
  exceeded : String → Error
  value_error : Error

pub record Budget : Type 0 where
  pub max_attempts : ℕ
  pub max_input_bytes : ℕ
  pub max_output_tokens : ℕ
  pub deadline : ℕ
  pub attempts : ℕ
  pub input_bytes : ℕ
  pub output_tokens : ℕ
  pub cancel_reason : Option String

abbrev pub Reply : Type 0 → Type 0
Reply A = Result Error A

-- `WorkBudget.__init__`; `now` is the reading that the deadline counts from
unfoldable pub init : Value → Value → Value → Value → ℕ → Reply Budget
unfolding ok_or as_positive_int as_positive_ticks
init max_attempts max_input_bytes max_output_tokens deadline_seconds now = do
  attempts ← ok_or (as_positive_int max_attempts) value_error
  bytes ← ok_or (as_positive_int max_input_bytes) value_error
  tokens ← ok_or (as_positive_int max_output_tokens) value_error
  seconds ← ok_or (as_positive_ticks deadline_seconds) value_error
  ok (record {
    max_attempts = attempts;
    max_input_bytes = bytes;
    max_output_tokens = tokens;
    deadline = now + seconds;
    attempts = 0;
    input_bytes = 0;
    output_tokens = 0;
    cancel_reason = none;
  })

-- The first reason stays.
unfoldable pub cancel : Budget → String → Budget × Reply (Unit {0})
cancel b reason = if str_eq reason "" then (b, err value_error) else elim b.cancel_reason [
  | none ↦ (record b { cancel_reason = some reason }, ok tt)
  | some r ↦ (b, ok tt)
]

unfoldable pub ensure_active : Budget → ℕ → Reply (Unit {0})
ensure_active b now = elim b.cancel_reason [
  | some r ↦ err (exceeded r)
  | none ↦ if leb b.deadline now then err (exceeded "deadline") else ok tt
]

-- `max(0.0, deadline - now)`: subtraction on ℕ stops at 0
unfoldable pub remaining_seconds : Budget → ℕ → ℕ
remaining_seconds b now = b.deadline - now

-- the checks and the writes under the lock, for an input of `bytes` bytes
unfoldable pub reserve_sized : Budget → ℕ → ℕ → ℕ → Budget × Reply (Unit {0})
reserve_sized b now bytes tokens = elim b.cancel_reason [
  | some r ↦ (b, err (exceeded r))
  | none ↦
      if leb b.deadline now
      then (b, err (exceeded "deadline"))
      else if ltb b.max_attempts (b.attempts + 1)
      then (b, err (exceeded "attempts"))
      else if ltb b.max_input_bytes (b.input_bytes + bytes)
      then (b, err (exceeded "input_bytes"))
      else if ltb b.max_output_tokens (b.output_tokens + tokens)
      then (b, err (exceeded "output_tokens"))
      else (
        record b {
          attempts = b.attempts + 1;
          input_bytes = b.input_bytes + bytes;
          output_tokens = b.output_tokens + tokens;
        },
        ok tt,
      )
]

-- The encoding of a lone surrogate raises UnicodeEncodeError, a ValueError.
unfoldable pub reserve_attempt : Budget → ℕ → Text → Value → Budget × Reply (Unit {0})
reserve_attempt b now input_text output_tokens = elim (as_positive_int output_tokens) [
  | none ↦ (b, err value_error)
  | some tokens ↦ elim (utf8_size input_text) [
    | none ↦ (b, err value_error)
    | some bytes ↦ reserve_sized b now bytes tokens
  ]
]

pub record Snapshot : Type 0 where
  pub attempts : ℕ
  pub input_bytes : ℕ
  pub output_tokens : ℕ

unfoldable pub snapshot : Budget → Snapshot
snapshot b = record {
  attempts = b.attempts;
  input_bytes = b.input_bytes;
  output_tokens = b.output_tokens;
}

-- What the threads of a request do with their shared budget, in the order of the lock.
pub data Call : Type 0 where
  cancels : String → Call
  checks : Call
  reserves : Text → Value → Call

unfoldable pub step : Budget → ℕ × Call → Budget × Reply (Unit {0})
step b (now, cancels reason) = cancel b reason
step b (now, checks) = (b, ensure_active b now)
step b (now, reserves text tokens) = reserve_attempt b now text tokens

unfoldable pub run : Budget → List (ℕ × Call) → Budget
run b [] = b
run b (c ∷ cs) = run (step b c).0 cs
