-- ===== src/Response.antt =====
-- translator.py: the reading of a provider's response, the check of its text, and the sanitized
-- Retry-After. A response is what the HTTP client hands over, with what the watchdog and the clock
-- say at each check.
pub mod Capped
mod Tests
use cwa_e_book_translate_plu.Prelude.{
  ℕ, zero, suc, ◌+◌, ◌-◌, ◌*◌, min, Bool, true, false, not, ◌&&◌, String, Result, ok, err, ◌>>=◌,
  List, [], ◌∷◌, ◌++◌, Option, none, some, Text, strip, is_blank, utf8_size, length, all, ltb, leb,
  ◌==◌, if◌then◌else◌,
}
use cwa_e_book_translate_plu.Budget.{Budget, ensure_active, remaining_seconds}
use cwa_e_book_translate_plu.Provider.{Signal, exceeded, rejected, request_failed, budget_signal}

-- One check: whether the watchdog has closed the response, and the clock.
pub record Check : Type 0 where
  pub deadline_reached : Bool
  pub now : ℕ

-- A chunk that is not bytes is none.
pub record Chunk : Type 0 where
  pub check : Check
  pub content : Option Text

-- `status` is an error of `raise_for_status`, with its Retry-After; `declared` is the
-- Content-Length, 0 where it is absent or malformed; `broken` is an exception of the client while it
-- reads; `late` is whether the watchdog has closed the response by the end of the call.
pub record Response : Type 0 where
  pub opened_at : ℕ
  pub remaining_at : ℕ
  pub before : Check
  pub status : Option (ℕ × Option ℕ)
  pub after_status : Check
  pub declared : ℕ
  pub chunks : List Chunk
  pub broken : Option Signal
  pub after_chunks : Check
  pub decoded : Check
  pub late : Bool

-- `ensure_response_active`
unfoldable pub ensure_response_active : Budget → Check → Result Signal (Unit {0})
unfolding budget_signal
ensure_response_active b c =
    if c.deadline_reached
    then err (exceeded "deadline")
    else elim (ensure_active b c.now) [ err e ↦ err (budget_signal e) | ok u ↦ ok u ]

-- the loop over the chunks; an empty chunk adds nothing
unfoldable pub read_payload : Budget → ℕ → Text → List Chunk → Result Signal Text
unfolding ensure_response_active
read_payload b limit payload [] = ok payload
read_payload b limit payload (c ∷ cs) = elim (ensure_response_active b c.check) [
  | err e ↦ err e
  | ok _ ↦ elim c.content [
    | none ↦ err rejected
    | some bytes ↦
        let rest = read_payload b limit (payload ++ bytes) cs in
        if ltb limit (length payload + length bytes) then err rejected else rest
  ]
]

unfoldable pub check_status : Option (ℕ × Option ℕ) → Result Signal (Unit {0})
check_status none = ok tt
check_status (some (status, after)) = err (request_failed status false after)

unfoldable pub check_broken : Option Signal → Result Signal (Unit {0})
check_broken none = ok tt
check_broken (some e) = err e

unfoldable pub check_remaining : Budget → ℕ → Result Signal (Unit {0})
check_remaining b now = if leb (remaining_seconds b now) 0 then err (exceeded "deadline") else ok tt

unfoldable pub check_declared : ℕ → ℕ → Result Signal (Unit {0})
check_declared limit size = if ltb limit size then err rejected else ok tt

unfoldable pub decode : {J : Type 0} → Option J → Result Signal J
decode none = err rejected
decode (some j) = ok j

-- the `try` block; `loads` is the decoding of the bytes
unfoldable pub read_body :
    {J : Type 0} → Budget → ℕ → (Text → Option J) → Response → Result Signal J
unfolding check_remaining check_status check_declared check_broken read_payload decode
read_body b limit loads r = do
  _ ← ensure_response_active b (record { deadline_reached = false; now = r.opened_at })
  _ ← check_remaining b r.remaining_at
  _ ← ensure_response_active b r.before
  _ ← check_status r.status
  _ ← ensure_response_active b r.after_status
  _ ← check_declared limit r.declared
  payload ← read_payload b limit [] r.chunks
  _ ← check_broken r.broken
  _ ← ensure_response_active b r.after_chunks
  body ← decode (loads payload)
  _ ← ensure_response_active b r.decoded
  ok body

-- `_read_capped_json_response`, for a response with `iter_content`
unfoldable pub read_capped_json_response :
    {J : Type 0} → Budget → ℕ → (Text → Option J) → Response → Result Signal J
unfolding read_body
read_capped_json_response b limit loads r = elim (read_body b limit loads r) [
  | ok body ↦ ok body
  | err e ↦ if r.late then err (exceeded "deadline") else err e
]

-- `_validate_provider_text` of a string
unfoldable pub validate_provider_text : ℕ → Text → Result Signal Text
validate_provider_text limit value = elim (utf8_size (strip value)) [
  | none ↦ err rejected
  | some size ↦
      if is_blank (strip value)
      then err rejected
      else if ltb limit size
      then err rejected
      else ok (strip value)
]

-- the number that decimal digits stand for, after those read before
unfoldable pub number_of : ℕ → Text → ℕ
number_of before [] = before
number_of before (c ∷ cs) = number_of (10 * before + (c - 48)) cs

-- `_retry_after_seconds` of the header's text, if it is there
unfoldable pub retry_after_seconds : Option Text → Option ℕ
unfolding number_of
retry_after_seconds none = none
retry_after_seconds (some raw) =
    let value = strip raw in
    let seconds = number_of 0 value in
    if leb 1 (length value) && leb (length value) 6 && all (λ c. leb 48 c && leb c 57) value
    then if seconds == 0 then none else some (min 30 seconds)
    else none
