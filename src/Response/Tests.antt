-- ===== src/Response/Tests.antt =====
-- translator.py: a response of two chunks, and a Retry-After of a minute.
use cwa_e_book_translate_plu.Prelude.{
  ◌≡◌, refl, ◌≤◌, Text, codes, strip, lstrip, is_space, is_blank, utf8_size, utf8_width, [], ◌∷◌,
  some, none, false, length,
}
use cwa_e_book_translate_plu.Budget.{Budget, ensure_active, remaining_seconds}
use cwa_e_book_translate_plu.Response.{
  Check, Chunk, Response, ensure_response_active, read_payload, check_status, check_declared,
  check_broken, check_remaining, decode, read_body, read_capped_json_response,
  validate_provider_text, number_of, retry_after_seconds,
}
use cwa_e_book_translate_plu.Response.Capped.{read_capped_json_response-bounded}

abbrev budget : Budget
budget = record {
  max_attempts = 10;
  max_input_bytes = 100;
  max_output_tokens = 100;
  deadline = 5000;
  attempts = 0;
  input_bytes = 0;
  output_tokens = 0;
  cancel_reason = none;
}

abbrev check : Check
check = record { deadline_reached = false; now = 10 }

abbrev chunk : Text → Chunk
chunk t = record { check = check; content = some t }

abbrev response : Response
response = record {
  opened_at = 1;
  remaining_at = 2;
  before = check;
  status = none;
  after_status = check;
  declared = 4;
  chunks = chunk (codes "{") ∷ chunk (codes "}") ∷ [];
  broken = none;
  after_chunks = check;
  decoded = check;
  late = false;
}

program : Unit {0}
unfolding strip lstrip is_space is_blank utf8_size utf8_width ensure_active remaining_seconds
    ensure_response_active read_payload check_status check_declared check_broken check_remaining
    decode read_body read_capped_json_response validate_provider_text number_of retry_after_seconds
program = tt

read_capped_json_response-bounded_example :
    (payload : Text) × (length payload ≤ 8)
    × (some payload ≡ some (codes "{}"))
    × (response.status ≡ none)
unfolding program
read_capped_json_response-bounded_example =
    read_capped_json_response-bounded budget 8 (λ t. some t) response (codes "{}") refl
