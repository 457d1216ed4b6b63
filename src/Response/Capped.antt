-- ===== src/Response/Capped.antt =====
-- translator.py: the bounds of what is read from a provider.
use cwa_e_book_translate_plu.Prelude.{
  ℕ, ◌≤◌, ◌≡◌, arith, false, Option-cases, inl, inr, ok, bind-ok, Result-cases, List, [], ◌∷◌, ◌++◌,
  Option, none, some, Text, strip, is_blank, utf8_size, length, length-append,
}
use cwa_e_book_translate_plu.Budget.{Budget}
use cwa_e_book_translate_plu.Response.{
  Chunk, Response, ensure_response_active, read_payload, check_status, check_declared, decode,
  check_broken, check_remaining, read_body, read_capped_json_response, validate_provider_text,
  retry_after_seconds,
}

read_payload-bounded :
    (b : Budget) (limit : ℕ) (payload : Text) (cs : List Chunk) (out : Text)
    → length payload ≤ limit
    → read_payload b limit payload cs ≡ ok out
    → length out ≤ limit
unfolding read_payload
read_payload-bounded b limit payload [] out l e = ground arith
read_payload-bounded b limit payload (c ∷ cs) out l e =
    elim (Result-cases (ensure_response_active b c.check)) [
      | inl (x, q) ↦ ground arith
      | inr (u, q) ↦ elim (Option-cases c.content) [
        | inl z ↦ ground arith
        | inr (bytes, z) ↦
            let grown : length (payload ++ bytes) ≤ limit =
              ground (arith, length-append payload bytes) in
            read_payload-bounded b limit (payload ++ bytes) cs out grown (ground arith)
      ]
    ]

-- A body that is returned was decoded from at most `limit` bytes, and the provider had answered with
-- no error status.
pub read_capped_json_response-bounded :
    {J : Type 0} (b : Budget) (limit : ℕ) (loads : Text → Option J) (r : Response) (body : J)
    → read_capped_json_response b limit loads r ≡ ok body
    → (payload : Text) × (length payload ≤ limit) × (loads payload ≡ some body) × (r.status ≡ none)
unfolding read_capped_json_response read_body check_status decode
read_capped_json_response-bounded b limit loads r body e =
    elim (Result-cases (read_body b limit loads r)) [
      | inl (x, q) ↦ ground arith
      | inr (j, q) ↦
          let (_, _, e1) =
            bind-ok
              (ensure_response_active b (record { deadline_reached = false; now = r.opened_at })) _
              j q in
          let (_, _, e2) = bind-ok (check_remaining b r.remaining_at) _ j e1 in
          let (_, _, e3) = bind-ok (ensure_response_active b r.before) _ j e2 in
          let (_, s, e4) = bind-ok (check_status r.status) _ j e3 in
          let (_, _, e5) = bind-ok (ensure_response_active b r.after_status) _ j e4 in
          let (_, _, e6) = bind-ok (check_declared limit r.declared) _ j e5 in
          let (payload, p, e7) = bind-ok (read_payload b limit [] r.chunks) _ j e6 in
          let (_, _, e8) = bind-ok (check_broken r.broken) _ j e7 in
          let (_, _, e9) = bind-ok (ensure_response_active b r.after_chunks) _ j e8 in
          let (x, d, e10) = bind-ok (decode (loads payload)) _ j e9 in
          let (_, _, e11) = bind-ok (ensure_response_active b r.decoded) _ j e10 in
          (
            payload,
            read_payload-bounded b limit [] r.chunks payload (omega arith) p,
            ground arith,
            ground arith,
          )
    ]

-- A text that is accepted from a provider is the stripped one, is not blank, and has at most `limit`
-- bytes.
pub validate_provider_text-bounded :
    (limit : ℕ) (value t : Text)
    → validate_provider_text limit value ≡ ok t
    → (t ≡ strip value) × (is_blank t ≡ false) × ((n : ℕ) × (utf8_size t ≡ some n) × (n ≤ limit))
unfolding validate_provider_text
validate_provider_text-bounded limit value t e = elim (Option-cases (utf8_size (strip value))) [
  | inl z ↦ ground arith
  | inr (n, z) ↦ (ground arith, ground arith, (n, ground arith, ground arith))
]

-- A Retry-After that is passed on is from 1 to 30 seconds.
pub retry_after_seconds-bounded :
    (raw : Option Text) (n : ℕ) → retry_after_seconds raw ≡ some n → (1 ≤ n) × (n ≤ 30)
unfolding retry_after_seconds
retry_after_seconds-bounded none n e = ground arith
retry_after_seconds-bounded (some raw) n e = ground arith
