-- ===== src/Session/Probe.antt =====
-- reader_session.py, `_probe` and `_read_bounded_json`: what the reader's answer proves. The answer
-- is what the HTTP client gives, with the clock as it stands when each piece arrives.
use cwa_e_book_translate_plu.Prelude.{
  ℕ, zero, suc, ◌+◌, ◌/◌, ◌%◌, Bool, true, false, not, ◌&&◌, ◌||◌, Result, ok, err, List, [], ◌∷◌,
  ◌++◌, Option, none, some, Text, codes, strip, text_eq, split_once, join_by, length, all, map, ltb,
  leb, ◌==◌, if◌then◌else◌,
}
use cwa_e_book_translate_plu.Session.{
  Error, rejected, unavailable, Binding, Compress, binding_parts,
}
use cwa_e_book_translate_plu.Session.Credentials.{
  ReaderType, cwa, kavita, Credentials, cookies, bearer,
}

-- A decoded JSON body, as far as it is looked at: for a list whether each item is an object, for an
-- object `id` when it is an `int` and no `bool` and above 0, and `kavitaVersion` when it is a text.
pub data Payload : Type 0 where
  items : List Bool → Payload
  object : Option ℕ → Option Text → Payload
  scalar : Payload

-- One chunk of the body: the clock when it arrives, and its bytes.
abbrev pub Chunk : Type 0
Chunk = ℕ × Text

-- `Content-Length`: absent, not a number, or in or out of the range from 0 up
pub data Declared : Type 0 where
  absent malformed negative : Declared
  bytes : ℕ → Declared

pub record Response : Type 0 where
  pub arrived : ℕ
  pub status : ℕ
  pub content_type : Text
  pub declared : Declared
  pub chunks : List Chunk

-- `str.casefold` of the characters that have an ASCII letter as their fold
unfoldable pub fold : ℕ → ℕ
fold c =
    if leb 65 c && leb c 90
    then c + 32
    else if c == 0x17f
    then 115
    else if c == 0x212a
    then 107
    else c

unfoldable pub is_json : Text → Bool
unfolding fold
is_json content_type =
    text_eq (map fold (strip (split_once 59 content_type).0)) (codes "application/json")

unfoldable pub read_chunks : ℕ → ℕ → Text → List Chunk → Result Error Text
read_chunks limit deadline payload [] = ok payload
read_chunks limit deadline payload ((clock, chunk) ∷ chunks) =
    if leb deadline clock || ltb limit (length payload + length chunk)
    then err unavailable
    else read_chunks limit deadline (payload ++ chunk) chunks

unfoldable pub is_refused : ℕ → Declared → Bool
is_refused limit absent = false
is_refused limit malformed = true
is_refused limit negative = true
is_refused limit (bytes size) = ltb limit size

unfoldable pub read_bounded_json : (Text → Option Payload) → ℕ → ℕ → Response → Result Error Payload
unfolding is_json read_chunks is_refused
read_bounded_json loads limit deadline r =
    if not (is_json r.content_type)
    then err rejected
    else if is_refused limit r.declared
    then err unavailable
    else elim (read_chunks limit deadline [] r.chunks) [
      | err e ↦ err e
      | ok payload ↦ elim (loads payload) [ none ↦ err rejected | some p ↦ ok p ]
    ]

-- `"; ".join(f"{k}={v}" ...)`, the `Cookie` header that is sent
unfoldable pub cookie_header : List (Text × Text) → Text
cookie_header cs = join_by (59 ∷ 32 ∷ []) (map (λ c. c.0 ++ 61 ∷ c.1) cs)

-- `str(n)`; `fuel` above `n` is enough
unfoldable pub digits : ℕ → ℕ → Text
digits zero n = []
digits (suc fuel) n =
    let more = digits fuel (n / 10) in
    if ltb n 10 then (48 + n) ∷ [] else more ++ (48 + n % 10) ∷ []

-- A proof that is not ASCII raises in `encode`, which ends the probe as unavailable.
unfoldable pub identity :
    (Text → Text) → ReaderType → Text → Credentials → Payload → Result Error Text
unfolding cookie_header digits
identity sha256 cwa version (cookies cs) (items dicts) =
    if not (all (λ is_dict. is_dict) dicts)
    then err rejected
    else if all (λ c. ltb c 128) (cookie_header cs)
    then ok (sha256 (cookie_header cs))
    else err unavailable
-- `credentials["Cookie"]` is a KeyError
identity sha256 cwa version (bearer b) (items dicts) =
    if all (λ is_dict. is_dict) dicts then err unavailable else err rejected
identity sha256 kavita version c (object (some id) (some v)) =
    if text_eq v version then ok (digits (suc id) id) else err rejected
identity sha256 _ version _ _ = err rejected

-- What `_probe` needs of the broker's configuration and of the libraries it calls.
pub record Authority : Type 0 where
  pub reader_type : ReaderType
  pub reader_version : Text
  pub timeout : ℕ
  pub max_response_bytes : ℕ
  pub sha256 : Text → Text
  pub loads : Text → Option Payload
  pub compress : Compress

-- The call at clock `started`; `none` is an exception of the HTTP client.
unfoldable pub probe : Authority → ℕ → Option Response → Credentials → Binding → Result Error Text
unfolding read_bounded_json identity
probe a started answer c binding = elim (binding_parts a.compress binding) [
  | err e ↦ err e
  | ok _ ↦ elim answer [
    | none ↦ err unavailable
    | some r ↦
        let deadline = started + a.timeout in
        if leb deadline r.arrived
        then err unavailable
        else if not (r.status == 200)
        then if r.status == 401 || r.status == 403 || (leb 300 r.status && ltb r.status 400)
          then err rejected
          else err unavailable
        else elim (read_bounded_json a.loads a.max_response_bytes deadline r) [
          | err e ↦ err e
          | ok p ↦ identity a.sha256 a.reader_type a.reader_version c p
        ]
  ]
]
