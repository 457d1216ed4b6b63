-- ===== src/Session.antt =====
-- reader_session.py: the cookie header, the bindings of a session, and the credentials that are
-- forwarded to the reader. A request is what the code reads of it; a missing header is empty.
mod Tests
pub mod Credentials
pub mod Probe
pub mod Broker
pub mod Store
pub mod Owner
pub mod Revoked
pub mod Only
pub mod Kept
pub mod Forwarded
use cwa_e_book_translate_plu.Prelude.{
  ℕ, zero, suc, ◌+◌, ◌-◌, ◌*◌, ◌/◌, ◌%◌, Bool, true, false, not, ◌&&◌, ◌||◌, Result, ok, err, ◌>>=◌,
  ◌>>◌, guard, List, [], ◌∷◌, ◌++◌, map, Option, none, some, Text, codes, strip, is_blank, text_eq,
  split_once, split_on, join_by, length, all, take, drop, ltb, leb, ◌==◌, if◌then◌else◌,
}

-- `BrokerRejected`, `BrokerUnavailable`, and the TypeError of `hmac.compare_digest` on a text that
-- is not ASCII.
pub data Error : Type 0 where
  rejected unavailable type_error : Error

pub record Headers : Type 0 where
  pub origin : Text
  pub fetch_site : Text
  pub authorization : Text
  pub cookie : Text

abbrev pub Cookies : Type 0
Cookies = List (Text × Text)

-- `[!#$%&'*+.^_`|~0-9A-Za-z-]`
unfoldable pub is_name_char : ℕ → Bool
is_name_char c =
    (leb 48 c && leb c 57)
    || (leb 65 c && leb c 90)
    || (leb 97 c && leb c 122)
    || c == 33
    || (leb 35 c && leb c 39)
    || c == 42
    || c == 43
    || c == 45
    || c == 46
    || (leb 94 c && leb c 96)
    || c == 124
    || c == 126

-- `_COOKIE_NAME_RE`
unfoldable pub is_cookie_name : Text → Bool
unfolding is_name_char
is_cookie_name t = leb 1 (length t) && leb (length t) 128 && all is_name_char t

-- `_TOKEN_RE`
unfoldable pub is_token : Text → Bool
is_token t =
    leb 32 (length t)
    && leb (length t) 128
    && all
        (λ c.
          (leb 65 c && leb c 90)
          || (leb 97 c && leb c 122)
          || (leb 48 c && leb c 57)
          || c == 95
          || c == 45)
        t

-- `not any(ord(c) < low or ord(c) == 127 for c in t)`
unfoldable pub is_clean : ℕ → Text → Bool
is_clean low = all (λ c. leb low c && not (c == 127))

unfoldable pub get : Text → Cookies → Option Text
get name [] = none
get name ((n, v) ∷ cookies) = if text_eq n name then some v else get name cookies

-- `name in cookies`
abbrev pub has : Text → Cookies → Bool
has name cookies = elim (get name cookies) [ none ↦ false | some _ ↦ true ]

-- `cookies.pop(name, None)`, where a name stands once at most
unfoldable pub without : Text → Cookies → Cookies
without name [] = []
without name ((n, v) ∷ cookies) =
    if text_eq n name then without name cookies else (n, v) ∷ without name cookies

-- one part of the header, `parsed` being the cookies before it
unfoldable pub parse_cookie : Cookies → Text → Result Error (Text × Text)
parse_cookie parsed part =
    let (name, value) = split_once 61 (strip part) in
    elim value [
      | none ↦ err rejected
      | some v ↦
          if is_cookie_name name
            && not (has name parsed)
            && not (is_blank v)
            && leb (length v) 8192
            && is_clean 33 v
          then ok (name, v)
          else err rejected
    ]

unfoldable pub parse_parts : Cookies → List Text → Result Error Cookies
parse_parts parsed [] = ok parsed
parse_parts parsed (part ∷ parts) = elim (parse_cookie parsed part) [
  | err e ↦ err e
  | ok c ↦ parse_parts (parsed ++ c ∷ []) parts
]

unfoldable pub parse_cookie_header : Text → Result Error Cookies
unfolding parse_parts parse_cookie
parse_cookie_header raw =
    if leb (length raw) 16384 && is_clean 32 raw
    then if is_blank raw then ok [] else parse_parts [] (split_on 59 raw)
    else err rejected

-- What `_cwa_session_binding` gives: the address as the proxy saw it and the User-Agent, if any.
pub record Binding : Type 0 where
  pub cwa_remote_addr : Text
  pub user_agent : Option Text

-- `ipaddress.ip_address(a).compressed`; `none` is a ValueError
abbrev pub Compress : Type 0
Compress = Text → Option Text

unfoldable pub agent_bytes : Option Text → Result Error Text
agent_bytes none = ok (0 ∷ [])
agent_bytes (some agent) =
    if is_clean 32 agent && all (λ c. leb c 255) agent && leb (length agent) 4096
    then ok (1 ∷ agent)
    else err rejected

unfoldable pub binding_parts : Compress → Binding → Result Error (Text × Text)
unfolding agent_bytes
binding_parts compress b =
    let address = b.cwa_remote_addr in
    if not (is_blank address)
      && leb (length address) 64
      && text_eq address (strip address)
      && all (λ c. not (c == 44) && not (c == 37)) address
    then elim (compress address) [
      | none ↦ err rejected
      | some a ↦ elim (agent_bytes b.user_agent) [ err e ↦ err e | ok agent ↦ ok (a, agent) ]
    ]
    else err rejected
