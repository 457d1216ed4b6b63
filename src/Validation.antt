-- ===== src/Validation.antt =====
-- server.py: the checks of what a request says: its namespace, its consent, its provider policy, its
-- token, the address that a session is bound to, and its origin.
mod Tests
pub mod Namespace
use cwa_e_book_translate_plu.Prelude.{
  ℕ, zero, suc, Bool, true, false, not, ◌&&◌, ◌||◌, Value, bool_value, text_value, Result, ok, err,
  ◌>>=◌, List, [], ◌∷◌, Option, none, some, Text, codes, text_eq, strip, is_blank, all, length, ltb,
  leb, ◌==◌, if◌then◌else◌,
}
use cwa_e_book_translate_plu.Batch.{is_empty}
use cwa_e_book_translate_plu.Auth.{
  Mode, disabled, token, forwarded, reader_session, cwa_session, is_control,
}

pub data Error : Type 0 where
  value_error auth_rejected : Error

-- one round of the loop of `_request_cache_namespace`, for a field that is text
unfoldable pub clean_name : ℕ → Text → Result Error Text
clean_name max_chars value =
    if is_blank (strip value)
    then err value_error
    else if ltb max_chars (length (strip value))
    then err value_error
    else if not (all (λ ch. not (is_control ch)) (strip value))
    then err value_error
    else ok (strip value)

-- the text of a field of the request; `none` is a value that is not text
pub data Field : Type 0 where
  absent other : Field
  text : Text → Field

unfoldable pub name_of : ℕ → Field → Result Error Text
unfolding clean_name
name_of max_chars absent = clean_name max_chars (codes "unscoped")
name_of max_chars other = err value_error
name_of max_chars (text value) = clean_name max_chars value

-- `_request_cache_namespace`, with the subject that the authentication has set
unfoldable pub request_cache_namespace :
    ℕ → Option Text → Field → Field → Result Error (Text × Text × Text)
unfolding name_of
request_cache_namespace max_chars auth_subject book chapter = do
  book_id ← name_of max_chars book
  chapter_id ← name_of max_chars chapter
  ok (tenant_of auth_subject, book_id, chapter_id)
  where
    tenant_of : Option Text → Text
    tenant_of none = codes "legacy-anonymous"
    tenant_of (some s) = if is_empty s then codes "legacy-anonymous" else s

-- `_cloud_fallback_consent`; `none` is a request without the field
unfoldable pub cloud_fallback_consent : Option Value → Result Error Bool
cloud_fallback_consent none = ok false
cloud_fallback_consent (some (bool_value b)) = ok b
cloud_fallback_consent (some v) = err value_error

pub data Locality : Type 0 where
  local remote : Locality

-- a policy that has passed the check of its form
pub record Policy : Type 0 where
  pub primary : Locality
  pub fallback : Option Locality
  pub generation : Text

-- `provider_policy` of the request: not there, malformed, or a policy
pub data PolicyField : Type 0 where
  missing malformed : PolicyField
  given : Policy → PolicyField

abbrev pub same_locality : Locality → Locality → Bool
same_locality local local = true
same_locality remote remote = true
same_locality local remote = false
same_locality remote local = false

abbrev pub same_fallback : Option Locality → Option Locality → Bool
same_fallback none none = true
same_fallback (some a) (some b) = same_locality a b
same_fallback none (some b) = false
same_fallback (some a) none = false

abbrev pub needs_policy : Mode → Bool
needs_policy cwa_session = true
needs_policy reader_session = true
needs_policy forwarded = true
needs_policy token = false
needs_policy disabled = false

-- `_stale_provider_policy`
unfoldable pub stale_provider_policy : Mode → Policy → PolicyField → Result Error Bool
stale_provider_policy mode current missing = ok (needs_policy mode)
stale_provider_policy mode current malformed = err value_error
stale_provider_policy mode current (given p) =
    if not (length p.generation == 32)
    then err value_error
    else ok (
        not (
          same_locality p.primary current.primary
          && same_fallback p.fallback current.fallback
          && text_eq p.generation current.generation))

-- `_token_matches`; `hmac.compare_digest` raises for a text that is not ASCII
unfoldable pub token_matches : Text → Text → Bool
token_matches provided expected =
    if is_empty provided
      || is_empty expected
      || ltb 4096 (length provided)
      || ltb 4096 (length expected)
    then false
    else all (λ ch. ltb ch 128) provided
      && all (λ ch. ltb ch 128) expected
      && text_eq provided expected

-- `_clean_single_ip`; `is_ip` stands for ipaddress
unfoldable pub clean_single_ip : (Text → Bool) → Text → Result Error Text
clean_single_ip is_ip value =
    if is_empty value
      || ltb 64 (length value)
      || not (text_eq value (strip value))
      || not (all (λ ch. not (ch == 44) && not (ch == 37) && not (is_control ch)) value)
    then err auth_rejected
    else if is_ip value
    then ok value
    else err auth_rejected

abbrev pub is_listed : Text → List Text → Bool
is_listed t [] = false
is_listed t (u ∷ us) = text_eq u t || is_listed t us

abbrev pub has_session_cookies : Mode → Bool
has_session_cookies cwa_session = true
has_session_cookies reader_session = true
has_session_cookies forwarded = false
has_session_cookies token = false
has_session_cookies disabled = false

-- `_is_origin_allowed`; `is_private` stands for the match of _PRIVATE_ORIGIN_RE
unfoldable pub is_origin_allowed :
    List Text → Bool → (Text → Bool) → Mode → Option Text → Option Text
is_origin_allowed allowed allow_lan is_private mode none = none
is_origin_allowed allowed allow_lan is_private mode (some origin) =
    if is_empty origin
    then none
    else if is_listed origin allowed
    then some origin
    else if has_session_cookies mode
    then none
    else if allow_lan && is_private origin
    then some origin
    else none
