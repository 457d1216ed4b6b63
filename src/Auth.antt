-- ===== src/Auth.antt =====
-- auth.py: `_ValidationCache`, which keeps the decisions of the CWA authority for a time, and the modes of
-- `RequestAuthenticator`. `_header_value` and the cookie parser of the standard library are not in the
-- model: the headers stand in a record, and `parse_cookies` is a parameter.
mod Tests
pub mod Bounded
pub mod Probed
pub mod Forwarded
pub mod Vouched
use cwa_e_book_translate_plu.Prelude.{
  ℕ, zero, suc, ◌+◌, ◌-◌, Bool, true, false, not, ◌&&◌, ◌||◌, Result, ok, err, ◌>>=◌, ok_or, List,
  [], ◌∷◌, ◌++◌, map, Option, none, some, Text, codes, text_eq, strip, split_on, join_by, is_blank,
  all, drop, length, ltb, leb, ◌==◌, if◌then◌else◌,
}
use cwa_e_book_translate_plu.Batch.{is_empty}
use cwa_e_book_translate_plu.Dict
use cwa_e_book_translate_plu.Dict.{delete_key}

pub data Error : Type 0 where
  auth_rejected auth_unavailable : Error

pub data Mode : Type 0 where
  disabled token forwarded reader_session cwa_session : Mode

pub record AuthIdentity : Type 0 where
  pub subject : Text
  pub roles : List Text
  pub mode : Mode

pub record CwaSessionBinding : Type 0 where
  pub cwa_remote_addr : Text
  pub user_agent : Option Text

-- What the modes read of the headers; an absent header is the empty text.
pub record Headers : Type 0 where
  pub x_bt_token : Text
  pub cookie : Text
  pub forwarded_subject : Text
  pub forwarded_roles : Text

-- `session_hash` is the SHA-256 of a text, `decision_hash` that of parts with their lengths, and `is_ip`
-- and `in_networks` are calls of the ipaddress module.
pub record Config : Type 0 where
  pub mode : Mode
  pub api_token : Text
  pub cookie_names : List Text
  pub ttl : ℕ
  pub max_entries : ℕ
  pub session_hash : Text → Text
  pub decision_hash : List Text → Text
  pub parse_cookies : Text → Option (List (Text × Text))
  pub is_ip : Text → Bool
  pub in_networks : Text → Bool

pub record Decision : Type 0 where
  pub expires_at : ℕ
  pub valid : Bool

-- the entries in the order of their last use
abbrev pub Entries : Type 0
Entries = List (Text × Decision)

unfoldable pub find : Text → Entries → Option Decision
find k [] = none
find k ((j, d) ∷ entries) = if text_eq j k then some d else find k entries

-- `_ValidationCache.get`
unfoldable pub get : Entries → Text → ℕ → Entries × Option Bool
unfolding find
get entries key now = elim (find key entries) [
  | none ↦ (entries, none)
  | some d ↦
      if leb d.expires_at now
      then (delete_key key entries, none)
      else (delete_key key entries ++ (key, d) ∷ [], some d.valid)
]

-- `_ValidationCache.put`; the loop takes entries from the front while there are too many
unfoldable pub put : Config → Entries → Text → Bool → ℕ → Entries
put c entries key valid now =
    let stored =
      delete_key key entries ++ (key, record { expires_at = now + c.ttl; valid = valid }) ∷ [] in
    drop (length stored - c.max_entries) stored

-- a character below 32, or 127
unfoldable pub is_control : ℕ → Bool
is_control ch = ltb ch 32 || ch == 127

unfoldable pub is_safe_token : Text → Bool
is_safe_token value =
    not (is_empty value) && leb (length value) 4096 && all (λ ch. leb 33 ch && leb ch 126) value

-- `_validated_cwa_binding`, for the address
unfoldable pub is_valid_address : Config → Text → Bool
unfolding is_control
is_valid_address c a =
    not (is_empty a)
    && leb (length a) 64
    && text_eq a (strip a)
    && all (λ ch. not (ch == 44) && not (ch == 37) && not (is_control ch)) a
    && c.is_ip a

unfoldable pub is_valid_agent : Option Text → Bool
unfolding is_control
is_valid_agent none = true
is_valid_agent (some a) = all (λ ch. not (is_control ch) && ltb ch 256) a && leb (length a) 4096

unfoldable pub validated_cwa_binding :
    Config → Option CwaSessionBinding → Result Error CwaSessionBinding
unfolding is_valid_address is_valid_agent
validated_cwa_binding c none = err auth_rejected
validated_cwa_binding c (some b) =
    if is_valid_address c b.cwa_remote_addr && is_valid_agent b.user_agent
    then ok b
    else err auth_rejected

-- `_cwa_decision_key`
unfoldable pub agent_part : Option Text → Text
agent_part none = 0 ∷ []
agent_part (some a) = 1 ∷ a

unfoldable pub cwa_decision_key : Config → Text → CwaSessionBinding → Text
unfolding agent_part
cwa_decision_key c session_key b =
    c.decision_hash (session_key ∷ b.cwa_remote_addr ∷ agent_part b.user_agent ∷ [])

abbrev pub value_of : Text → List (Text × Text) → Text
value_of name [] = []
value_of name ((k, v) ∷ parsed) = if text_eq k name then v else value_of name parsed

-- `selected`
unfoldable pub selected : List Text → List (Text × Text) → List (Text × Text)
selected [] parsed = []
selected (name ∷ names) parsed =
    let rest = selected names parsed in
    let value = value_of name parsed in if is_empty value then rest else (name, value) ∷ rest

-- `"\0".join(f"{name}={value}" ...)`
abbrev pub canonical_of : List (Text × Text) → Text
canonical_of cookies = join_by (0 ∷ []) (map (λ (p : Text × Text). p.0 ++ 61 ∷ p.1) cookies)

-- `_selected_cookies`, with the canonical text
unfoldable pub selected_cookies : Config → Headers → Result Error Text
unfolding is_control selected
selected_cookies c h =
    if is_empty h.cookie
      || ltb 8192 (length h.cookie)
      || not (all (λ ch. not (is_control ch)) h.cookie)
    then err auth_rejected
    else elim (c.parse_cookies h.cookie) [
      | none ↦ err auth_rejected
      | some parsed ↦ elim (selected c.cookie_names parsed) [
        | [] ↦ err auth_rejected
        | p ∷ ps ↦ ok (canonical_of (p ∷ ps))
      ]
    ]

-- the session key and the decision key of a request
unfoldable pub cwa_keys : Config → Headers → Option CwaSessionBinding → Result Error (Text × Text)
unfolding validated_cwa_binding selected_cookies cwa_decision_key
cwa_keys c h binding = do
  valid ← validated_cwa_binding c binding
  canonical ← selected_cookies c h
  ok (c.session_hash canonical, cwa_decision_key c (c.session_hash canonical) valid)

unfoldable pub decide : Text → Bool → Result Error AuthIdentity
decide session_key true =
    ok (record { subject = codes "cwa-session:" ++ session_key; roles = []; mode = cwa_session })
decide session_key false = err auth_rejected

-- `_authenticate_cwa_session`: `now` and `put_now` are the times that the cache reads, and `probed` is what
-- the flight of the probe gives, with none where the authority is unavailable
unfoldable pub authenticate_cwa_session :
    Config
    → Entries
    → Headers
    → Option CwaSessionBinding
    → ℕ
    → Option Bool
    → ℕ
    → Entries × Result Error AuthIdentity
unfolding cwa_keys get put decide
authenticate_cwa_session c entries h binding now probed put_now = elim (cwa_keys c h binding) [
  | err e ↦ (entries, err e)
  | ok (session_key, decision_key) ↦
      let (kept, cached) = get entries decision_key now in
      elim cached [
        | some valid ↦ (kept, decide session_key valid)
        | none ↦ elim probed [
          | none ↦ (kept, err auth_unavailable)
          | some valid ↦ (put c kept decision_key valid put_now, decide session_key valid)
        ]
      ]
]

-- `_authenticate_token`; `hmac.compare_digest` says whether the texts are equal
unfoldable pub authenticate_token : Config → Headers → Result Error AuthIdentity
unfolding is_safe_token
authenticate_token c h =
    if is_safe_token h.x_bt_token && text_eq h.x_bt_token c.api_token
    then ok (record {
      subject = codes "token:" ++ c.session_hash c.api_token;
      roles = codes "operator" ∷ [];
      mode = token;
    })
    else err auth_rejected

abbrev pub without_blank : List Text → List Text
without_blank [] = []
without_blank (t ∷ ts) =
    let rest = without_blank ts in if is_blank (strip t) then rest else strip t ∷ rest

-- `_ROLE_RE`
unfoldable pub is_alphanumeric : ℕ → Bool
is_alphanumeric ch =
    (leb 48 ch && leb ch 57) || (leb 65 ch && leb ch 90) || (leb 97 ch && leb ch 122)

unfoldable pub is_role_char : ℕ → Bool
unfolding is_alphanumeric
is_role_char ch =
    is_alphanumeric ch
    || ch == 95
    || ch == 46
    || ch == 58
    || ch == 64
    || ch == 47
    || ch == 43
    || ch == 45

unfoldable pub is_role : Text → Bool
unfolding is_role_char
is_role [] = false
is_role (ch ∷ chs) = is_alphanumeric ch && all is_role_char chs && leb (length chs) 63

unfoldable pub is_subject : Text → Bool
unfolding is_control
is_subject s =
    not (is_empty s)
    && text_eq s (strip s)
    && leb (length s) 512
    && all (λ ch. not (is_control ch)) s

-- `remote_addr or ""`
abbrev pub peer_text : Option Text → Text
peer_text none = []
peer_text (some a) = a

-- `_authenticate_forwarded`
unfoldable pub authenticate_forwarded : Config → Headers → Option Text → Result Error AuthIdentity
unfolding is_subject is_role
authenticate_forwarded c h remote_addr =
    let peer = peer_text remote_addr in
    let roles = without_blank (split_on 44 h.forwarded_roles) in
    if not (is_empty h.cookie)
    then err auth_rejected
    else if not (c.is_ip peer && c.in_networks peer)
    then err auth_rejected
    else if not (is_subject h.forwarded_subject)
    then err auth_rejected
    else if ltb 2048 (length h.forwarded_roles) || ltb 32 (length roles) || not (all is_role roles)
    then err auth_rejected
    else ok (record {
      subject = codes "forwarded:" ++ c.session_hash h.forwarded_subject;
      roles = roles;
      mode = forwarded;
    })

-- what the broker of reader sessions answers
pub data BrokerEnd : Type 0 where
  admitted : Text → BrokerEnd
  broker_rejected broker_unavailable : BrokerEnd

unfoldable pub from_broker : BrokerEnd → Result Error AuthIdentity
from_broker (admitted subject) =
    ok (record { subject = subject; roles = []; mode = reader_session })
from_broker broker_rejected = err auth_rejected
from_broker broker_unavailable = err auth_unavailable

-- `authenticate`
unfoldable pub authenticate :
    Config
    → Entries
    → Headers
    → Option Text
    → Option CwaSessionBinding
    → BrokerEnd
    → ℕ
    → Option Bool
    → ℕ
    → Entries × Result Error AuthIdentity
unfolding authenticate_token authenticate_forwarded from_broker authenticate_cwa_session
authenticate c entries h remote_addr binding broker now probed put_now = elim c.mode [
  | disabled ↦
      (entries, ok (record { subject = codes "legacy-anonymous"; roles = []; mode = disabled }))
  | token ↦ (entries, authenticate_token c h)
  | forwarded ↦ (entries, authenticate_forwarded c h remote_addr)
  | reader_session ↦ (entries, from_broker broker)
  | cwa_session ↦ authenticate_cwa_session c entries h binding now probed put_now
]
