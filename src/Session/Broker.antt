-- ===== src/Session/Broker.antt =====
-- reader_session.py, `ReaderSessionBroker`: the sessions, oldest first, and the operations on them.
-- Each operation is one call; what it does under the lock is one step. `mac` is `hmac.digest` under
-- the broker's key.
use cwa_e_book_translate_plu.Prelude.{
  ℕ, suc, ◌+◌, ◌/◌, ◌%◌, not, ◌&&◌, Result, ok, err, ◌>>=◌, List, [], ◌∷◌, ◌++◌, Option, none, some,
  Text, codes, is_blank, text_eq, length, all, ltb, leb, if◌then◌else◌,
}
use cwa_e_book_translate_plu.Session.{
  Error, rejected, unavailable, type_error, Headers, Cookies, Binding, Compress, is_token,
  parse_cookie_header, binding_parts,
}
use cwa_e_book_translate_plu.Session.Credentials.{ReaderType, cwa, kavita, Credentials, credentials}

pub record SessionRecord : Type 0 where
  pub subject : Text
  pub expires_at : ℕ
  pub address_binding : Text
  pub user_agent_binding : Text

abbrev pub Sessions : Type 0
Sessions = List (Text × SessionRecord)

-- The configuration that `__init__` has accepted; `ttl` is in thousandths of a second.
pub record Broker : Type 0 where
  pub reader_type : ReaderType
  pub connector_id : Text
  pub public_origin : Text
  pub cookie_name : Text
  pub ttl : ℕ
  pub max_entries : ℕ
  pub mac : Text → Text
  pub compress : Compress

unfoldable pub hmac : Broker → Text → Text → Text
hmac b label value = b.mac (label ++ 0 ∷ value)

unfoldable pub token_digest : Broker → Text → Text
unfolding hmac
token_digest b token = hmac b (codes "token") token

abbrev pub hex_digit : ℕ → ℕ
hex_digit d = if ltb d 10 then 48 + d else 87 + d

-- `bytes.hex()`
unfoldable pub hex : Text → Text
hex [] = []
hex (c ∷ cs) = hex_digit (c / 16) ∷ hex_digit (c % 16) ∷ hex cs

abbrev pub type_name : ReaderType → Text
type_name cwa = codes "cwa"
type_name kavita = codes "kavita"

unfoldable pub subject_of : Broker → Text → Text
unfolding hmac hex
subject_of b identity =
    codes "reader-session:"
    ++ type_name b.reader_type
    ++ 58
      ∷ hex
          (hmac b (codes "subject") (type_name b.reader_type ++ 0 ∷ b.connector_id ++ 0 ∷ identity))

unfoldable pub validate_origin : Broker → Headers → Result Error Unit
validate_origin b h =
    if is_blank h.origin
    then err rejected
    else if not (all (λ c. ltb c 128) h.origin)
    then err type_error
    else if not (text_eq h.origin b.public_origin)
    then err rejected
    else if not (is_blank h.fetch_site) && not (text_eq h.fetch_site (codes "same-origin"))
    then err rejected
    else ok tt

unfoldable pub find : Text → Sessions → Option SessionRecord
find d [] = none
find d ((e, r) ∷ sessions) = if text_eq e d then some r else find d sessions

-- `self._sessions.pop(digest, None)`
unfoldable pub remove : Text → Sessions → Sessions
remove d [] = []
remove d ((e, r) ∷ sessions) =
    let rest = remove d sessions in if text_eq e d then rest else (e, r) ∷ rest

-- `self._sessions[digest] = record` and `move_to_end(digest)`
unfoldable pub put_last : Text → SessionRecord → Sessions → Sessions
unfolding remove
put_last d r sessions = remove d sessions ++ (d, r) ∷ []

-- the records that have not expired
unfoldable pub alive : ℕ → Sessions → Sessions
alive now [] = []
alive now ((e, r) ∷ sessions) =
    let rest = alive now sessions in if leb r.expires_at now then rest else (e, r) ∷ rest

-- `while len(self._sessions) > self.max_entries: popitem(last=False)`
unfoldable pub evict : ℕ → Sessions → Sessions
evict limit [] = []
evict limit (s ∷ sessions) =
    let rest = evict limit sessions in
    if ltb limit (suc (length sessions)) then rest else s ∷ sessions

unfoldable pub remove_token : Broker → Text → Sessions → Sessions
unfolding token_digest remove
remove_token b token sessions =
    if is_token token then remove (token_digest b token) sessions else sessions

unfoldable pub remove_prior : Broker → Option Text → Sessions → Sessions
unfolding remove_token
remove_prior b none sessions = sessions
remove_prior b (some token) sessions = remove_token b token sessions

-- What one exchange gets from outside: the reader's verdict, the new token, the clock.
pub record Exchange : Type 0 where
  pub probe : Credentials → Binding → Result Error Text
  pub token : Text
  pub now : ℕ

pub record SessionIssue : Type 0 where
  pub token : Text
  pub subject : Text
  pub expires_in : ℕ

unfoldable pub new_record : Broker → ℕ → Text → Text × Text → SessionRecord
unfolding subject_of hmac
new_record b now identity bound = record {
  subject = subject_of b identity;
  expires_at = now + b.ttl;
  address_binding = hmac b (codes "address") bound.0;
  user_agent_binding = hmac b (codes "user-agent") bound.1;
}

-- the part under the lock
unfoldable pub store : Broker → Option Text → Text → ℕ → SessionRecord → Sessions → Sessions
unfolding remove_prior token_digest put_last alive evict
store b prior token now r sessions =
    evict b.max_entries
      (alive now (put_last (token_digest b token) r (remove_prior b prior sessions)))

-- The checks before the lock: the prior token, and the record to store.
unfoldable pub prepare :
    Broker → Exchange → Headers → Binding → Result Error (Option Text × SessionRecord)
unfolding validate_origin new_record
prepare b x h binding = do
  _ ← validate_origin b h
  proof ← credentials b.reader_type b.cookie_name h
  identity ← x.probe proof.0 binding
  bound ← binding_parts b.compress binding
  if is_token x.token then ok (proof.1, new_record b x.now identity bound) else err unavailable

unfoldable pub exchange :
    Broker → Exchange → Headers → Binding → Sessions → Sessions × Result Error SessionIssue
unfolding prepare store
exchange b x h binding sessions = elim (prepare b x h binding) [
  | err e ↦ (sessions, err e)
  | ok p ↦ (
    store b p.0 x.token x.now p.1 sessions,
    ok (record { token = x.token; subject = p.1.subject; expires_in = b.ttl }),
  )
]

-- `set(cookies) != {self.cookie_name}`: the token is the only cookie
unfoldable pub sole_token : Broker → Cookies → Option Text
sole_token b [] = none
sole_token b ((name, token) ∷ []) = if text_eq name b.cookie_name then some token else none
sole_token b (_ ∷ _ ∷ _) = none

-- The record of a session that is presented at `now`, by the owner of these bindings.
unfoldable pub admit : Broker → ℕ → Text → Text × Text → Sessions → Sessions × Result Error Text
unfolding find remove put_last hmac
admit b now d bound sessions = elim (find d sessions) [
  | none ↦ (remove d sessions, err rejected)
  | some r ↦
      if leb r.expires_at now
      then (remove d sessions, err rejected)
      else if text_eq r.address_binding (hmac b (codes "address") bound.0)
          && text_eq r.user_agent_binding (hmac b (codes "user-agent") bound.1)
      then (put_last d r sessions, ok r.subject)
      else (sessions, err rejected)
]

-- The checks before the lock: the token, and the bindings of who presents it.
unfoldable pub presented : Broker → Headers → Binding → Result Error (Text × (Text × Text))
unfolding sole_token
presented b h binding =
    if not (is_blank h.authorization) then err rejected else elim (parse_cookie_header h.cookie) [
      | err e ↦ err e
      | ok cs ↦ elim (sole_token b cs) [
        | none ↦ err rejected
        | some token ↦
            if is_token token
            then elim (binding_parts b.compress binding) [
              | err e ↦ err e
              | ok bound ↦ ok (token, bound)
            ]
            else err rejected
      ]
    ]

unfoldable pub authenticate :
    Broker → ℕ → Headers → Binding → Sessions → Sessions × Result Error Text
unfolding presented admit token_digest
authenticate b now h binding sessions = elim (presented b h binding) [
  | err e ↦ (sessions, err e)
  | ok p ↦ admit b now (token_digest b p.0) p.1 sessions
]

unfoldable pub revoke_token :
    Broker → ℕ → Headers → Binding → Text → Sessions → Sessions × Result Error Unit
unfolding authenticate remove_token
revoke_token b now h binding token sessions =
    let (after, answer) = authenticate b now h binding sessions in
    elim answer [ err e ↦ (after, err e) | ok _ ↦ (remove_token b token after, ok tt) ]

unfoldable pub revoke : Broker → ℕ → Headers → Binding → Sessions → Sessions × Result Error Unit
unfolding revoke_token sole_token
revoke b now h binding sessions = elim (parse_cookie_header h.cookie) [
  | err e ↦ (sessions, err e)
  | ok [] ↦ (sessions, ok tt)
  | ok (c ∷ cs) ↦ elim (sole_token b (c ∷ cs)) [
    | none ↦ (sessions, err rejected)
    | some token ↦
        if is_token token then revoke_token b now h binding token sessions else (sessions, ok tt)
  ]
]
