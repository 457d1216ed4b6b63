-- ===== src/Session/Owner.antt =====
-- reader_session.py: who a session that an exchange has issued is good for.
use Prim.Native.Nat.{◌≤◌, ◌<◌}
use mathlib.Core.Path.{◌≡◌, refl, sym}
use cwa_e_book_translate_plu.Prelude.{
  bind-ok, ℕ, ◌+◌, arith, true, Bool-cases, Result, ok, err, [], ◌∷◌, Option, some, subst, Text,
  codes, is_blank, text_eq_refl, inl, inr,
}
use cwa_e_book_translate_plu.Session.{
  Error, Headers, Binding, binding_parts, is_token, parse_cookie_header,
}
use cwa_e_book_translate_plu.Session.Credentials.{credentials}
use cwa_e_book_translate_plu.Session.Broker.{
  SessionRecord, Sessions, Broker, Exchange, SessionIssue, hmac, token_digest, find, remove,
  put_last, alive, validate_origin, new_record, prepare, store, exchange, sole_token, presented,
  admit, authenticate, remove_prior,
}
use cwa_e_book_translate_plu.Session.Store.{
  find-remove, find-alive, find-evict-last, alive-append-last,
}

-- What an exchange that succeeds has checked.
unfoldable pub Prepared :
    Broker → Exchange → Headers → Binding → Option Text × SessionRecord → Type 0
Prepared b x h binding p =
    (identity : Text) × (bound : Text × Text) × (binding_parts b.compress binding ≡ ok bound)
    × (is_token x.token ≡ true)
    × (p.1 ≡ new_record b x.now identity bound)

pub prepare-Prepared :
    (b : Broker) (x : Exchange) (h : Headers) (binding : Binding) (p : Option Text × SessionRecord)
    → prepare b x h binding ≡ ok p
    → Prepared b x h binding p
unfolding prepare Prepared
prepare-Prepared b x h binding p e =
    let (u, _, e1) = bind-ok (validate_origin b h) _ p e in
    let (proof, _, e2) = bind-ok (credentials b.reader_type b.cookie_name h) _ p e1 in
    let (identity, _, e3) = bind-ok (x.probe proof.0 binding) _ p e2 in
    let (bound, e4, e5) = bind-ok (binding_parts b.compress binding) _ p e3 in
    elim (Bool-cases (is_token x.token)) [
      | inl t ↦ (identity, bound, e4, t, ground arith)
      | inr t ↦ ground arith
    ]

-- A session that has just been stored is found, as long as it lives.
pub find-store :
    (b : Broker) (prior : Option Text) (token : Text) (now : ℕ) (r : SessionRecord) (xs : Sessions)
    → 1 ≤ b.max_entries
    → now < r.expires_at
    → find (token_digest b token) (store b prior token now r xs) ≡ some r
unfolding store put_last
find-store b prior token now r xs m l =
    let d = token_digest b token in
    let ys = remove d (remove_prior b prior xs) in
    let found =
      find-evict-last b.max_entries d r (alive now ys) m
        (find-alive d now ys (find-remove d (remove_prior b prior xs))) in
    (rw (alive-append-last now d r ys l) found)

-- A cookie header with this token as its only cookie, and no other proof.
unfoldable pub Presents : Broker → Headers → Text → Type 0
Presents b h token =
    (h.authorization ≡ []) × (parse_cookie_header h.cookie ≡ ok ((b.cookie_name, token) ∷ []))

pub presented-ok :
    (b : Broker) (h : Headers) (binding : Binding) (token : Text) (bound : Text × Text)
    → Presents b h token
    → is_token token ≡ true
    → binding_parts b.compress binding ≡ ok bound
    → presented b h binding ≡ ok (token, bound)
unfolding presented sole_token Presents is_blank
presented-ok b h binding token bound (a, c) t e = rw (a, c, text_eq_refl b.cookie_name, t, e) refl

-- What an exchange that succeeds leaves behind.
unfoldable pub Issued :
    Broker
    → Exchange
    → Headers
    → Binding
    → Sessions
    → SessionIssue
    → Option Text × SessionRecord
    → Type 0
Issued b x h binding sessions issue p =
    Prepared b x h binding p
    × ((exchange b x h binding sessions).0 ≡ store b p.0 x.token x.now p.1 sessions)
    × (issue.token ≡ x.token)
    × (issue.subject ≡ p.1.subject)

exchange-by :
    (b : Broker) (x : Exchange) (h : Headers) (binding : Binding) (sessions : Sessions)
    (issue : SessionIssue) (q : Result Error (Option Text × SessionRecord))
    → prepare b x h binding ≡ q
    → (exchange b x h binding sessions).1 ≡ ok issue
    → (p : Option Text × SessionRecord) × (prepare b x h binding ≡ ok p)
      × ((exchange b x h binding sessions).0 ≡ store b p.0 x.token x.now p.1 sessions)
      × (issue.token ≡ x.token)
      × (issue.subject ≡ p.1.subject)
unfolding exchange
exchange-by b x h binding sessions issue (err f) pe e = ground arith
exchange-by b x h binding sessions issue (ok p) pe e =
    (p, pe, ground arith, ground arith, ground arith)

pub exchange-Issued :
    (b : Broker) (x : Exchange) (h : Headers) (binding : Binding) (sessions : Sessions)
    (issue : SessionIssue)
    → (exchange b x h binding sessions).1 ≡ ok issue
    → (p : Option Text × SessionRecord) × Issued b x h binding sessions issue p
unfolding Issued
exchange-Issued b x h binding sessions issue e =
    let (p, pe, es, et, ej) =
      exchange-by b x h binding sessions issue (prepare b x h binding) refl e in
    (p, (prepare-Prepared b x h binding p pe, es, et, ej))

pub admit-ok :
    (b : Broker) (now : ℕ) (d : Text) (bound : Text × Text) (xs : Sessions) (r : SessionRecord)
    → find d xs ≡ some r
    → now < r.expires_at
    → r.address_binding ≡ hmac b (codes "address") bound.0
    → r.user_agent_binding ≡ hmac b (codes "user-agent") bound.1
    → (admit b now d bound xs).1 ≡ ok r.subject
unfolding admit
admit-ok b now d bound xs r f l a u = ground (
  arith,
  text_eq_refl (hmac b (codes "address") bound.0),
  text_eq_refl (hmac b (codes "user-agent") bound.1),
)

pub authenticate-admit :
    (b : Broker) (now : ℕ) (h : Headers) (binding : Binding) (token : Text) (bound : Text × Text)
    (xs : Sessions)
    → presented b h binding ≡ ok (token, bound)
    → authenticate b now h binding xs ≡ admit b now (token_digest b token) bound xs
unfolding authenticate
authenticate-admit b now h binding token bound xs e = rw (e, authenticate) refl

-- After an exchange that succeeds, its cookie alone, sent by the same browser from the same address
-- before the session expires, authenticates the subject that the exchange has issued.
pub exchange-authenticate :
    (b : Broker) (x : Exchange) (h later : Headers) (binding : Binding) (sessions : Sessions)
    (issue : SessionIssue) (now : ℕ)
    → 1 ≤ b.max_entries
    → (exchange b x h binding sessions).1 ≡ ok issue
    → Presents b later issue.token
    → x.now ≤ now
    → now < x.now + b.ttl
    → (authenticate b now later binding (exchange b x h binding sessions).0).1 ≡ ok issue.subject
unfolding Issued Prepared new_record
exchange-authenticate b x h later binding sessions issue now m e p l k =
    let (q, w) = exchange-Issued b x h binding sessions issue e in
    let (identity, bound, eb, t, er) = w.0 in
    let d = token_digest b x.token in
    let found = find-store b q.0 x.token x.now q.1 sessions m (ground arith) in
    let seen = presented-ok b later binding x.token bound (subst (Presents b later) w.2 p) t eb in
    let admitted =
      admit-ok b now d bound (store b q.0 x.token x.now q.1 sessions) q.1 found (ground arith)
        (ground arith) (ground arith) in
    subst (λ s. (authenticate b now later binding s).1 ≡ ok issue.subject) (sym w.1)
      (rw
        (
          authenticate-admit b now later binding x.token bound
              (store b q.0 x.token x.now q.1 sessions) seen,
          w.3,
        )
        admitted)
