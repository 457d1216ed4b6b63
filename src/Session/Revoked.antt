-- ===== src/Session/Revoked.antt =====
-- reader_session.py: sessions that end, and the bound on how many there are.
use Prim.Native.Nat.{◌≤◌}
use mathlib.Core.Path.{◌≡◌, refl, ap, sym, ◌∙◌}
use cwa_e_book_translate_plu.Prelude.{
  Result-cases, ℕ, arith, true, false, ok, err, List, [], ◌∷◌, none, some, Option-cases, subst,
  Text, text_eq, length, inl, inr,
}
use cwa_e_book_translate_plu.Session.{
  rejected, Headers, Cookies, Binding, is_token, parse_cookie_header,
}
use cwa_e_book_translate_plu.Session.Broker.{
  SessionRecord, Sessions, Broker, Exchange, token_digest, find, remove, put_last, alive, store,
  prepare, exchange, sole_token, presented, admit, authenticate, remove_prior, remove_token,
  revoke_token, revoke,
}
use cwa_e_book_translate_plu.Session.Store.{
  find-remove, find-remove-other, find-alive, find-evict, find-append-other, length-evict,
  length-remove, length-put_last,
}
use cwa_e_book_translate_plu.Session.Owner.{authenticate-admit}

-- No request that presents the token is let in.
unfoldable pub IsDead : Broker → Text → Sessions → Type 0
IsDead b token sessions =
    (now : ℕ) (h : Headers) (binding : Binding) (bound : Text × Text)
    → presented b h binding ≡ ok (token, bound)
    → authenticate b now h binding sessions ≡ (sessions, err rejected)

remove-absent : (d : Text) (xs : Sessions) → find d xs ≡ none → remove d xs ≡ xs
unfolding find remove
remove-absent d [] h = refl
remove-absent d ((e, r) ∷ xs) h = ground (arith, remove-absent d xs)

admit-absent :
    (b : Broker) (now : ℕ) (d : Text) (bound : Text × Text) (xs : Sessions)
    → find d xs ≡ none
    → admit b now d bound xs ≡ (xs, err rejected)
unfolding admit
admit-absent b now d bound xs h = ground (arith, remove-absent d xs h)

absent-IsDead :
    (b : Broker) (token : Text) (xs : Sessions)
    → find (token_digest b token) xs ≡ none
    → IsDead b token xs
unfolding IsDead
absent-IsDead b token xs e now h binding bound p =
    authenticate-admit b now h binding token bound xs p
    ∙ admit-absent b now (token_digest b token) bound xs e

find-remove_token :
    (b : Broker) (token : Text) (xs : Sessions)
    → is_token token ≡ true
    → find (token_digest b token) (remove_token b token xs) ≡ none
unfolding remove_token
find-remove_token b token xs t = ground (arith, find-remove (token_digest b token) xs)

revoke-unfold :
    (b : Broker) (now : ℕ) (h : Headers) (binding : Binding) (sessions : Sessions) (cs : Cookies)
    (token : Text)
    → parse_cookie_header h.cookie ≡ ok cs
    → sole_token b cs ≡ some token
    → is_token token ≡ true
    → revoke b now h binding sessions ≡ revoke_token b now h binding token sessions
unfolding revoke sole_token
revoke-unfold b now h binding sessions [] token p s t = ground arith
revoke-unfold b now h binding sessions (c ∷ cs) token p s t = rw (p, s, t, revoke) refl

revoke_token-IsDead :
    (b : Broker) (now : ℕ) (h : Headers) (binding : Binding) (token : Text) (sessions : Sessions)
    → is_token token ≡ true
    → (revoke_token b now h binding token sessions).1 ≡ ok tt
    → IsDead b token (revoke_token b now h binding token sessions).0
unfolding revoke_token
revoke_token-IsDead b now h binding token sessions t e =
    let after = (authenticate b now h binding sessions).0 in
    let gone =
      absent-IsDead b token (remove_token b token after) (find-remove_token b token after t) in
    elim (Result-cases (authenticate b now h binding sessions).1) [
      | inl (f, q) ↦ ground arith
      | inr (a, q) ↦ (rw (q, revoke_token) gone)
    ]

revoke-IsDead :
    (b : Broker) (now : ℕ) (h : Headers) (binding : Binding) (sessions : Sessions) (cs : Cookies)
    (token : Text)
    → parse_cookie_header h.cookie ≡ ok cs
    → sole_token b cs ≡ some token
    → is_token token ≡ true
    → (revoke b now h binding sessions).1 ≡ ok tt
    → IsDead b token (revoke b now h binding sessions).0
revoke-IsDead b now h binding sessions cs token p s t e =
    let same = revoke-unfold b now h binding sessions cs token p s t in
    let answered = sym (ap (λ r. r.1) same) ∙ e in
    subst (λ r. IsDead b token r.0) (sym same)
      (revoke_token-IsDead b now h binding token sessions t answered)

-- After a logout that succeeds and names a well-formed token, a request that presents the token is
-- rejected, at any time and from any browser, and it changes nothing.
pub revoke-authenticate :
    (b : Broker) (now : ℕ) (h : Headers) (binding : Binding) (sessions : Sessions) (cs : Cookies)
    (token : Text) (later_now : ℕ) (later : Headers) (other : Binding) (bound : Text × Text)
    → parse_cookie_header h.cookie ≡ ok cs
    → sole_token b cs ≡ some token
    → is_token token ≡ true
    → (revoke b now h binding sessions).1 ≡ ok tt
    → presented b later other ≡ ok (token, bound)
    → let after = (revoke b now h binding sessions).0 in
      authenticate b later_now later other after ≡ (after, err rejected)
unfolding IsDead
revoke-authenticate b now h binding sessions cs token later_now later other bound p s t e q =
    revoke-IsDead b now h binding sessions cs token p s t e later_now later other bound q

exchange-IsDead :
    (b : Broker) (x : Exchange) (h : Headers) (binding : Binding) (sessions : Sessions)
    (prior : Text) (r : SessionRecord)
    → prepare b x h binding ≡ ok (some prior, r)
    → is_token prior ≡ true
    → text_eq (token_digest b x.token) (token_digest b prior) ≡ false
    → IsDead b prior (exchange b x h binding sessions).0
unfolding exchange store remove_prior put_last
exchange-IsDead b x h binding sessions prior r e t n =
    let d = token_digest b prior in
    let absent = find-evict d b.max_entries _ (
      find-alive d x.now _ (
        find-append-other d (token_digest b x.token) r _ n (
          find-remove-other d (token_digest b x.token) _
            (find-remove_token b prior sessions t)))) in
    absent-IsDead b prior (exchange b x h binding sessions).0 (rw (e, exchange) absent)

-- A new exchange ends the browser's earlier session: where it succeeds with an earlier well-formed
-- token, whose digest is not that of the new token, a request that presents the earlier token is
-- rejected.
pub exchange-rotates :
    (b : Broker) (x : Exchange) (h later : Headers) (binding other : Binding) (sessions : Sessions)
    (prior : Text) (r : SessionRecord) (now : ℕ) (bound : Text × Text)
    → prepare b x h binding ≡ ok (some prior, r)
    → is_token prior ≡ true
    → text_eq (token_digest b x.token) (token_digest b prior) ≡ false
    → presented b later other ≡ ok (prior, bound)
    → (authenticate b now later other (exchange b x h binding sessions).0).1 ≡ err rejected
unfolding IsDead
exchange-rotates b x h later binding other sessions prior r now bound e t n q =
    ap (λ a. a.1) (exchange-IsDead b x h binding sessions prior r e t n now later other bound q)

-- One call of the broker.
pub data Event : Type 0 where
  exchanged : Exchange → Headers → Binding → Event
  authenticated revoked : ℕ → Headers → Binding → Event

unfoldable pub step : Broker → Event → Sessions → Sessions
step b (exchanged x h binding) sessions = (exchange b x h binding sessions).0
step b (authenticated now h binding) sessions = (authenticate b now h binding sessions).0
step b (revoked now h binding) sessions = (revoke b now h binding sessions).0

unfoldable pub run : Broker → List Event → Sessions → Sessions
run b [] sessions = sessions
run b (e ∷ es) sessions = run b es (step b e sessions)

admit-length :
    (b : Broker) (now : ℕ) (d : Text) (bound : Text × Text) (xs : Sessions)
    → length (admit b now d bound xs).0 ≤ length xs
unfolding admit
admit-length b now d bound xs = elim (Option-cases (find d xs)) [
  | inl e ↦ ground (arith, length-remove d xs)
  | inr (r, e) ↦ ground (arith, length-remove d xs, length-put_last d r r xs e)
]

authenticate-length :
    (b : Broker) (now : ℕ) (h : Headers) (binding : Binding) (xs : Sessions)
    → length (authenticate b now h binding xs).0 ≤ length xs
unfolding authenticate
authenticate-length b now h binding xs = elim (Result-cases (presented b h binding)) [
  | inl (e, q) ↦ ground arith
  | inr (p, q) ↦ ground (arith, admit-length b now (token_digest b p.0) p.1 xs)
]

exchange-length :
    (b : Broker) (x : Exchange) (h : Headers) (binding : Binding) (xs : Sessions)
    → length xs ≤ b.max_entries
    → length (exchange b x h binding xs).0 ≤ b.max_entries
unfolding exchange store
exchange-length b x h binding xs l = elim (Result-cases (prepare b x h binding)) [
  | inl (e, q) ↦ ground arith
  | inr (p, q) ↦ ground (
    arith,
    length-evict b.max_entries
        (alive x.now (put_last (token_digest b x.token) p.1 (remove_prior b p.0 xs))),
  )
]

remove_token-length :
    (b : Broker) (token : Text) (xs : Sessions) → length (remove_token b token xs) ≤ length xs
unfolding remove_token
remove_token-length b token xs = ground (arith, length-remove (token_digest b token) xs)

revoke_token-length :
    (b : Broker) (now : ℕ) (h : Headers) (binding : Binding) (token : Text) (xs : Sessions)
    → length (revoke_token b now h binding token xs).0 ≤ length xs
unfolding revoke_token
revoke_token-length b now h binding token xs =
    let (after, _) = authenticate b now h binding xs in
    elim (Result-cases (authenticate b now h binding xs).1) [
      | inl (e, q) ↦ ground (arith, authenticate-length b now h binding xs)
      | inr (a, q) ↦
          ground (arith, authenticate-length b now h binding xs, remove_token-length b token after)
    ]

revoke-length :
    (b : Broker) (now : ℕ) (h : Headers) (binding : Binding) (xs : Sessions)
    → length (revoke b now h binding xs).0 ≤ length xs
unfolding revoke
revoke-length b now h binding xs = elim (Result-cases (parse_cookie_header h.cookie)) [
  | inl (e, q) ↦ ground arith
  | inr ([], q) ↦ ground arith
  | inr (c ∷ cs, q) ↦ elim (Option-cases (sole_token b (c ∷ cs))) [
    | inl e ↦ ground arith
    | inr (token, e) ↦ ground (arith, revoke_token-length b now h binding token xs)
  ]
]

step-length :
    (b : Broker) (e : Event) (xs : Sessions)
    → length xs ≤ b.max_entries
    → length (step b e xs) ≤ b.max_entries
unfolding step
step-length b (exchanged x h binding) xs l = exchange-length b x h binding xs l
step-length b (authenticated now h binding) xs l =
    omega (arith, authenticate-length b now h binding xs)
step-length b (revoked now h binding) xs l = omega (arith, revoke-length b now h binding xs)

-- Whatever calls the broker answers, it never holds more than `max_entries` sessions.
pub run-bounded :
    (b : Broker) (events : List Event) (sessions : Sessions)
    → length sessions ≤ b.max_entries
    → length (run b events sessions) ≤ b.max_entries
unfolding run
run-bounded b [] sessions l = l
run-bounded b (e ∷ es) sessions l =
    run-bounded b es (step b e sessions) (step-length b e sessions l)
