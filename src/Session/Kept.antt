-- ===== src/Session/Kept.antt =====
-- reader_session.py: what the calls of the broker leave of a session that an exchange has issued.
use Prim.Native.Nat.{◌<◌}
use mathlib.Core.Path.{◌≡◌, refl, ap, sym, ◌∙◌}
use cwa_e_book_translate_plu.Prelude.{
  ℕ, arith, Option-cases, ok, List, [], ◌∷◌, Option, some, subst, Text, text_eq_iff, codes, ◌+◌,
  drop, inl, inr, All,
}
use cwa_e_book_translate_plu.Session.{Headers, Binding, binding_parts}
use cwa_e_book_translate_plu.Session.Broker.{
  SessionRecord, SessionIssue, new_record, Sessions, Broker, Exchange, hmac, token_digest, find,
  remove, put_last, remove_prior, store, exchange, presented, admit, authenticate, revoke,
}
use cwa_e_book_translate_plu.Session.Owner.{Prepared, Issued, exchange-Issued, authenticate-admit}
use cwa_e_book_translate_plu.Session.Revoked.{Event, exchanged, authenticated, revoked, step, run}
use cwa_e_book_translate_plu.Session.Only.{
  Only, alive-Only, evict-Only, append-Only, find-Only, authenticate-Only, exchange-Only,
  revoke-Only, remove-Only_self,
}

-- What the calls keep of a session: no later exchange draws its token.
abbrev pub DrawsOther : Text → Event → Type 0
DrawsOther token (exchanged x h binding) = ¬ (x.token ≡ token)
DrawsOther token (authenticated now h binding) = Unit
DrawsOther token (revoked now h binding) = Unit

store-Only_own :
    (b : Broker) (prior : Option Text) (token : Text) (now : ℕ) (r : SessionRecord) (xs : Sessions)
    → Only (token_digest b token) r (store b prior token now r xs)
unfolding store put_last
store-Only_own b prior token now r xs =
    let d = token_digest b token in
    evict-Only d r b.max_entries _ (
      alive-Only d r now _ (
        append-Only d r (remove d (remove_prior b prior xs)) (d, r)
          (remove-Only_self d r (remove_prior b prior xs)) (λ e. refl)))

module _ (b : Broker) (inj : (u v : Text) → b.mac u ≡ b.mac v → u ≡ v) where
  token_digest-inj : (u v : Text) → token_digest b u ≡ token_digest b v → u ≡ v
  unfolding token_digest hmac
  token_digest-inj u v e = ap (drop 6) (inj _ _ e)

  run-Only :
      (token : Text) (r : SessionRecord) (events : List Event) (xs : Sessions)
      → All (DrawsOther token) events
      → Only (token_digest b token) r xs
      → Only (token_digest b token) r (run b events xs)
  unfolding run step
  run-Only token r [] xs n h = h
  run-Only token r (exchanged x k binding ∷ es) xs n h =
      run-Only token r es (exchange b x k binding xs).0 n.1 (
        exchange-Only (token_digest b token) r b x k binding xs
          (λ e. n.0 (token_digest-inj x.token token e)) h)
  run-Only token r (authenticated now k binding ∷ es) xs n h =
      run-Only token r es (authenticate b now k binding xs).0 n.1
        (authenticate-Only (token_digest b token) r b now k binding xs h)
  run-Only token r (revoked now k binding ∷ es) xs n h =
      run-Only token r es (revoke b now k binding xs).0 n.1
        (revoke-Only (token_digest b token) r b now k binding xs h)

-- What a request that is let in has shown.
admit_sound :
    (b : Broker) (now : ℕ) (d : Text) (bound : Text × Text) (xs : Sessions) (r : SessionRecord)
    (subject : Text)
    → find d xs ≡ some r
    → (admit b now d bound xs).1 ≡ ok subject
    → (now < r.expires_at)
      × (r.address_binding ≡ hmac b (codes "address") bound.0)
      × (r.user_agent_binding ≡ hmac b (codes "user-agent") bound.1)
      × (subject ≡ r.subject)
unfolding admit
admit_sound b now d bound xs r subject f e =
    let a = text_eq_iff r.address_binding (hmac b (codes "address") bound.0) in
    let u = text_eq_iff r.user_agent_binding (hmac b (codes "user-agent") bound.1) in
    (ground arith, a.0 (ground arith), u.0 (ground arith), ground arith)

hmac-address :
    (b : Broker)
    → ((u v : Text) → b.mac u ≡ b.mac v → u ≡ v)
    → (u v : Text) → hmac b (codes "address") u ≡ hmac b (codes "address") v
    → u ≡ v
unfolding hmac
hmac-address b inj u v e = ap (drop 8) (inj _ _ e)

hmac-user_agent :
    (b : Broker)
    → ((u v : Text) → b.mac u ≡ b.mac v → u ≡ v)
    → (u v : Text) → hmac b (codes "user-agent") u ≡ hmac b (codes "user-agent") v
    → u ≡ v
unfolding hmac
hmac-user_agent b inj u v e = ap (drop 11) (inj _ _ e)

admit-found :
    (b : Broker) (now : ℕ) (d : Text) (bound : Text × Text) (xs : Sessions) (subject : Text)
    → (admit b now d bound xs).1 ≡ ok subject
    → (q : SessionRecord) × (find d xs ≡ some q)
unfolding admit
admit-found b now d bound xs subject e = elim (Option-cases (find d xs)) [
  | inl z ↦ absurd (ground (arith, z, e))
  | inr (q, z) ↦ (q, z)
]

-- If no two messages have the same HMAC, the token that an exchange issues authenticates, after
-- whatever later calls of the broker that draw other tokens, only before the expiry that the exchange
-- has set, which no use of the token puts off, as the subject it was issued to, and only a request with
-- the bindings of the exchange.
pub authenticate-same_owner :
    (b : Broker) (x : Exchange) (h later : Headers) (binding other : Binding) (sessions : Sessions)
    (issue : SessionIssue) (events : List Event) (now : ℕ) (bound : Text × Text) (subject : Text)
    → ((u v : Text) → b.mac u ≡ b.mac v → u ≡ v)
    → (exchange b x h binding sessions).1 ≡ ok issue
    → All (DrawsOther issue.token) events
    → presented b later other ≡ ok (issue.token, bound)
    → (authenticate b now later other (run b events (exchange b x h binding sessions).0)).1
      ≡ ok subject
    → (now < x.now + b.ttl)
      × (subject ≡ issue.subject)
      × (binding_parts b.compress binding ≡ ok bound)
unfolding Issued Prepared new_record
authenticate-same_owner b x h later binding other sessions issue events now bound subject inj e n p
      ok_subject =
    let (q, w) = exchange-Issued b x h binding sessions issue e in
    let (identity, mine, eb, et, er) = w.0 in
    let d = token_digest b issue.token in
    let first : Only d q.1 (exchange b x h binding sessions).0 = subst (Only d q.1) (sym w.1) (
      subst (λ t. Only (token_digest b t) q.1 (store b q.0 x.token x.now q.1 sessions)) (sym w.2)
        (store-Only_own b q.0 x.token x.now q.1 sessions)) in
    let xs = run b events (exchange b x h binding sessions).0 in
    let only = run-Only b inj issue.token q.1 events (exchange b x h binding sessions).0 n first in
    let admitted =
      sym (ap (λ a. a.1) (authenticate-admit b now later other issue.token bound xs p))
      ∙ ok_subject in
    let (r, found) = admit-found b now d bound xs subject admitted in
    let same : r ≡ new_record b x.now identity mine = find-Only d q.1 xs r only found ∙ er in
    let (live, a, u, es) = admit_sound b now d bound xs r subject found admitted in
    let same_address =
      hmac-address b inj mine.0 bound.0 (sym (ap (λ z. z.address_binding) same) ∙ a) in
    let same_agent =
      hmac-user_agent b inj mine.1 bound.1 (sym (ap (λ z. z.user_agent_binding) same) ∙ u) in
    (
      subst (λ z. now < z.expires_at) same live,
      es ∙ ap (λ z. z.subject) (same ∙ sym er) ∙ sym w.3,
      eb ∙ ap ok (ground arith),
    )
