-- ===== src/Session/Only.antt =====
-- reader_session.py: what each call of the broker leaves of the sessions under one digest.
use mathlib.Core.Path.{◌≡◌, sym, ◌∙◌}
use cwa_e_book_translate_plu.Prelude.{
  ℕ, suc, arith, ◌&&◌, Bool-cases, Option-cases, Result-cases, [], ◌∷◌, ◌++◌, Option, none, some,
  subst, Text, text_eq, text_eq_iff, codes, length, ltb, leb, inl, inr, All,
}
use cwa_e_book_translate_plu.Session.{Headers, Binding, is_token, parse_cookie_header}
use cwa_e_book_translate_plu.Session.Broker.{
  SessionRecord, Sessions, Broker, Exchange, hmac, token_digest, find, remove, put_last, alive,
  evict, remove_token, remove_prior, store, prepare, exchange, sole_token, presented, admit,
  authenticate, revoke_token, revoke,
}

-- All the sessions under the digest are this record.
abbrev pub Only : Text → SessionRecord → Sessions → Type 0
Only d r xs = All (λ (x : Text × SessionRecord). x.0 ≡ d → x.1 ≡ r) xs

module _ (d : Text) (r : SessionRecord) where
  remove-Only : (c : Text) (xs : Sessions) → Only d r xs → Only d r (remove c xs)
  unfolding remove
  remove-Only c [] h = tt
  remove-Only c ((e, q) ∷ xs) h = elim (Bool-cases (text_eq e c)) [
    | inl z ↦ rw (z, remove) (remove-Only c xs h.1)
    | inr z ↦ rw (z, remove) (h.0, remove-Only c xs h.1)
  ]

  pub alive-Only : (now : ℕ) (xs : Sessions) → Only d r xs → Only d r (alive now xs)
  unfolding alive
  alive-Only now [] h = tt
  alive-Only now ((e, q) ∷ xs) h = elim (Bool-cases (leb q.expires_at now)) [
    | inl z ↦ rw (z, alive) (alive-Only now xs h.1)
    | inr z ↦ rw (z, alive) (h.0, alive-Only now xs h.1)
  ]

  pub evict-Only : (limit : ℕ) (xs : Sessions) → Only d r xs → Only d r (evict limit xs)
  unfolding evict
  evict-Only limit [] h = tt
  evict-Only limit (x ∷ xs) h = elim (Bool-cases (ltb limit (suc (length xs)))) [
    | inl z ↦ rw (z, evict) (evict-Only limit xs h.1)
    | inr z ↦ rw (z, evict) h
  ]

  pub append-Only :
      (xs : Sessions) (x : Text × SessionRecord)
      → Only d r xs
      → (x.0 ≡ d → x.1 ≡ r)
      → Only d r (xs ++ x ∷ [])
  append-Only [] x h k = (k, tt)
  append-Only (y ∷ xs) x h k = (h.0, append-Only xs x h.1 k)

  pub find-Only : (xs : Sessions) (q : SessionRecord) → Only d r xs → find d xs ≡ some q → q ≡ r
  unfolding find
  find-Only [] q h e = ground arith
  find-Only ((c, p) ∷ xs) q h e = elim (Bool-cases (text_eq c d)) [
    | inl z ↦ let same : p ≡ q = ground (arith, z, e) in sym same ∙ h.0 ((text_eq_iff c d).0 z)
    | inr z ↦ find-Only xs q h.1 (ground (arith, z, e))
  ]

  put_last-Only :
      (c : Text) (q : SessionRecord) (xs : Sessions)
      → Only d r xs
      → (c ≡ d → q ≡ r)
      → Only d r (put_last c q xs)
  unfolding put_last
  put_last-Only c q xs h k = append-Only (remove c xs) (c, q) (remove-Only c xs h) k

  remove_prior-Only :
      (b : Broker) (prior : Option Text) (xs : Sessions)
      → Only d r xs
      → Only d r (remove_prior b prior xs)
  unfolding remove_prior remove_token
  remove_prior-Only b none xs h = h
  remove_prior-Only b (some t) xs h = elim (Bool-cases (is_token t)) [
    | inl z ↦ rw (z, remove_prior, remove_token) (remove-Only (token_digest b t) xs h)
    | inr z ↦ rw (z, remove_prior, remove_token) h
  ]

  store-Only :
      (b : Broker) (prior : Option Text) (token : Text) (now : ℕ) (q : SessionRecord)
      (xs : Sessions)
      → Only d r xs
      → (token_digest b token ≡ d → q ≡ r)
      → Only d r (store b prior token now q xs)
  unfolding store
  store-Only b prior token now q xs h k = evict-Only b.max_entries _ (
      alive-Only now _ (
        put_last-Only (token_digest b token) q (remove_prior b prior xs)
          (remove_prior-Only b prior xs h) k))

  admit-Only :
      (b : Broker) (now : ℕ) (c : Text) (bound : Text × Text) (xs : Sessions)
      → Only d r xs
      → Only d r (admit b now c bound xs).0
  unfolding admit
  admit-Only b now c bound xs h = elim (Option-cases (find c xs)) [
    | inl e ↦ rw (e, admit) (remove-Only c xs h)
    | inr (q, e) ↦
        let own : c ≡ d → q ≡ r = λ k. find-Only xs q h (subst (λ x. find x xs ≡ some q) k e) in
        elim (Bool-cases (leb q.expires_at now)) [
          | inl z ↦ rw (e, z, admit) (remove-Only c xs h)
          | inr z ↦
              elim (Bool-cases (
                text_eq q.address_binding (hmac b (codes "address") bound.0)
                && text_eq q.user_agent_binding (hmac b (codes "user-agent") bound.1))) [
                  | inl w ↦ rw (e, z, w, admit) (put_last-Only c q xs h own)
                  | inr w ↦ rw (e, z, w, admit) h
                ]
        ]
  ]

  pub authenticate-Only :
      (b : Broker) (now : ℕ) (h : Headers) (binding : Binding) (xs : Sessions)
      → Only d r xs
      → Only d r (authenticate b now h binding xs).0
  unfolding authenticate
  authenticate-Only b now h binding xs k = elim (Result-cases (presented b h binding)) [
    | inl (e, q) ↦ rw (q, authenticate) k
    | inr (p, q) ↦ rw (q, authenticate) (admit-Only b now (token_digest b p.0) p.1 xs k)
  ]

  pub exchange-Only :
      (b : Broker) (x : Exchange) (h : Headers) (binding : Binding) (xs : Sessions)
      → ¬ (token_digest b x.token ≡ d)
      → Only d r xs
      → Only d r (exchange b x h binding xs).0
  unfolding exchange
  exchange-Only b x h binding xs n k = elim (Result-cases (prepare b x h binding)) [
    | inl (e, q) ↦ rw (q, exchange) k
    | inr (p, q) ↦ rw (q, exchange) (store-Only b p.0 x.token x.now p.1 xs k (λ e. absurd (n e)))
  ]

  remove_token-Only :
      (b : Broker) (t : Text) (xs : Sessions) → Only d r xs → Only d r (remove_token b t xs)
  unfolding remove_prior remove_token
  remove_token-Only b t xs h = remove_prior-Only b (some t) xs h

  revoke_token-Only :
      (b : Broker) (now : ℕ) (h : Headers) (binding : Binding) (t : Text) (xs : Sessions)
      → Only d r xs
      → Only d r (revoke_token b now h binding t xs).0
  unfolding revoke_token
  revoke_token-Only b now h binding t xs k =
      let after = authenticate-Only b now h binding xs k in
      elim (Result-cases (authenticate b now h binding xs).1) [
        | inl (e, q) ↦ rw (q, revoke_token) after
        | inr (a, q) ↦
            rw (q, revoke_token) (remove_token-Only b t (authenticate b now h binding xs).0 after)
      ]

  pub revoke-Only :
      (b : Broker) (now : ℕ) (h : Headers) (binding : Binding) (xs : Sessions)
      → Only d r xs
      → Only d r (revoke b now h binding xs).0
  unfolding revoke
  revoke-Only b now h binding xs k = elim (Result-cases (parse_cookie_header h.cookie)) [
    | inl (e, q) ↦ rw (q, revoke) k
    | inr ([], q) ↦ rw (q, revoke) k
    | inr (c ∷ cs, q) ↦ elim (Option-cases (sole_token b (c ∷ cs))) [
      | inl e ↦ rw (q, e, revoke) k
      | inr (t, e) ↦ elim (Bool-cases (is_token t)) [
        | inl z ↦ rw (q, e, z, revoke) (revoke_token-Only b now h binding t xs k)
        | inr z ↦ rw (q, e, z, revoke) k
      ]
    ]
  ]

  pub remove-Only_self : (xs : Sessions) → Only d r (remove d xs)
  unfolding remove
  remove-Only_self [] = tt
  remove-Only_self ((e, q) ∷ xs) = elim (Bool-cases (text_eq e d)) [
    | inl z ↦ rw (z, remove) (remove-Only_self xs)
    | inr z ↦
        rw (z, remove)
          ((λ s. absurd (ground (arith, z, (text_eq_iff e d).1 s))), remove-Only_self xs)
  ]
