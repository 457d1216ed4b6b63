-- ===== src/Auth/Vouched.antt =====
-- auth.py, `_authenticate_cwa_session`: which session, address and browser the authority has admitted.
use Prim.Native.Nat.{◌<◌}
use cwa_e_book_translate_plu.Prelude.{
  ap, ◌∙◌, ℕ, ◌+◌, ◌≡◌, arith, ◌⊎◌, true, inl, inr, ok, List, [], ◌∷◌, Option, some, Bool, Text,
  codes, ◌++◌,
}
use cwa_e_book_translate_plu.Auth.{
  AuthIdentity, CwaSessionBinding, Headers, Config, cwa_keys, decide, authenticate_cwa_session,
}
use cwa_e_book_translate_plu.Auth.Bounded.{Attempt, run}
use cwa_e_book_translate_plu.Auth.Probed.{Admitted, authenticate_cwa_session-Admitted}
use cwa_e_book_translate_plu.Auth.Forwarded.{cwa_keys-same}

-- One of the attempts had this session and this binding, and its probe admitted it, with the reading `at`.
abbrev pub Vouched : Config → List Attempt → Text → Option CwaSessionBinding → ℕ → Type 0
Vouched c [] session_key binding at = ⊥
Vouched c (a ∷ more) session_key binding at =
    ((key : Text) × (cwa_keys c a.headers a.binding ≡ ok (session_key, key))
      × (a.binding ≡ binding)
      × (a.probed ≡ some true)
      × (a.put_now ≡ at))
    ⊎ Vouched c more session_key binding at

Admitted-Vouched :
    (c : Config) (more : List Attempt) (h : Headers) (binding : Option CwaSessionBinding)
    (session_key key : Text) (at : ℕ)
    → ((u v : List Text) → c.decision_hash u ≡ c.decision_hash v → u ≡ v)
    → cwa_keys c h binding ≡ ok (session_key, key)
    → Admitted c more key at
    → Vouched c more session_key binding at
Admitted-Vouched c [] h binding s k at inj q o = o
Admitted-Vouched c (a ∷ more) h binding s k at inj q (inl (t, p, v, w)) =
    let same = cwa_keys-same c a.headers h a.binding binding t s k inj p q in
    inl (k, p ∙ ap (λ x. ok (x, k)) same.0, same.1, v, w)
Admitted-Vouched c (a ∷ more) h binding s k at inj q (inr o) =
    inr (Admitted-Vouched c more h binding s k at inj q o)

decide-subject :
    (s : Text) (i : AuthIdentity) → decide s true ≡ ok i → i.subject ≡ codes "cwa-session:" ++ s
unfolding decide
decide-subject s i d = ground (arith, d)

-- If no two lists of parts have the same digest, then after any attempts from an empty cache, a request
-- that is given an identity has a clean session and binding, the identity is that of its session, and
-- either its own probe was admitted, or an earlier attempt with the same session, address and User-Agent
-- had its probe admitted less than the time to live before.
pub authenticate_cwa_session-Vouched :
    (c : Config) (attempts : List Attempt) (h : Headers) (binding : Option CwaSessionBinding)
    (now : ℕ) (probed : Option Bool) (put_now : ℕ) (identity : AuthIdentity)
    → ((u v : List Text) → c.decision_hash u ≡ c.decision_hash v → u ≡ v)
    → (authenticate_cwa_session c (run c [] attempts) h binding now probed put_now).1 ≡ ok identity
    → (session_key : Text) × (key : Text) × (cwa_keys c h binding ≡ ok (session_key, key))
      × (identity.subject ≡ codes "cwa-session:" ++ session_key)
      × ((probed ≡ some true)
          ⊎ ((at : ℕ) × (now < at + c.ttl) × Vouched c attempts session_key binding at))
authenticate_cwa_session-Vouched c attempts h binding now probed put_now identity inj e =
    let (s, k, q, d, o) =
      authenticate_cwa_session-Admitted c attempts h binding now probed put_now identity e in
    (
      s,
      k,
      q,
      decide-subject s identity d,
      elim o [
        | inl p ↦ inl p
        | inr (at, l, x) ↦ inr (at, l, Admitted-Vouched c attempts h binding s k at inj q x)
      ],
    )
