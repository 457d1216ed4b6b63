-- ===== src/Auth/Probed.antt =====
-- auth.py, `_authenticate_cwa_session`: each identity rests on a probe of the authority.
use Prim.Native.Nat.{◌<◌}
use cwa_e_book_translate_plu.Prelude.{
  subst, sym, ap, ◌∙◌, ℕ, zero, suc, ◌+◌, ◌≡◌, refl, arith, ◌⊎◌, Bool, true, false, Bool-cases,
  Option-cases, Result-cases, inl, inr, ok, List, [], ◌∷◌, Option, some, Text, text_eq, text_eq_iff,
  drop, leb, All, All-append,
}
use cwa_e_book_translate_plu.Dict.{delete_key}
use cwa_e_book_translate_plu.Auth.{
  AuthIdentity, Headers, CwaSessionBinding, Config, Decision, Entries, find, get, put, cwa_keys,
  decide, authenticate_cwa_session,
}
use cwa_e_book_translate_plu.Auth.Bounded.{Attempt, run}

-- One of the attempts had this decision key, and its probe admitted it, with the reading `at`.
abbrev pub Admitted : Config → List Attempt → Text → ℕ → Type 0
Admitted c [] key at = ⊥
Admitted c (a ∷ more) key at =
    ((session_key : Text) × (cwa_keys c a.headers a.binding ≡ ok (session_key, key))
      × (a.probed ≡ some true)
      × (a.put_now ≡ at))
    ⊎ Admitted c more key at

abbrev Origin : Type 1
Origin = Text → ℕ → Type 0

-- A decision that admits has an origin, one time to live before it expires.
abbrev From : Config → Origin → Text × Decision → Type 0
From c P e = e.1.valid ≡ true → (at : ℕ) × (e.1.expires_at ≡ at + c.ttl) × P e.0 at

module _ (c : Config) where
  delete_key-From :
      (P : Origin) (key : Text) (entries : Entries)
      → All (From c P) entries
      → All (From c P) (delete_key key entries)
  unfolding delete_key
  delete_key-From P key [] a = tt
  delete_key-From P key ((j, d) ∷ entries) a = elim (Bool-cases (text_eq j key)) [
    | inl q ↦ rw (q, delete_key) (delete_key-From P key entries a.1)
    | inr q ↦ rw (q, delete_key) (a.0, delete_key-From P key entries a.1)
  ]

  drop-From :
      (P : Origin) (n : ℕ) (entries : Entries)
      → All (From c P) entries
      → All (From c P) (drop n entries)
  drop-From P zero entries a = a
  drop-From P (suc n) [] a = tt
  drop-From P (suc n) (e ∷ entries) a = drop-From P n entries a.1

  find-From :
      (P : Origin) (key : Text) (entries : Entries) (d : Decision)
      → find key entries ≡ some d
      → All (From c P) entries
      → From c P (key, d)
  unfolding find
  find-From P key [] d e a = ground arith
  find-From P key ((j, x) ∷ entries) d e a = elim (Bool-cases (text_eq j key)) [
    | inl q ↦
        let same : x ≡ d = ground (arith, q, e) in
        subst (λ (y : Decision). From c P (key, y)) same
          (subst (λ k. From c P (k, x)) ((text_eq_iff j key).0 q) a.0)
    | inr q ↦ find-From P key entries d (ground (arith, q, e)) a.1
  ]

  get-From :
      (P : Origin) (entries : Entries) (key : Text) (now : ℕ)
      → All (From c P) entries
      → All (From c P) (get entries key now).0
  unfolding get
  get-From P entries key now a = elim (Option-cases (find key entries)) [
    | inl e ↦ rw (e, get) a
    | inr (d, e) ↦ elim (Bool-cases (leb d.expires_at now)) [
      | inl q ↦ rw (e, q, get) (delete_key-From P key entries a)
      | inr q ↦
          rw (e, q, get)
            (All-append (From c P) (delete_key key entries) ((key, d) ∷ [])
              (delete_key-From P key entries a) (find-From P key entries d e a, tt))
    ]
  ]

  -- An answer that admits has an origin, less than one time to live before.
  get-origin :
      (P : Origin) (entries : Entries) (key : Text) (now : ℕ)
      → All (From c P) entries
      → (get entries key now).1 ≡ some true
      → (at : ℕ) × (now < at + c.ttl) × P key at
  unfolding get
  get-origin P entries key now a h = elim (Option-cases (find key entries)) [
    | inl e ↦ ground (arith, e, h)
    | inr (d, e) ↦ elim (Bool-cases (leb d.expires_at now)) [
      | inl q ↦ ground (arith, e, q, h)
      | inr q ↦
          let (at, x, o) = find-From P key entries d e a (ground (arith, e, q, h)) in
          (at, ground (arith, q, x), o)
    ]
  ]

  put-From :
      (P : Origin) (entries : Entries) (key : Text) (valid : Bool) (now : ℕ)
      → All (From c P) entries
      → (valid ≡ true → P key now)
      → All (From c P) (put c entries key valid now)
  unfolding put
  put-From P entries key valid now a h = drop-From P _ _ (
      All-append (From c P) (delete_key key entries)
        ((key, record { expires_at = now + c.ttl; valid = valid }) ∷ [])
        (delete_key-From P key entries a) ((λ e. (now, refl, h e)), tt))

  From-map :
      (P Q : Origin)
      → ((k : Text) (at : ℕ) → P k at → Q k at)
      → (entries : Entries) → All (From c P) entries
      → All (From c Q) entries
  From-map P Q f [] a = tt
  From-map P Q f (e ∷ entries) a =
      ((λ v. let (at, x, o) = a.0 v in (at, x, f e.0 at o)), From-map P Q f entries a.1)

  abbrev With : Origin → List Attempt → Origin
  With P more key at = P key at ⊎ Admitted c more key at

  attempt-From :
      (P : Origin) (entries : Entries) (a : Attempt)
      → All (From c P) entries
      → All
          (From c (With P (a ∷ [])))
          (authenticate_cwa_session c entries a.headers a.binding a.now a.probed a.put_now).0
  unfolding authenticate_cwa_session
  attempt-From P entries a h =
      let Q : Origin = With P (a ∷ []) in
      elim (Result-cases (cwa_keys c a.headers a.binding)) [
        | inl (e, q) ↦ rw (q, authenticate_cwa_session) (From-map P Q (λ k at o. inl o) entries h)
        | inr ((session_key, key), q) ↦
            let kept : All (From c Q) (get entries key a.now).0 =
              get-From Q entries key a.now (From-map P Q (λ k at o. inl o) entries h) in
            elim (Option-cases (get entries key a.now).1) [
              | inr (v, z) ↦ rw (q, z, authenticate_cwa_session) kept
              | inl z ↦ elim (Option-cases a.probed) [
                | inl w ↦
                    let same : (authenticate_cwa_session c entries a.headers a.binding a.now
                          a.probed a.put_now).0
                        ≡ (get entries key a.now).0 =
                      ground (arith, q, z, w) in
                    subst (All (From c Q)) (sym same) kept
                | inr (v, w) ↦
                    let same : (authenticate_cwa_session c entries a.headers a.binding a.now
                          a.probed a.put_now).0
                        ≡ put c (get entries key a.now).0 key v a.put_now =
                      ground (arith, q, z, w) in
                    subst (All (From c Q)) (sym same) (
                      put-From Q (get entries key a.now).0 key v a.put_now kept
                        (λ e. inr (inl (session_key, q, w ∙ ap some e, refl))))
              ]
            ]
      ]

  run-From :
      (P : Origin) (entries : Entries) (more : List Attempt)
      → All (From c P) entries
      → All (From c (With P more)) (run c entries more)
  unfolding run
  run-From P entries [] h = From-map P (With P []) (λ k at o. inl o) entries h
  run-From P entries (a ∷ more) h =
      From-map (With (With P (a ∷ [])) more) (With P (a ∷ more)) regroup _ (
        run-From (With P (a ∷ []))
          (authenticate_cwa_session c entries a.headers a.binding a.now a.probed a.put_now).0 more
          (attempt-From P entries a h))
    where
      regroup : (k : Text) (at : ℕ) → With (With P (a ∷ [])) more k at → With P (a ∷ more) k at
      regroup k at (inl (inl o)) = inl o
      regroup k at (inl (inr (inl x))) = inr (inl x)
      regroup k at (inl (inr (inr x))) = elim x [ ]
      regroup k at (inr x) = inr (inr x)

-- After any attempts from an empty cache, a request that is given an identity either was admitted by its
-- own probe, or has the decision key of an attempt whose probe was admitted less than the time to live
-- before; a request that the authority rejects or cannot decide gets none.
pub authenticate_cwa_session-Admitted :
    (c : Config) (attempts : List Attempt) (h : Headers) (binding : Option CwaSessionBinding)
    (now : ℕ) (probed : Option Bool) (put_now : ℕ) (identity : AuthIdentity)
    → (authenticate_cwa_session c (run c [] attempts) h binding now probed put_now).1 ≡ ok identity
    → (session_key : Text) × (key : Text) × (cwa_keys c h binding ≡ ok (session_key, key))
      × (decide session_key true ≡ ok identity)
      × ((probed ≡ some true) ⊎ ((at : ℕ) × (now < at + c.ttl) × Admitted c attempts key at))
unfolding authenticate_cwa_session decide
authenticate_cwa_session-Admitted c attempts h binding now probed put_now identity e =
    let entries = run c [] attempts in
    let Nowhere : Origin = λ k at. ⊥ in
    let from = run-From c Nowhere [] attempts tt in
    elim (Result-cases (cwa_keys c h binding)) [
      | inl (x, q) ↦ ground (arith, q, e)
      | inr ((session_key, key), q) ↦ elim (Option-cases (get entries key now).1) [
        | inr (false, z) ↦ ground (arith, q, z, e)
        | inr (true, z) ↦
            let (at, live, o) = get-origin c (With c Nowhere attempts) entries key now from z in
            (
              session_key,
              key,
              q,
              ground (arith, q, z, e),
              inr (at, live, elim o [ inl x ↦ absurd x | inr x ↦ x ]),
            )
        | inl z ↦ elim (Option-cases probed) [
          | inl w ↦ ground (arith, q, z, w, e)
          | inr (false, w) ↦ ground (arith, q, z, w, e)
          | inr (true, w) ↦ (session_key, key, q, ground (arith, q, z, w, e), inl w)
        ]
      ]
    ]
