-- ===== src/Paragraphs/Lookup.antt =====
-- server.py, `_cache_lookup`: the lookup of a single text.
use cwa_e_book_translate_plu.Prelude.{
  ap, ◌∙◌, ℕ, ◌≡◌, refl, arith, true, String, Result, ok, err, Result-cases, inl, inr, List, [],
  ◌∷◌, Option, none, some, Text,
}
use cwa_e_book_translate_plu.Envelope.Contract.{
  TranslationCacheContract, single_cache_contract, batch_cache_contract,
}
use cwa_e_book_translate_plu.Cache.{CacheScope}
use cwa_e_book_translate_plu.Cache.Store.{CacheStore, Fault, get}
use cwa_e_book_translate_plu.Paragraphs.{
  Request, Config, Env, Session, Failure, cache_lookup_backends, cache_scope, query_of, get_cached,
}
use cwa_e_book_translate_plu.Paragraphs.Written.{OneOf}

-- the contracts that `_cache_lookup` asks for; that of a batch is left out where it raises
unfoldable pub lookup_contracts : Config → Request → List (TranslationCacheContract Text)
lookup_contracts c r =
    single_cache_contract c.contracts
    ∷ (elim (batch_cache_contract c.contracts r.paragraphs (0 ∷ [])) [ err e ↦ [] | ok k ↦ k ∷ [] ])

-- `for contract in contracts`
unfoldable pub lookup_in :
    Config
    → Env
    → Request
    → String × String
    → List (TranslationCacheContract Text)
    → Session
    → Session × Result Failure (Option Text)
unfolding cache_scope get_cached
lookup_in c env r backend [] s = (s, ok none)
lookup_in c env r backend (k ∷ contracts) s = elim (cache_scope r k backend.0 backend.1) [
  | err e ↦ (s, err e)
  | ok scope ↦
      let (s', found) = get_cached c env s (query_of r scope 0) true in
      let rest = lookup_in c env r backend contracts s' in
      elim found [ err e ↦ (s', err e) | ok (some hit) ↦ (s', ok (some hit)) | ok none ↦ rest ]
]

-- `for provider, model in cache_lookup_backends(...)`
unfoldable pub lookup_backends :
    Config
    → Env
    → Request
    → List (TranslationCacheContract Text)
    → List (String × String)
    → Session
    → Session × Result Failure (Option Text)
unfolding lookup_in
lookup_backends c env r contracts [] s = (s, ok none)
lookup_backends c env r contracts (b ∷ backends) s =
    let (s', found) = lookup_in c env r b contracts s in
    let rest = lookup_backends c env r contracts backends s' in
    elim found [ err e ↦ (s', err e) | ok (some hit) ↦ (s', ok (some hit)) | ok none ↦ rest ]

-- `_cache_lookup` of the text of a request with one paragraph
unfoldable pub cache_lookup :
    Config → Env → Request → Session → Session × Result Failure (Option Text)
unfolding lookup_contracts lookup_backends cache_lookup_backends
cache_lookup c env r s =
    lookup_backends c env r (lookup_contracts c r)
      (cache_lookup_backends c.primary c.fallback r.allow_cloud_fallback) s

-- The cache, in some state, answers with the text under the scope of the backend and the contract.
abbrev pub Answers :
    Config → Request → String × String → TranslationCacheContract Text → Text → Type 0
Answers c r b k text =
    (scope : CacheScope) × (cache_scope r k b.0 b.1 ≡ ok scope)
    × (store : CacheStore) × (now : ℕ) × (f : Fault) × ((get c.cache store (query_of r scope 0) true
          now f).1
        ≡ ok (some text))

get_cached-get :
    (c : Config) (env : Env) (r : Request) (scope : CacheScope) (s : Session) (text : Text)
    → (get_cached c env s (query_of r scope 0) true).1 ≡ ok (some text)
    → (get c.cache s.store (query_of r scope 0) true (env.times s.calls) (env.faults s.calls)).1
      ≡ ok (some text)
unfolding get_cached
get_cached-get c env r scope s text e =
    elim (Result-cases
      (get c.cache s.store (query_of r scope 0) true (env.times s.calls) (env.faults s.calls)).1) [
        | inl (x, q) ↦ ground (arith, q, e)
        | inr (h, q) ↦ ground (arith, q, e)
      ]

lookup_in-Answers :
    (c : Config) (env : Env) (r : Request) (b : String × String)
    (ks : List (TranslationCacheContract Text)) (s : Session) (text : Text)
    → (lookup_in c env r b ks s).1 ≡ ok (some text)
    → (k : TranslationCacheContract Text) × OneOf k ks × Answers c r b k text
unfolding lookup_in
lookup_in-Answers c env r b [] s text e = ground arith
lookup_in-Answers c env r b (k ∷ ks) s text e = elim (Result-cases (cache_scope r k b.0 b.1)) [
  | inl (x, q) ↦ ground (arith, q, e)
  | inr (scope, q) ↦ elim (Result-cases (get_cached c env s (query_of r scope 0) true).1) [
    | inl (x, z) ↦ ground (arith, q, z, e)
    | inr (none, z) ↦
        let (k', o, a) =
          lookup_in-Answers c env r b ks (get_cached c env s (query_of r scope 0) true).0 text
            (ground (arith, q, z, e)) in
        (k', inr o, a)
    | inr (some hit, z) ↦
        let same : hit ≡ text = ground (arith, q, z, e) in
        (
          k,
          inl refl,
          (
            scope,
            q,
            s.store,
            env.times s.calls,
            env.faults s.calls,
            get_cached-get c env r scope s text (z ∙ ap (λ t. ok (some t)) same),
          ),
        )
  ]
]

lookup_backends-Answers :
    (c : Config) (env : Env) (r : Request) (ks : List (TranslationCacheContract Text))
    (bs : List (String × String)) (s : Session) (text : Text)
    → (lookup_backends c env r ks bs s).1 ≡ ok (some text)
    → (b : String × String) × OneOf b bs
      × (k : TranslationCacheContract Text) × OneOf k ks
      × Answers c r b k text
unfolding lookup_backends
lookup_backends-Answers c env r ks [] s text e = ground arith
lookup_backends-Answers c env r ks (b ∷ bs) s text e =
    elim (Result-cases (lookup_in c env r b ks s).1) [
      | inl (x, z) ↦ ground (arith, z, e)
      | inr (none, z) ↦
          let (b', o, k, p, a) =
            lookup_backends-Answers c env r ks bs (lookup_in c env r b ks s).0 text
              (ground (arith, z, e)) in
          (b', inr o, k, p, a)
      | inr (some hit, z) ↦
          let same : hit ≡ text = ground (arith, z, e) in
          let (k, p, a) = lookup_in-Answers c env r b ks s text (z ∙ ap (λ t. ok (some t)) same) in
          (b, inl refl, k, p, a)
    ]

-- A hit is what the cache answered under the single or the batch contract of the text, for a provider
-- and model that the request may look up.
pub cache_lookup-Answers :
    (c : Config) (env : Env) (r : Request) (s : Session) (text : Text)
    → (cache_lookup c env r s).1 ≡ ok (some text)
    → (b : String × String) × OneOf b
        (cache_lookup_backends c.primary c.fallback r.allow_cloud_fallback)
      × (k : TranslationCacheContract Text) × OneOf k (lookup_contracts c r)
      × Answers c r b k text
unfolding cache_lookup
cache_lookup-Answers c env r s text e =
    lookup_backends-Answers c env r (lookup_contracts c r)
      (cache_lookup_backends c.primary c.fallback r.allow_cloud_fallback) s text e
