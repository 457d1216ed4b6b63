-- ===== src/Paragraphs/Probed.antt =====
-- server.py, `_translate_paragraphs`: what the loops over the backends and contracts find, and what they
-- leave of the cache.
use cwa_e_book_translate_plu.Prelude.{
  ℕ, ◌+◌, ◌≡◌, refl, arith, Result-cases, inl, inr, ok, String, List, [], ◌∷◌, none, some, Text,
}
use cwa_e_book_translate_plu.Envelope.Contract.{TranslationCacheContract, single_cache_contract}
use cwa_e_book_translate_plu.Cache.{CacheScope}
use cwa_e_book_translate_plu.Cache.Store.{record_hit}
use cwa_e_book_translate_plu.Cache.Provenance.{record_hit-Has}
use cwa_e_book_translate_plu.Paragraphs.{
  Request, Config, Env, Session, cache_scope, query_of, Hit, probe_backend, probe_backends,
  cache_lookup_backends, probe_contracts, Response, Planned, serve_hit, serve_hits, serve_group,
}
use cwa_e_book_translate_plu.Paragraphs.Written.{OneOf}
use cwa_e_book_translate_plu.Paragraphs.Hits.{HitsOf}
use cwa_e_book_translate_plu.Paragraphs.Found.{
  InRows, Reached, IsFound, IsOf, probe_group-Reached, probe_group-HitsOf,
}

module _ (c : Config) (env : Env) (r : Request) (start : Session) where
  probe_backend-Reached :
      (k : TranslationCacheContract Text) (b : String × String) (s : Session) (group : List ℕ)
      → Reached start s
      → Reached start (probe_backend c env r k b s group).0
  unfolding probe_backend
  probe_backend-Reached k b s [] h = h
  probe_backend-Reached k b s (i ∷ group) h = elim (Result-cases (cache_scope r k b.0 b.1)) [
    | inl (x, z) ↦ rw (z, probe_backend) h
    | inr (scope, z) ↦
        rw (z, probe_backend) (probe_group-Reached c env r start scope s (i ∷ group) h)
  ]

  -- The hits are those of the group, under one scope of one of the backends and the contract.
  abbrev OneScope :
      TranslationCacheContract Text → List (String × String) → List ℕ → List Hit → Type 0
  OneScope k bs group hits =
      (scope : CacheScope) × HitsOf (IsFound c env r start) scope group hits
      × (b : String × String) × OneOf b bs
      × (cache_scope r k b.0 b.1 ≡ ok scope)

  probe_backends-Reached :
      (k : TranslationCacheContract Text) (bs : List (String × String)) (s : Session)
      (group : List ℕ)
      → Reached start s
      → Reached start (probe_backends c env r k bs s group).0
  unfolding probe_backends
  probe_backends-Reached k [] s group h = h
  probe_backends-Reached k (b ∷ bs) s group h =
      let next = probe_backend-Reached k b s group h in
      elim (Result-cases (probe_backend c env r k b s group).1) [
        | inl (x, z) ↦ rw (z, probe_backends) next
        | inr (some hits, z) ↦ rw (z, probe_backends) next
        | inr (none, z) ↦
            rw (z, probe_backends)
              (probe_backends-Reached k bs (probe_backend c env r k b s group).0 group next)
      ]

  probe_backend-OneScope :
      (k : TranslationCacheContract Text) (b : String × String) (s : Session) (group : List ℕ)
      (hits : List Hit)
      → Reached start s
      → (probe_backend c env r k b s group).1 ≡ ok (some hits)
      → OneScope k (b ∷ []) group hits
  unfolding probe_backend
  probe_backend-OneScope k b s [] hits h e = ground arith
  probe_backend-OneScope k b s (i ∷ group) hits h e =
      elim (Result-cases (cache_scope r k b.0 b.1)) [
        | inl (x, z) ↦ ground (arith, z, e)
        | inr (scope, z) ↦ (
          scope,
          probe_group-HitsOf c env r start scope s (i ∷ group) hits h (ground (arith, z, e)),
          b,
          inl refl,
          z,
        )
      ]

  probe_backends-OneScope :
      (k : TranslationCacheContract Text) (bs : List (String × String)) (s : Session)
      (group : List ℕ) (hits : List Hit)
      → Reached start s
      → (probe_backends c env r k bs s group).1 ≡ ok (some hits)
      → OneScope k bs group hits
  unfolding probe_backends
  probe_backends-OneScope k [] s group hits h e = ground arith
  probe_backends-OneScope k (b ∷ bs) s group hits h e =
      elim (Result-cases (probe_backend c env r k b s group).1) [
        | inl (x, z) ↦ ground (arith, z, e)
        | inr (none, z) ↦
            let (scope, of, d, o, made) =
              probe_backends-OneScope k bs (probe_backend c env r k b s group).0 group hits
                (probe_backend-Reached k b s group h) (ground (arith, z, e)) in
            (scope, of, d, inr o, made)
        | inr (some more, z) ↦
            let (scope, of, d, o, made) =
              probe_backend-OneScope k b s group hits h (ground (arith, z, e)) in
            (scope, of, d, elim o [ inl same ↦ inl same | inr x ↦ absurd x ], made)
      ]

  probe_contracts-Reached :
      (k : TranslationCacheContract Text) (s : Session) (group : List ℕ)
      → Reached start s
      → Reached start (probe_contracts c env r k s group).0
  unfolding probe_contracts
  probe_contracts-Reached k s group h =
      let bs = cache_lookup_backends c.primary c.fallback r.allow_cloud_fallback in
      let next = probe_backends-Reached k bs s group h in
      elim (Result-cases (probe_backends c env r k bs s group).1) [
        | inl (x, z) ↦ rw (z, probe_contracts) next
        | inr (some hits, z) ↦ rw (z, probe_contracts) next
        | inr (none, z) ↦
            rw (z, probe_contracts)
              (probe_backends-Reached (single_cache_contract c.contracts) bs
                (probe_backends c env r k bs s group).0 group next)
      ]

  pub probe_contracts-IsOf :
      (k : TranslationCacheContract Text) (s : Session) (group : List ℕ) (hits : List Hit)
      → Reached start s
      → (probe_contracts c env r k s group).1 ≡ ok (some hits)
      → (scope : CacheScope) × IsOf c r k scope × HitsOf (IsFound c env r start) scope group hits
  unfolding probe_contracts
  probe_contracts-IsOf k s group hits h e =
      let bs = cache_lookup_backends c.primary c.fallback r.allow_cloud_fallback in
      elim (Result-cases (probe_backends c env r k bs s group).1) [
        | inl (x, z) ↦ ground (arith, z, e)
        | inr (none, z) ↦
            let (scope, of, b, o, made) =
              probe_backends-OneScope (single_cache_contract c.contracts) bs
                (probe_backends c env r k bs s group).0 group hits
                (probe_backends-Reached k bs s group h) (ground (arith, z, e)) in
            (scope, (b, o, inr made), of)
        | inr (some more, z) ↦
            let (scope, of, b, o, made) =
              probe_backends-OneScope k bs s group hits h (ground (arith, z, e)) in
            (scope, (b, o, inl made), of)
      ]

  serve_hits-Reached :
      (s : Session) (p : Response) (hits : List Hit)
      → Reached start s
      → Reached start (serve_hits c env r s p hits).0
  unfolding serve_hits
  serve_hits-Reached s p [] h = h
  serve_hits-Reached s p ((i, t, scope) ∷ hits) h =
      let q = query_of r scope i in
      let now = env.times s.calls in
      let f = env.faults s.calls in
      let next : Session = record {
        store = (record_hit c.cache s.store q now f).0;
        calls = s.calls + 1;
      } in
      let known = record_hit-Has (InRows start.store.rows) c.cache s.store q now f h.known in
      let counted : Reached start next = record { known = known; later = omega (arith, h.later) } in
      elim (Result-cases (record_hit c.cache s.store q now f).1) [
        | inl (x, z) ↦ rw (z, serve_hits) counted
        | inr (n, z) ↦
            rw (z, serve_hits) (serve_hits-Reached next (serve_hit p (i, t, scope)) hits counted)
      ]

  pub serve_group-Reached :
      (s : Session) (p : Response) (g : Planned)
      → Reached start s
      → Reached start (serve_group c env r s p g).0
  unfolding serve_group
  serve_group-Reached s p g h =
      let next = probe_contracts-Reached g.1 s g.0 h in
      elim (Result-cases (probe_contracts c env r g.1 s g.0).1) [
        | inl (x, z) ↦ rw (z, serve_group) next
        | inr (none, z) ↦ rw (z, serve_group) next
        | inr (some hits, z) ↦
            rw (z, serve_group)
              (serve_hits-Reached (probe_contracts c env r g.1 s g.0).0 p hits next)
      ]
