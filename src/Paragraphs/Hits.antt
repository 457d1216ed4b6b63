-- ===== src/Paragraphs/Hits.antt =====
-- server.py, `_translate_paragraphs`: the hits that a group is served from.
use Prim.Native.Nat.{◌<◌}
use cwa_e_book_translate_plu.Prelude.{
  subst, sym, ◌∙◌, ℕ, ◌+◌, ◌≡◌, ◌≢◌, refl, arith, true, Result-cases, inl, inr, ok, List, [], ◌∷◌,
  some, Text, length, get_elem?, set, All,
}
use cwa_e_book_translate_plu.Cache.{CacheScope}
use cwa_e_book_translate_plu.Cache.Store.{record_hit}
use cwa_e_book_translate_plu.Window.Results.{In, Distinct, get-set_self, get-set_ne, length-set}
use cwa_e_book_translate_plu.Paragraphs.{
  Request, Config, Env, Session, query_of, Hit, Response, serve_hit, serve_hits,
}

-- The predicate of a text that the cache has for the paragraph, under the scope.
abbrev pub Found : Type 1
Found = CacheScope → ℕ → Text → Type 0

-- The hits are those of the indices, in their order and under one scope.
abbrev pub HitsOf : Found → CacheScope → List ℕ → List Hit → Type 0
HitsOf F scope [] [] = Unit
HitsOf F scope [] (h ∷ hits) = ⊥
HitsOf F scope (i ∷ group) [] = ⊥
HitsOf F scope (i ∷ group) (h ∷ hits) =
    (h.0 ≡ i) × (h.2 ≡ scope) × F scope i h.1 × HitsOf F scope group hits

-- the response with the hits, in their order
abbrev pub with_hits : Response → List Hit → Response
with_hits p [] = p
with_hits p (h ∷ hits) = with_hits (serve_hit p h) hits

pub serve_hits-with_hits :
    (c : Config) (env : Env) (r : Request) (s : Session) (p q : Response) (hits : List Hit)
    → (serve_hits c env r s p hits).1 ≡ ok q
    → with_hits p hits ≡ q
unfolding serve_hits
serve_hits-with_hits c env r s p q [] e = ground arith
serve_hits-with_hits c env r s p q ((i, text, scope) ∷ hits) e =
    elim (Result-cases
      (record_hit c.cache s.store (query_of r scope i) (env.times s.calls)
        (env.faults s.calls)).1) [
          | inl (x, z) ↦ ground (arith, z, e)
          | inr (n, z) ↦
              serve_hits-with_hits c env r
                (record {
                  store =
                      (record_hit c.cache s.store (query_of r scope i) (env.times s.calls)
                        (env.faults s.calls)).0;
                  calls = s.calls + 1;
                })
                (serve_hit p (i, text, scope)) q hits (ground (arith, z, e))
        ]

-- the paragraph is served from the cache, under the scope
abbrev pub FromCache : Found → CacheScope → Response → ℕ → Type 0
FromCache F scope p i =
    (text : Text) × F scope i text
    × (get_elem? p.translations i ≡ some text)
    × (get_elem? p.cached i ≡ some true)

abbrev pub SameAt : Response → Response → ℕ → Type 0
SameAt p q i =
    (get_elem? q.translations i ≡ get_elem? p.translations i)
    × (get_elem? q.cached i ≡ get_elem? p.cached i)

pub with_hits-SameAt :
    (F : Found) (scope : CacheScope) (group : List ℕ) (hits : List Hit) (p : Response) (j : ℕ)
    → HitsOf F scope group hits
    → ¬ (In j group)
    → SameAt p (with_hits p hits) j
unfolding serve_hit
with_hits-SameAt F scope [] [] p j h n = (refl, refl)
with_hits-SameAt F scope [] (x ∷ hits) p j h n = absurd h
with_hits-SameAt F scope (i ∷ group) [] p j h n = absurd h
with_hits-SameAt F scope (i ∷ group) (x ∷ hits) p j h n =
    let rest = with_hits-SameAt F scope group hits (serve_hit p x) j h.3 (λ q. n (inr q)) in
    let other : x.0 ≢ j = λ e. n (inl (sym e ∙ h.0)) in
    (
      rest.0 ∙ get-set_ne p.translations x.0 j x.1 other,
      rest.1 ∙ get-set_ne p.cached x.0 j true other,
    )

-- the two lists have a place for each paragraph
pub record IsSized (n : ℕ) (p : Response) : Type 0 where
  pub texts : length p.translations ≡ n
  pub flags : length p.cached ≡ n

pub with_hits-IsSized :
    (n : ℕ) (p : Response) (hits : List Hit) → IsSized n p → IsSized n (with_hits p hits)
unfolding serve_hit
with_hits-IsSized n p [] z = z
with_hits-IsSized n p (h ∷ hits) z = with_hits-IsSized n (serve_hit p h) hits (record {
  texts = length-set p.translations h.0 h.1 ∙ z.texts;
  flags = length-set p.cached h.0 true ∙ z.flags;
})

pub FromCache-SameAt :
    (F : Found) (scope : CacheScope) (p q : Response) (i : ℕ)
    → SameAt p q i
    → FromCache F scope p i
    → FromCache F scope q i
FromCache-SameAt F scope p q i s (text, found, a, b) = (text, found, s.0 ∙ a, s.1 ∙ b)

pub with_hits-FromCache :
    (F : Found) (scope : CacheScope) (n : ℕ) (group : List ℕ) (hits : List Hit) (p : Response)
    → HitsOf F scope group hits
    → Distinct group
    → All (λ i. i < n) group
    → IsSized n p
    → All (FromCache F scope (with_hits p hits)) group
unfolding serve_hit
with_hits-FromCache F scope n [] [] p h d b z = tt
with_hits-FromCache F scope n [] (x ∷ hits) p h d b z = tt
with_hits-FromCache F scope n (i ∷ group) [] p h d b z = absurd h
with_hits-FromCache F scope n (i ∷ group) (x ∷ hits) p h d b z =
    let next = serve_hit p x in
    let sized = with_hits-IsSized n p (x ∷ []) z in
    let here : FromCache F scope next i = (
      x.1,
      h.2,
      subst (λ k. get_elem? (set p.translations x.0 x.1) k ≡ some x.1) h.0
          (get-set_self p.translations x.0 x.1 (omega (arith, h.0, b.0, z.texts))),
      subst (λ k. get_elem? (set p.cached x.0 true) k ≡ some true) h.0
          (get-set_self p.cached x.0 true (omega (arith, h.0, b.0, z.flags))),
    ) in
    (
      FromCache-SameAt F scope next (with_hits next hits) i
          (with_hits-SameAt F scope group hits next i h.3 d.0) here,
      with_hits-FromCache F scope n group hits next h.3 d.1 b.1 sized,
    )
