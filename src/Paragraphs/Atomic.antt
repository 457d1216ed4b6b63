-- ===== src/Paragraphs/Atomic.antt =====
-- server.py, `_translate_paragraphs`: a group is served whole from the cache, or not at all.
use Prim.Native.Nat.{◌<◌}
use cwa_e_book_translate_plu.Prelude.{
  subst, sym, ap, ◌∙◌, ℕ, ◌≡◌, refl, arith, Bool, true, false, Result-cases, ◌⊎◌, inl, inr, ok,
  List, [], ◌∷◌, none, some, get_elem?, if◌then◌else◌, All,
}
use cwa_e_book_translate_plu.Cache.{CacheScope}
use cwa_e_book_translate_plu.Window.Results.{Apart, Distinct}
use cwa_e_book_translate_plu.Window.Order.{AllApart}
use cwa_e_book_translate_plu.Window.Answered.{AllInside}
use cwa_e_book_translate_plu.Paragraphs.{
  Request, Config, Env, Session, Hit, probe_contracts, Response, Planned, serve_hits, serve_group,
  serve_groups,
}
use cwa_e_book_translate_plu.Paragraphs.Collect.{groups_of}
use cwa_e_book_translate_plu.Paragraphs.Found.{Reached, IsFound, IsUnder, HasContract}
use cwa_e_book_translate_plu.Paragraphs.Probed.{probe_contracts-IsOf, serve_group-Reached}
use cwa_e_book_translate_plu.Paragraphs.Hits.{
  Found, HitsOf, with_hits, serve_hits-with_hits, FromCache, SameAt, with_hits-SameAt, IsSized,
  with_hits-IsSized, FromCache-SameAt, with_hits-FromCache,
}

-- a paragraph is marked as not cached
abbrev pub IsFresh : Response → ℕ → Type 0
IsFresh p i = get_elem? p.cached i ≡ some false

-- The predicate of a scope that the group may be served under.
abbrev pub Under : Type 1
Under = List ℕ → CacheScope → Type 0

-- All paragraphs of the group are from the cache and under one scope, or none is from the cache.
abbrev pub IsAtomic : Under → Found → Response → List ℕ → Type 0
IsAtomic U F p group =
    ((scope : CacheScope) × U group scope × All (FromCache F scope p) group) ⊎ All (IsFresh p) group

-- What one round does to its group.
RoundOk : Under → Found → Response → Response → Bool → List ℕ → Type 0
RoundOk U F p q true group = p ≡ q
RoundOk U F p q false group =
    (scope : CacheScope) × (hits : List Hit) × HitsOf F scope group hits
    × (with_hits p hits ≡ q)
    × U group scope

serve_group-RoundOk :
    (c : Config) (env : Env) (r : Request) (start s : Session) (p q : Response) (g : Planned)
    (b : Bool)
    → Reached start s
    → HasContract c r g
    → (serve_group c env r s p g).1 ≡ ok (q, b)
    → RoundOk (IsUnder c r) (IsFound c env r start) p q b g.0
unfolding serve_group RoundOk
serve_group-RoundOk c env r start s p q g b h k e =
    let U = IsUnder c r in
    let F = IsFound c env r start in
    elim (Result-cases (probe_contracts c env r g.1 s g.0).1) [
      | inl (x, z) ↦ ground (arith, z, e)
      | inr (none, z) ↦
          let same : p ≡ q = ground (arith, z, e) in
          let missing : true ≡ b = ground (arith, z, e) in
          subst (λ m. RoundOk U F p q m g.0) missing same
      | inr (some hits, z) ↦
          let s' = (probe_contracts c env r g.1 s g.0).0 in
          let (scope, under, of) = probe_contracts-IsOf c env r start g.1 s g.0 hits h z in
          elim (Result-cases (serve_hits c env r s' p hits).1) [
            | inl (x, w) ↦ ground (arith, z, w, e)
            | inr (u, w) ↦
                let same : u ≡ q = ground (arith, z, w, e) in
                let served : false ≡ b = ground (arith, z, w, e) in
                subst (λ m. RoundOk U F p q m g.0) served
                  (
                    scope,
                    hits,
                    of,
                    serve_hits-with_hits c env r s' p u hits w ∙ same,
                    (g.1, k, under),
                  )
          ]
    ]

-- A group that is served has the texts of the cache; one that is missing is fresh and stays so.
abbrev pub Served : Under → Found → Response → List (List ℕ) → List ℕ → Type 0
Served U F p missing group =
    ((scope : CacheScope) × U group scope
      × All (FromCache F scope p) group
      × All (Apart group) missing)
    ⊎ All (IsFresh p) group

-- Nothing of the group changes.
abbrev pub Kept : Response → Response → List ℕ → Type 0
Kept p q group = All (SameAt p q) group

pub Kept-FromCache :
    (F : Found) (scope : CacheScope) (p q : Response) (g : List ℕ)
    → Kept p q g
    → All (FromCache F scope p) g
    → All (FromCache F scope q) g
Kept-FromCache F scope p q [] k a = tt
Kept-FromCache F scope p q (i ∷ g) k a =
    (FromCache-SameAt F scope p q i k.0 a.0, Kept-FromCache F scope p q g k.1 a.1)

pub Kept-IsFresh :
    (p q : Response) (g : List ℕ) → Kept p q g → All (IsFresh p) g → All (IsFresh q) g
Kept-IsFresh p q [] k a = tt
Kept-IsFresh p q (i ∷ g) k a = (k.0.1 ∙ a.0, Kept-IsFresh p q g k.1 a.1)

pub Kept_trans : (p q u : Response) (g : List ℕ) → Kept p q g → Kept q u g → Kept p u g
Kept_trans p q u [] a b = tt
Kept_trans p q u (i ∷ g) a b = ((b.0.0 ∙ a.0.0, b.0.1 ∙ a.0.1), Kept_trans p q u g a.1 b.1)

pub Kept_refl : (p : Response) (g : List ℕ) → Kept p p g
Kept_refl p [] = tt
Kept_refl p (i ∷ g) = ((refl, refl), Kept_refl p g)

-- One round keeps the groups that share no index with its own.
RoundOk-Kept :
    (U : Under) (F : Found) (p q : Response) (b : Bool) (group h : List ℕ)
    → RoundOk U F p q b group
    → Apart group h
    → Kept p q h
unfolding RoundOk
RoundOk-Kept U F p q b group [] k a = tt
RoundOk-Kept U F p q true group (i ∷ h) k a = subst (λ u. Kept p u (i ∷ h)) k (Kept_refl p (i ∷ h))
RoundOk-Kept U F p q false group (i ∷ h) (scope, hits, of, e, under) a = (
  subst (λ u. SameAt p u i) e (with_hits-SameAt F scope group hits p i of (λ z. a i z (inl refl))),
  RoundOk-Kept U F p q false group h (scope, hits, of, e, under) (λ j x y. a j x (inr y)),
)

RoundOk-IsSized :
    (U : Under) (F : Found) (n : ℕ) (p q : Response) (b : Bool) (group : List ℕ)
    → RoundOk U F p q b group
    → IsSized n p
    → IsSized n q
unfolding RoundOk
RoundOk-IsSized U F n p q true group k z = subst (IsSized n) k z
RoundOk-IsSized U F n p q false group (scope, hits, of, e, under) z =
    subst (IsSized n) e (with_hits-IsSized n p hits z)

Apart-sym : (g h : List ℕ) → Apart g h → Apart h g
Apart-sym g h a i x y = a i y x

-- What the loop over the groups comes to.
pub record LoopOk (U : Under) (F : Found) (n : ℕ) (p q : Response) (groups missing : List (List ℕ))
    : Type 0 where
  pub served : All (Served U F q missing) groups
  pub sized : IsSized n q
  pub kept : (h : List ℕ) → All (Apart h) groups → Kept p q h
  pub fewer : (h : List ℕ) → All (Apart h) groups → All (Apart h) missing

AllFresh-Kept :
    (p q : Response) (hs : List (List ℕ))
    → ((h : List ℕ) → Kept p q h)
    → All (λ h. All (IsFresh p) h) hs
    → All (λ h. All (IsFresh q) h) hs
AllFresh-Kept p q [] k a = tt
AllFresh-Kept p q (h ∷ hs) k a = (Kept-IsFresh p q h (k h) a.0, AllFresh-Kept p q hs k a.1)

AllFresh-RoundOk :
    (U : Under) (F : Found) (p q : Response) (b : Bool) (g : List ℕ) (hs : List (List ℕ))
    → RoundOk U F p q b g
    → All (Apart g) hs
    → All (λ h. All (IsFresh p) h) hs
    → All (λ h. All (IsFresh q) h) hs
AllFresh-RoundOk U F p q b g [] k a f = tt
AllFresh-RoundOk U F p q b g (h ∷ hs) k a f = (
  Kept-IsFresh p q h (RoundOk-Kept U F p q b g h k a.0) f.0,
  AllFresh-RoundOk U F p q b g hs k a.1 f.1,
)

Served-more :
    (U : Under) (F : Found) (q : Response) (g : List ℕ) (missing hs : List (List ℕ))
    → All (Apart g) hs
    → All (Served U F q missing) hs
    → All (Served U F q (g ∷ missing)) hs
Served-more U F q g missing [] a s = tt
Served-more U F q g missing (h ∷ hs) a s = (
  elim s.0 [
    | inl (scope, under, f, apart) ↦ inl (scope, under, f, (Apart-sym g h a.0, apart))
    | inr f ↦ inr f
  ],
  Served-more U F q g missing hs a.1 s.1,
)

round_LoopOk :
    (U : Under) (F : Found) (n : ℕ) (p q u : Response) (b : Bool) (g : List ℕ)
    (gs missing : List (List ℕ))
    → RoundOk U F p q b g
    → LoopOk U F n q u gs missing
    → IsSized n p
    → All (Apart g) gs
    → Distinct g
    → All (λ i. i < n) g
    → All (IsFresh p) g
    → LoopOk U F n p u (g ∷ gs) (if b then g ∷ missing else missing)
unfolding RoundOk
round_LoopOk U F n p q u true g gs missing k l z a d i f = record {
  served = (
    inr (Kept-IsFresh p u g (subst (λ v. Kept v u g) (sym k) (l.kept g a)) f),
    Served-more U F u g missing gs a l.served,
  );
  sized = l.sized;
  kept = λ h x.
      Kept_trans p q u h (RoundOk-Kept U F p q true g h k (Apart-sym h g x.0)) (l.kept h x.1);
  fewer = λ h x. (x.0, l.fewer h x.1);
}
round_LoopOk U F n p q u false g gs missing (scope, hits, of, e, under) l z a d i f = record {
  served = (
    inl (
      scope,
      under,
      Kept-FromCache F scope q u g (l.kept g a) (
          subst (λ v. All (FromCache F scope v) g) e
            (with_hits-FromCache F scope n g hits p of d i z)),
      l.fewer g a,
    ),
    l.served,
  );
  sized = l.sized;
  kept = λ h x.
      Kept_trans p q u h
        (RoundOk-Kept U F p q false g h (scope, hits, of, e, under) (Apart-sym h g x.0))
        (l.kept h x.1);
  fewer = λ h x. l.fewer h x.1;
}

pub serve_groups-LoopOk :
    (c : Config) (env : Env) (r : Request) (start : Session) (n : ℕ) (s : Session) (p u : Response)
    (planned missing : List Planned)
    → Reached start s
    → All (HasContract c r) planned
    → (serve_groups c env r s p planned).1 ≡ ok (u, missing)
    → AllApart (groups_of planned)
    → AllInside n (groups_of planned)
    → IsSized n p
    → All (λ h. All (IsFresh p) h) (groups_of planned)
    → LoopOk (IsUnder c r) (IsFound c env r start) n p u (groups_of planned) (groups_of missing)
unfolding serve_groups
serve_groups-LoopOk c env r start n s p u [] missing h own e a i z f =
    let U = IsUnder c r in
    let F = IsFound c env r start in
    let same : p ≡ u = ground (arith, e) in
    let none_missing : [] ≡ missing = ground (arith, e) in
    subst (λ ms. LoopOk U F n p u [] (groups_of ms)) none_missing
      (record {
        served = tt;
        sized = subst (IsSized n) same z;
        kept = λ h x. subst (λ v. Kept p v h) same (Kept_refl p h);
        fewer = λ h x. tt;
      })
serve_groups-LoopOk c env r start n s p u (g ∷ planned) missing h own e a i z f =
    let U = IsUnder c r in
    let F = IsFound c env r start in
    elim (Result-cases (serve_group c env r s p g).1) [
      | inl (x, w) ↦ ground (arith, w, e)
      | inr ((q, b), w) ↦
          let k = serve_group-RoundOk c env r start s p q g b h own.0 w in
          let s' = (serve_group c env r s p g).0 in
          elim (Result-cases (serve_groups c env r s' q planned).1) [
            | inl (x, v) ↦ ground (arith, w, v, e)
            | inr ((t, rest), v) ↦
                let same : t ≡ u = ground (arith, w, v, e) in
                let which : (if b then g ∷ rest else rest) ≡ missing = ground (arith, w, v, e) in
                let l =
                  serve_groups-LoopOk c env r start n s' q t planned rest
                    (serve_group-Reached c env r start s p g h) own.1 v a.1 i.2
                    (RoundOk-IsSized U F n p q b g.0 k z)
                    (AllFresh-RoundOk U F p q b g.0 (groups_of planned) k a.0 f.1) in
                let both =
                  round_LoopOk U F n p q t b g.0 (groups_of planned) (groups_of rest) k l z a.0 i.0
                    i.1 f.0 in
                subst (λ v. LoopOk U F n p v (groups_of (g ∷ planned)) (groups_of missing)) same
                  (subst (LoopOk U F n p t (groups_of (g ∷ planned)))
                    (missing_groups b g rest ∙ ap groups_of which) both)
          ]
    ]
  where
    missing_groups :
        (b : Bool) (h : Planned) (rest : List Planned)
        → (if b then h.0 ∷ groups_of rest else groups_of rest)
          ≡ groups_of (if b then h ∷ rest else rest)
    missing_groups true h rest = refl
    missing_groups false h rest = refl
