-- ===== src/Paragraphs/Found.antt =====
-- server.py, `_translate_paragraphs`: where the hits of a group come from. The table at the start of the
-- call has a row of each hit, and all the hits of a group are under one scope, of one of the backends
-- that the request may look up.
use Prim.Native.Nat.{◌≤◌}
use cwa_e_book_translate_plu.Prelude.{
  subst, sym, ap, ◌∙◌, ℕ, ◌+◌, ◌≡◌, refl, arith, false, Bool, Result-cases, ◌⊎◌, inl, inr, ok,
  String, List, [], ◌∷◌, none, some, Text, All,
}
use cwa_e_book_translate_plu.Envelope.Contract.{
  TranslationCacheContract, single_cache_contract, batch_cache_contract,
}
use cwa_e_book_translate_plu.Cache.{CacheScope, Row, Query, payload}
use cwa_e_book_translate_plu.Cache.Store.{get}
use cwa_e_book_translate_plu.Cache.Provenance.{Trait, Has, select-Has, get-Has}
use cwa_e_book_translate_plu.Cache.Answers.{get-found}
use cwa_e_book_translate_plu.Paragraphs.{
  Request, Config, Env, Session, cache_scope, query_of, Hit, get_cached, probe_group,
  cache_lookup_backends, Planned, plan_groups,
}
use cwa_e_book_translate_plu.Paragraphs.Written.{OneOf}
use cwa_e_book_translate_plu.Paragraphs.Hits.{HitsOf}

-- One of the rows has this key, text and time of creation.
abbrev pub InRows : List Row → Trait
InRows rows key t at =
    (row : Row) × OneOf row rows
    × (row.cache_key ≡ key)
    × (row.translated_text ≡ t)
    × (row.created_at ≡ at)

rows-InRows :
    (rows all : List Row) → ((x : Row) → OneOf x rows → OneOf x all) → All (Has (InRows all)) rows
rows-InRows [] all h = tt
rows-InRows (x ∷ rows) all h =
    ((x, h x (inl refl), refl, refl, refl), rows-InRows rows all (λ y o. h y (inr o)))

-- The calls of the cache since the start have added no row.
pub record Reached (start s : Session) : Type 0 where
  pub known : All (Has (InRows start.store.rows)) s.store.rows
  pub later : start.calls ≤ s.calls

pub start-Reached : (s : Session) → Reached s s
start-Reached s = record {
  known = rows-InRows s.store.rows s.store.rows (λ x o. o);
  later = omega arith;
}

-- The table at the start of the call has the text, in the row of the key of the paragraph's text, the
-- languages and the scope, and the row lives at one of the times of the call.
abbrev pub IsFound : Config → Env → Request → Session → CacheScope → ℕ → Text → Type 0
IsFound c env r start scope i t =
    (row : Row) × OneOf row start.store.rows
    × (row.cache_key ≡ c.cache.hashing.digest (payload (query_of r scope i)))
    × (row.translated_text ≡ t)
    × (call : ℕ) × (start.calls ≤ call)
    × (env.times call ≤ row.created_at + c.cache.ttl)

-- The scope is that of a backend that the request may look up, under the contract of the group or that
-- of a single text.
abbrev pub IsOf : Config → Request → TranslationCacheContract Text → CacheScope → Type 0
IsOf c r k scope =
    (b : String × String) × OneOf b
      (cache_lookup_backends c.primary c.fallback r.allow_cloud_fallback)
    × ((cache_scope r k b.0 b.1 ≡ ok scope)
        ⊎ (cache_scope r (single_cache_contract c.contracts) b.0 b.1 ≡ ok scope))

abbrev pub IsUnder : Config → Request → List ℕ → CacheScope → Type 0
IsUnder c r group scope =
    (k : TranslationCacheContract Text) × (batch_cache_contract c.contracts r.paragraphs group
      ≡ ok k)
    × IsOf c r k scope

module _ (c : Config) (env : Env) (r : Request) (start : Session) where
  get_cached-Reached :
      (s : Session) (q : Query) (b : Bool)
      → Reached start s
      → Reached start (get_cached c env s q b).0
  unfolding get_cached
  get_cached-Reached s q b h = record {
    known =
        get-Has (InRows start.store.rows) c.cache s.store q b (env.times s.calls)
          (env.faults s.calls) h.known;
    later = omega (arith, h.later);
  }

  get_cached-IsFound :
      (scope : CacheScope) (s : Session) (i : ℕ) (t : Text)
      → Reached start s
      → (get_cached c env s (query_of r scope i) false).1 ≡ ok (some t)
      → IsFound c env r start scope i t
  unfolding get_cached
  get_cached-IsFound scope s i t h e =
      let q = query_of r scope i in
      let now = env.times s.calls in
      let f = env.faults s.calls in
      elim (Result-cases (get c.cache s.store q false now f).1) [
        | inl (x, z) ↦ absurd (ground (arith, z, e))
        | inr (hit, z) ↦
            let same : hit ≡ some t = ground (arith, z, e) in
            let (row, o, text, live) =
              get-found c.cache s.store q false now f t (z ∙ ap (λ x. ok x) same) in
            let (key, (first, one, k, u, made)) =
              select-Has (InRows start.store.rows) (c.cache.hashing.digest (payload q)) s.store.rows
                row h.known o in
            (
              first,
              one,
              k ∙ key,
              u ∙ text,
              s.calls,
              h.later,
              subst (λ at. now ≤ at + c.cache.ttl) (sym made) live,
            )
      ]

  pub probe_group-Reached :
      (scope : CacheScope) (s : Session) (group : List ℕ)
      → Reached start s
      → Reached start (probe_group c env r scope s group).0
  unfolding probe_group
  probe_group-Reached scope s [] h = h
  probe_group-Reached scope s (i ∷ group) h =
      let q = query_of r scope i in
      let next = get_cached-Reached s q false h in
      let rest = probe_group-Reached scope (get_cached c env s q false).0 group next in
      elim (Result-cases (get_cached c env s q false).1) [
        | inl (x, z) ↦ rw (z, probe_group) next
        | inr (none, z) ↦ rw (z, probe_group) next
        | inr (some t, z) ↦
            elim (Result-cases (probe_group c env r scope (get_cached c env s q false).0 group).1) [
              | inl (x, w) ↦ rw (z, w, probe_group) rest
              | inr (none, w) ↦ rw (z, w, probe_group) rest
              | inr (some more, w) ↦ rw (z, w, probe_group) rest
            ]
      ]

  pub probe_group-HitsOf :
      (scope : CacheScope) (s : Session) (group : List ℕ) (hits : List Hit)
      → Reached start s
      → (probe_group c env r scope s group).1 ≡ ok (some hits)
      → HitsOf (IsFound c env r start) scope group hits
  unfolding probe_group
  probe_group-HitsOf scope s [] [] h e = tt
  probe_group-HitsOf scope s [] (x ∷ hits) h e = ground arith
  probe_group-HitsOf scope s (i ∷ group) hits h e =
      let q = query_of r scope i in
      let s' = (get_cached c env s q false).0 in
      elim (Result-cases (get_cached c env s q false).1) [
        | inl (x, z) ↦ ground (arith, z, e)
        | inr (none, z) ↦ ground (arith, z, e)
        | inr (some t, z) ↦ elim (Result-cases (probe_group c env r scope s' group).1) [
          | inl (x, w) ↦ ground (arith, z, w, e)
          | inr (none, w) ↦ ground (arith, z, w, e)
          | inr (some more, w) ↦
              let same : (i, t, scope) ∷ more ≡ hits = ground (arith, z, w, e) in
              subst (HitsOf (IsFound c env r start) scope (i ∷ group)) same (
                refl,
                refl,
                get_cached-IsFound scope s i t h z,
                probe_group-HitsOf scope s' group more (get_cached-Reached s q false h) w,
              )
        ]
      ]

-- Each group stands with its own contract.
abbrev pub HasContract : Config → Request → Planned → Type 0
HasContract c r g = batch_cache_contract c.contracts r.paragraphs g.0 ≡ ok g.1

pub plan_groups-HasContract :
    (c : Config) (r : Request) (groups : List (List ℕ)) (planned : List Planned)
    → plan_groups c r groups ≡ ok planned
    → All (HasContract c r) planned
unfolding plan_groups
plan_groups-HasContract c r [] planned e =
    let same : [] ≡ planned = ground (arith, e) in subst (All (HasContract c r)) same tt
plan_groups-HasContract c r (g ∷ gs) planned e =
    elim (Result-cases (batch_cache_contract c.contracts r.paragraphs g)) [
      | inl (x, z) ↦ ground (arith, z, e)
      | inr (k, z) ↦ elim (Result-cases (plan_groups c r gs)) [
        | inl (x, w) ↦ ground (arith, z, w, e)
        | inr (rest, w) ↦
            let same : (g, k) ∷ rest ≡ planned = ground (arith, z, w, e) in
            subst (All (HasContract c r)) same (z, plan_groups-HasContract c r gs rest w)
      ]
    ]
