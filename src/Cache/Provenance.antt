-- ===== src/Cache/Provenance.antt =====
-- cache.py: where the rows come from, and so what a lookup may answer.
use cwa_e_book_translate_plu.Prelude.{
  subst, sym, ℕ, ◌+◌, ◌≡◌, refl, arith, Bool, Bool-cases, Option-cases, Result-cases, inl, inr,
  Value, List, [], ◌∷◌, some, Text, text_eq, text_eq_iff, length, leb, All,
}
use cwa_e_book_translate_plu.Cache.{
  Row, Query, compute_key, select, is_older, delete_where, delete_expired, overwrite, upsert,
  upsert_all, enforce_cap, add_hits, add_all_hits,
}
use cwa_e_book_translate_plu.Cache.Store.{
  retention_of, count_up, Config, CacheStore, Fault, commits, insert_fails, commit_fails, is_fault,
  flush_hits, queue_hit, record_hit, drop_row, found, get, threshold, retained, write_rows, cleanup,
  stats,
}

-- A property of a row's key, text and time of creation.
abbrev pub Trait : Type 1
Trait = Text → Text → ℕ → Type 0

abbrev pub Has : Trait → Row → Type 0
Has P r = P r.cache_key r.translated_text r.created_at

module _ (P : Trait) where
  pub delete_where-Has :
      (test : Row → Bool) (rows : List Row)
      → All (Has P) rows
      → All (Has P) (delete_where test rows)
  unfolding delete_where
  delete_where-Has test [] h = tt
  delete_where-Has test (r ∷ rows) h = elim (Bool-cases (test r)) [
    | inl q ↦ rw (q, delete_where) (delete_where-Has test rows h.1)
    | inr q ↦ rw (q, delete_where) (h.0, delete_where-Has test rows h.1)
  ]

  upsert-Has :
      (new : Row) (rows : List Row) → Has P new → All (Has P) rows → All (Has P) (upsert new rows)
  unfolding upsert overwrite
  upsert-Has new [] n h = (n, tt)
  upsert-Has new (r ∷ rows) n h = elim (Bool-cases (text_eq r.cache_key new.cache_key)) [
    | inl q ↦
        rw (q, upsert)
          (
            subst (λ k. P k new.translated_text new.created_at)
                (sym ((text_eq_iff r.cache_key new.cache_key).0 q)) n,
            h.1,
          )
    | inr q ↦ rw (q, upsert) (h.0, upsert-Has new rows n h.1)
  ]

  upsert_all-Has :
      (new rows : List Row) → All (Has P) new → All (Has P) rows → All (Has P) (upsert_all new rows)
  unfolding upsert_all
  upsert_all-Has [] rows n h = h
  upsert_all-Has (r ∷ new) rows n h =
      upsert_all-Has new (upsert r rows) n.1 (upsert-Has r rows n.0 h)

  add_hits-Has :
      (key : Text) (n at : ℕ) (rows : List Row)
      → All (Has P) rows
      → All (Has P) (add_hits key n at rows)
  unfolding add_hits
  add_hits-Has key n at [] h = tt
  add_hits-Has key n at (r ∷ rows) h = elim (Bool-cases (text_eq r.cache_key key)) [
    | inl q ↦ rw (q, add_hits) (h.0, add_hits-Has key n at rows h.1)
    | inr q ↦ rw (q, add_hits) (h.0, add_hits-Has key n at rows h.1)
  ]

  add_all_hits-Has :
      (pending : List (Text × ℕ)) (at : ℕ) (rows : List Row)
      → All (Has P) rows
      → All (Has P) (add_all_hits pending at rows)
  unfolding add_all_hits
  add_all_hits-Has [] at rows h = h
  add_all_hits-Has ((key, n) ∷ more) at rows h =
      add_all_hits-Has more at (add_hits key n at rows) (add_hits-Has key n at rows h)

  pub select-Has :
      (key : Text) (rows : List Row) (r : Row)
      → All (Has P) rows
      → select key rows ≡ some r
      → (r.cache_key ≡ key) × Has P r
  unfolding select
  select-Has key [] r h e = ground arith
  select-Has key (x ∷ rows) r h e = elim (Bool-cases (text_eq x.cache_key key)) [
    | inl q ↦
        let same : x ≡ r = ground arith in
        (
          subst (λ y. y.cache_key ≡ key) same ((text_eq_iff x.cache_key key).0 q),
          subst (Has P) same h.0,
        )
    | inr q ↦ select-Has key rows r h.1 (ground arith)
  ]

  flush_hits-Has-of :
      (s : CacheStore) (now : ℕ) (f : Fault) (pending : List (Text × ℕ))
      → s.pending_hits ≡ pending
      → All (Has P) s.rows
      → All (Has P) (flush_hits s now f).0.rows
  unfolding flush_hits
  flush_hits-Has-of s now f [] e h = rw (e, flush_hits) h
  flush_hits-Has-of s now f (p ∷ ps) e h = elim (Bool-cases (is_fault f)) [
    | inl q ↦ rw (e, q, flush_hits) h
    | inr q ↦ rw (e, q, flush_hits) (add_all_hits-Has (p ∷ ps) now s.rows h)
  ]

  pub flush_hits-Has :
      (s : CacheStore) (now : ℕ) (f : Fault)
      → All (Has P) s.rows
      → All (Has P) (flush_hits s now f).0.rows
  flush_hits-Has s now f h = flush_hits-Has-of s now f s.pending_hits refl h

  queue_hit-Has :
      (c : Config) (s : CacheStore) (key : Text) (now : ℕ) (f : Fault)
      → All (Has P) s.rows
      → All (Has P) (queue_hit c s key now f).0.rows
  unfolding queue_hit
  queue_hit-Has c s key now f h =
      let counted = record s {
        pending_hits = count_up key 1 s.pending_hits;
        pending_total = s.pending_total + 1;
      } in
      elim (Bool-cases (leb c.hit_flush_threshold (s.pending_total + 1))) [
        | inl q ↦ rw (q, queue_hit) (flush_hits-Has counted now f h)
        | inr q ↦ rw (q, queue_hit) h
      ]

  found-Has :
      (c : Config) (s : CacheStore) (key : Text) (r : Row) (b : Bool) (now : ℕ) (f : Fault)
      → All (Has P) s.rows
      → All (Has P) (found c s key r b now f).0.rows
  unfolding found drop_row
  found-Has c s key r b now f h = elim (Bool-cases (is_older c.ttl now r)) [
    | inl old ↦ elim (Bool-cases (is_fault f)) [
      | inl q ↦ rw (old, q, found) h
      | inr q ↦ rw (old, q, found) (delete_where-Has _ s.rows h)
    ]
    | inr young ↦ elim (Bool-cases b) [
      | inr z ↦ rw (young, z, found) h
      | inl z ↦ elim (Result-cases (queue_hit c s key now f).1) [
        | inl (e, q) ↦ rw (young, z, q, found) (queue_hit-Has c s key now f h)
        | inr (n, q) ↦ rw (young, z, q, found) (queue_hit-Has c s key now f h)
      ]
    ]
  ]

  pub get-Has :
      (c : Config) (s : CacheStore) (q : Query) (b : Bool) (now : ℕ) (f : Fault)
      → All (Has P) s.rows
      → All (Has P) (get c s q b now f).0.rows
  unfolding get
  get-Has c s q b now f h = elim (Result-cases (compute_key c.hashing q)) [
    | inl (e, p) ↦ rw (p, get) h
    | inr (key, p) ↦ elim (Option-cases (select key s.rows)) [
      | inl o ↦ rw (p, o, get) h
      | inr (r, o) ↦ rw (p, o, get) (found-Has c s key r b now f h)
    ]
  ]

  pub record_hit-Has :
      (c : Config) (s : CacheStore) (q : Query) (now : ℕ) (f : Fault)
      → All (Has P) s.rows
      → All (Has P) (record_hit c s q now f).0.rows
  unfolding record_hit
  record_hit-Has c s q now f h = elim (Result-cases (compute_key c.hashing q)) [
    | inl (e, p) ↦ rw (p, record_hit) h
    | inr (key, p) ↦ rw (p, record_hit) (queue_hit-Has c s key now f h)
  ]

  retained-Has :
      (c : Config) (now : ℕ) (rows : List Row)
      → All (Has P) rows
      → All (Has P) (retained c now rows)
  unfolding retained delete_expired enforce_cap
  retained-Has c now rows h = delete_where-Has _ _ (delete_where-Has _ rows h)

  pub write_rows-Has :
      (c : Config) (s : CacheStore) (rows : List Row) (now : ℕ) (f : Fault)
      → All (Has P) rows
      → All (Has P) s.rows
      → All (Has P) (write_rows c s rows now f).0.rows
  unfolding write_rows
  write_rows-Has c s rows now insert_fails n h = h
  write_rows-Has c s rows now commit_fails n h = h
  write_rows-Has c s rows now commits n h =
      elim (Bool-cases (leb (threshold c) (s.writes_since_prune + length rows))) [
        | inl q ↦
            rw (q, write_rows)
              (retained-Has c now (upsert_all rows s.rows) (upsert_all-Has rows s.rows n h))
        | inr q ↦ rw (q, write_rows) (upsert_all-Has rows s.rows n h)
      ]

  pub cleanup-Has :
      (c : Config) (s : CacheStore) (days : Value) (now : ℕ) (g f : Fault)
      → All (Has P) s.rows
      → All (Has P) (cleanup c s days now g f).0.rows
  unfolding cleanup delete_expired enforce_cap
  cleanup-Has c s days now g f h = elim (Option-cases (retention_of c days)) [
    | inl o ↦ rw (o, cleanup) h
    | inr (n, o) ↦ elim (Result-cases (flush_hits s now g).1) [
      | inl (e, q) ↦ rw (o, q, cleanup) (flush_hits-Has s now g h)
      | inr (m, q) ↦ elim (Bool-cases (is_fault f)) [
        | inl z ↦ rw (o, q, z, cleanup) (flush_hits-Has s now g h)
        | inr z ↦
            rw (o, q, z, cleanup)
              (delete_where-Has _ _ (delete_where-Has _ _ (flush_hits-Has s now g h)))
      ]
    ]
  ]

  pub stats-Has :
      (c : Config) (s : CacheStore) (now : ℕ) (g f : Fault)
      → All (Has P) s.rows
      → All (Has P) (stats c s now g f).0.rows
  unfolding stats
  stats-Has c s now g f h = elim (Result-cases (flush_hits s now g).1) [
    | inl (e, q) ↦ rw (q, stats) (flush_hits-Has s now g h)
    | inr (m, q) ↦ elim (Bool-cases (is_fault f)) [
      | inl z ↦ rw (q, z, stats) (flush_hits-Has s now g h)
      | inr z ↦ rw (q, z, stats) (retained-Has c now _ (flush_hits-Has s now g h))
    ]
  ]
