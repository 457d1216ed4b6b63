-- ===== src/Cache/Spared.antt =====
-- cache.py: what each operation leaves of the row of a key.
use Prim.Native.Nat.{◌≤◌}
use cwa_e_book_translate_plu.Prelude.{
  ap, ◌∙◌, ℕ, ◌+◌, ◌≡◌, refl, arith, Bool, true, false, Bool-cases, Option-cases, Result-cases, inl,
  inr, List, [], ◌∷◌, some, Text, text_eq, text_eq_iff, leb, ◌==◌, ◌&&◌, All,
}
use cwa_e_book_translate_plu.Cache.{
  Row, Query, compute_key, select, is_older, delete_where, overwrite, upsert, upsert_all, add_hits,
  add_all_hits,
}
use cwa_e_book_translate_plu.Cache.Store.{
  Config, CacheStore, Fault, is_fault, count_up, flush_hits, queue_hit, record_hit, drop_row, found,
  get,
}

-- The first row of the key has the text and the time of creation.
abbrev pub Keeps : Text → Text → ℕ → List Row → Type 0
Keeps key t at rows =
    (r : Row) × (select key rows ≡ some r) × (r.translated_text ≡ t) × (r.created_at ≡ at)

module _ (key t : Text) (at : ℕ) where
  Keeps-skip :
      (x : Row) (rows : List Row)
      → text_eq x.cache_key key ≡ false
      → Keeps key t at rows
      → Keeps key t at (x ∷ rows)
  unfolding select
  Keeps-skip x rows n (r, e, p, q) = (r, ground (arith, n, e), p, q)

  Keeps-unskip :
      (x : Row) (rows : List Row)
      → text_eq x.cache_key key ≡ false
      → Keeps key t at (x ∷ rows)
      → Keeps key t at rows
  unfolding select
  Keeps-unskip x rows n (r, e, p, q) = (r, ground (arith, n, e), p, q)

  Keeps-here :
      (x : Row) (rows : List Row)
      → text_eq x.cache_key key ≡ true
      → x.translated_text ≡ t
      → x.created_at ≡ at
      → Keeps key t at (x ∷ rows)
  unfolding select
  Keeps-here x rows y p q = (x, ground (arith, y), p, q)

  Keeps-first :
      (x : Row) (rows : List Row)
      → text_eq x.cache_key key ≡ true
      → Keeps key t at (x ∷ rows)
      → (x.translated_text ≡ t) × (x.created_at ≡ at)
  unfolding select
  Keeps-first x rows y (r, e, p, q) =
      let same : x ≡ r = ground (arith, y, e) in
      (ap (λ z. z.translated_text) same ∙ p, ap (λ z. z.created_at) same ∙ q)

  add_hits-Keeps :
      (k : Text) (n now : ℕ) (rows : List Row)
      → Keeps key t at rows
      → Keeps key t at (add_hits k n now rows)
  unfolding add_hits
  add_hits-Keeps k n now [] h = h
  add_hits-Keeps k n now (x ∷ rows) h = elim (Bool-cases (text_eq x.cache_key key)) [
    | inl y ↦
        let (p, q) = Keeps-first x rows y h in
        elim (Bool-cases (text_eq x.cache_key k)) [
          | inl z ↦ rw (z, add_hits) (Keeps-here _ (add_hits k n now rows) y p q)
          | inr z ↦ rw (z, add_hits) (Keeps-here x (add_hits k n now rows) y p q)
        ]
    | inr y ↦
        let rest = add_hits-Keeps k n now rows (Keeps-unskip x rows y h) in
        elim (Bool-cases (text_eq x.cache_key k)) [
          | inl z ↦ rw (z, add_hits) (Keeps-skip _ (add_hits k n now rows) y rest)
          | inr z ↦ rw (z, add_hits) (Keeps-skip x (add_hits k n now rows) y rest)
        ]
  ]

  add_all_hits-Keeps :
      (pending : List (Text × ℕ)) (now : ℕ) (rows : List Row)
      → Keeps key t at rows
      → Keeps key t at (add_all_hits pending now rows)
  unfolding add_all_hits
  add_all_hits-Keeps [] now rows h = h
  add_all_hits-Keeps ((k, n) ∷ more) now rows h =
      add_all_hits-Keeps more now (add_hits k n now rows) (add_hits-Keeps k n now rows h)

  flush_hits-Keeps-of :
      (s : CacheStore) (now : ℕ) (f : Fault) (pending : List (Text × ℕ))
      → s.pending_hits ≡ pending
      → Keeps key t at s.rows
      → Keeps key t at (flush_hits s now f).0.rows
  unfolding flush_hits
  flush_hits-Keeps-of s now f [] e h = rw (e, flush_hits) h
  flush_hits-Keeps-of s now f (p ∷ ps) e h = elim (Bool-cases (is_fault f)) [
    | inl q ↦ rw (e, q, flush_hits) h
    | inr q ↦ rw (e, q, flush_hits) (add_all_hits-Keeps (p ∷ ps) now s.rows h)
  ]

  pub flush_hits-Keeps :
      (s : CacheStore) (now : ℕ) (f : Fault)
      → Keeps key t at s.rows
      → Keeps key t at (flush_hits s now f).0.rows
  flush_hits-Keeps s now f h = flush_hits-Keeps-of s now f s.pending_hits refl h

  queue_hit-Keeps :
      (c : Config) (s : CacheStore) (k : Text) (now : ℕ) (f : Fault)
      → Keeps key t at s.rows
      → Keeps key t at (queue_hit c s k now f).0.rows
  unfolding queue_hit
  queue_hit-Keeps c s k now f h =
      let counted = record s {
        pending_hits = count_up k 1 s.pending_hits;
        pending_total = s.pending_total + 1;
      } in
      elim (Bool-cases (leb c.hit_flush_threshold (s.pending_total + 1))) [
        | inl q ↦ rw (q, queue_hit) (flush_hits-Keeps counted now f h)
        | inr q ↦ rw (q, queue_hit) h
      ]

  pub record_hit-Keeps :
      (c : Config) (s : CacheStore) (q : Query) (now : ℕ) (f : Fault)
      → Keeps key t at s.rows
      → Keeps key t at (record_hit c s q now f).0.rows
  unfolding record_hit
  record_hit-Keeps c s q now f h = elim (Result-cases (compute_key c.hashing q)) [
    | inl (e, p) ↦ rw (p, record_hit) h
    | inr (k, p) ↦ rw (p, record_hit) (queue_hit-Keeps c s k now f h)
  ]

  -- A deletion that spares the row.
  delete_where-Keeps :
      (test : Row → Bool) (rows : List Row) (r : Row)
      → select key rows ≡ some r
      → test r ≡ false
      → select key (delete_where test rows) ≡ some r
  unfolding select delete_where
  delete_where-Keeps test [] r e n = ground arith
  delete_where-Keeps test (x ∷ rows) r e n = elim (Bool-cases (text_eq x.cache_key key)) [
    | inl y ↦
        let same : x ≡ r = ground (arith, y, e) in
        let spared : test x ≡ false = ap test same ∙ n in ground (arith, y, spared, same)
    | inr y ↦ elim (Bool-cases (test x)) [
      | inl z ↦ ground (arith, z, delete_where-Keeps test rows r (ground (arith, y, e)) n)
      | inr z ↦ ground (arith, y, z, delete_where-Keeps test rows r (ground (arith, y, e)) n)
    ]
  ]

  -- An expired row that a lookup deletes is another one.
  drop_row-Keeps :
      (c : Config) (s : CacheStore) (k : Text) (x : Row) (now : ℕ)
      → now ≤ at + c.ttl
      → select k s.rows ≡ some x
      → is_older c.ttl now x ≡ true
      → Keeps key t at s.rows
      → Keeps key t at (drop_row s x).rows
  unfolding drop_row is_older
  drop_row-Keeps c s k x now l e old (r, h, p, q) =
      let test : Row → Bool =
        λ y. text_eq y.cache_key x.cache_key && y.created_at == x.created_at in
      elim (Bool-cases (test r)) [
        | inl z ↦
            let apart : r.created_at ≡ x.created_at = ground (arith, z) in absurd (ground arith)
        | inr z ↦ (r, delete_where-Keeps test s.rows r h z, p, q)
      ]

  pub get-Keeps :
      (c : Config) (s : CacheStore) (q : Query) (b : Bool) (now : ℕ) (f : Fault)
      → now ≤ at + c.ttl
      → Keeps key t at s.rows
      → Keeps key t at (get c s q b now f).0.rows
  unfolding get found
  get-Keeps c s q b now f l h = elim (Result-cases (compute_key c.hashing q)) [
    | inl (e, p) ↦ rw (p, get) h
    | inr (k, p) ↦ elim (Option-cases (select k s.rows)) [
      | inl o ↦ rw (p, o, get) h
      | inr (r, o) ↦ elim (Bool-cases (is_older c.ttl now r)) [
        | inl old ↦ elim (Bool-cases (is_fault f)) [
          | inl z ↦ rw (p, o, old, z, get) h
          | inr z ↦ rw (p, o, old, z, get) (drop_row-Keeps c s k r now l o old h)
        ]
        | inr young ↦ elim (Bool-cases b) [
          | inr z ↦ rw (p, o, young, z, get) h
          | inl z ↦ elim (Result-cases (queue_hit c s k now f).1) [
            | inl (e, w) ↦ rw (p, o, young, z, w, get) (queue_hit-Keeps c s k now f h)
            | inr (n, w) ↦ rw (p, o, young, z, w, get) (queue_hit-Keeps c s k now f h)
          ]
        ]
      ]
    ]
  ]

  upsert-Keeps :
      (new : Row) (rows : List Row)
      → text_eq new.cache_key key ≡ false
      → Keeps key t at rows
      → Keeps key t at (upsert new rows)
  unfolding upsert overwrite
  upsert-Keeps new [] n h = Keeps-skip new [] n h
  upsert-Keeps new (x ∷ rows) n h = elim (Bool-cases (text_eq x.cache_key new.cache_key)) [
    | inl y ↦
        let same = (text_eq_iff x.cache_key new.cache_key).0 y in
        let other : text_eq x.cache_key key ≡ false = ap (λ k. text_eq k key) same ∙ n in
        rw (y, upsert) (Keeps-skip (overwrite new x) rows other (Keeps-unskip x rows other h))
    | inr y ↦ elim (Bool-cases (text_eq x.cache_key key)) [
      | inl z ↦
          let (p, q) = Keeps-first x rows z h in
          rw (y, upsert) (Keeps-here x (upsert new rows) z p q)
      | inr z ↦
          rw (y, upsert)
            (Keeps-skip x (upsert new rows) z (upsert-Keeps new rows n (Keeps-unskip x rows z h)))
    ]
  ]

  pub upsert_all-Keeps :
      (new rows : List Row)
      → All (λ (r : Row). text_eq r.cache_key key ≡ false) new
      → Keeps key t at rows
      → Keeps key t at (upsert_all new rows)
  unfolding upsert_all
  upsert_all-Keeps [] rows n h = h
  upsert_all-Keeps (x ∷ new) rows n h =
      upsert_all-Keeps new (upsert x rows) n.1 (upsert-Keeps x rows n.0 h)
