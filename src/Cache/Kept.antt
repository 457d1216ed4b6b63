-- ===== src/Cache/Kept.antt =====
-- cache.py: what keeps the entry of a key in the table.
use Prim.Native.Nat.{◌≤◌, ◌<◌}
use cwa_e_book_translate_plu.Prelude.{
  subst, sym, ap, ◌∙◌, ℕ, ◌+◌, ◌≡◌, arith, false, Bool-cases, Result-cases, inl, inr, ok, List, [],
  ◌∷◌, Text, text_eq, text_eq_iff, length, leb, All,
}
use cwa_e_book_translate_plu.Cache.{Row, compute_key, upsert_all}
use cwa_e_book_translate_plu.Cache.Store.{
  Config, CacheStore, Fault, commits, insert_fails, commit_fails, flush_hits, record_hit, get,
  Entry, new_row, make_row, make_rows, threshold, write_rows, put_many, Event, gets, hits, puts,
  flushes, cleans, counts, step, run,
}
use cwa_e_book_translate_plu.Cache.Cap.{
  Shrinks, flush_hits-Shrinks, get-Shrinks, record_hit-Shrinks,
}
use cwa_e_book_translate_plu.Cache.Spared.{
  Keeps, flush_hits-Keeps, record_hit-Keeps, get-Keeps, upsert_all-Keeps,
}

length-make_rows :
    (c : Config) (now : ℕ) (es : List Entry) (rows : List Row)
    → make_rows c.hashing now es ≡ ok rows
    → length rows ≡ length es
unfolding make_rows
length-make_rows c now [] rows q = ground (arith, q)
length-make_rows c now (e ∷ es) rows q = elim (Result-cases (make_row c.hashing now e)) [
  | inl (x, w) ↦ ground arith
  | inr (r, w) ↦ elim (Result-cases (make_rows c.hashing now es)) [
    | inl (x, z) ↦ ground arith
    | inr (rs, z) ↦ ground (arith, length-make_rows c now es rs z)
  ]
]

-- No entry has the key.
abbrev pub Spares : Config → Text → List Entry → Type 0
Spares c key es = All (λ e. ¬ (compute_key c.hashing e.0 ≡ ok key)) es

make_row-other :
    (c : Config) (key : Text) (now : ℕ) (e : Entry) (r : Row)
    → ¬ (compute_key c.hashing e.0 ≡ ok key)
    → make_row c.hashing now e ≡ ok r
    → text_eq r.cache_key key ≡ false
unfolding make_row new_row
make_row-other c key now e r n q = elim (Result-cases (compute_key c.hashing e.0)) [
  | inl (x, w) ↦ ground (arith, w, q)
  | inr (k, w) ↦
      let own : r.cache_key ≡ k = ground (arith, w, q) in
      elim (Bool-cases (text_eq r.cache_key key)) [
        | inl z ↦
            let same = (text_eq_iff r.cache_key key).0 z in
            absurd (n (w ∙ ap (λ x. ok x) (sym own ∙ same)))
        | inr z ↦ z
      ]
]

make_rows-other :
    (c : Config) (key : Text) (now : ℕ) (es : List Entry) (rows : List Row)
    → Spares c key es
    → make_rows c.hashing now es ≡ ok rows
    → All (λ (r : Row). text_eq r.cache_key key ≡ false) rows
unfolding make_rows
make_rows-other c key now [] rows n q =
    let same : [] ≡ rows = ground (arith, q) in
    subst (All (λ (r : Row). text_eq r.cache_key key ≡ false)) same tt
make_rows-other c key now (e ∷ es) rows n q = elim (Result-cases (make_row c.hashing now e)) [
  | inl (x, w) ↦ ground arith
  | inr (r, w) ↦ elim (Result-cases (make_rows c.hashing now es)) [
    | inl (x, z) ↦ ground arith
    | inr (rs, z) ↦
        let same : r ∷ rs ≡ rows = ground arith in
        subst (All (λ (r : Row). text_eq r.cache_key key ≡ false)) same
          (make_row-other c key now e r n.0 w, make_rows-other c key now es rs n.1 z)
  ]
]

-- The key's row is there, and `n` more writes are not due to prune.
pub record IsKept (c : Config) (key t : Text) (at n : ℕ) (s : CacheStore) : Type 0 where
  pub kept : Keeps key t at s.rows
  pub room : s.writes_since_prune + n < threshold c

put_many-IsKept :
    (c : Config) (key t : Text) (at n : ℕ) (s : CacheStore) (es : List Entry) (now : ℕ) (f : Fault)
    → Spares c key es
    → IsKept c key t at (length es + n) s
    → IsKept c key t at n (put_many c s es now f).0
unfolding put_many write_rows
put_many-IsKept c key t at n s [] now f other h = record {
  kept = h.kept;
  room = omega (arith, h.room);
}
put_many-IsKept c key t at n s (e ∷ es) now f other h =
    elim (Result-cases (make_rows c.hashing now (e ∷ es))) [
      | inl (x, q) ↦ rw (q, put_many) (record { kept = h.kept; room = omega (arith, h.room) })
      | inr (rows, q) ↦
          let count = length-make_rows c now (e ∷ es) rows q in
          let due : leb (threshold c) (s.writes_since_prune + length rows) ≡ false =
            ground (arith, h.room, count) in
          let room : s.writes_since_prune + length rows + n < threshold c =
            omega (arith, h.room, count) in
          let added =
            upsert_all-Keeps key t at rows s.rows (make_rows-other c key now (e ∷ es) rows other q)
              h.kept in
          rw (q, put_many) (written rows due room added f)
    ]
  where
    written :
        (rows : List Row)
        → leb (threshold c) (s.writes_since_prune + length rows) ≡ false
        → s.writes_since_prune + length rows + n < threshold c
        → Keeps key t at (upsert_all rows s.rows)
        → (g : Fault) → IsKept c key t at n (write_rows c s rows now g).0
    written rows due room added insert_fails = record {
      kept = h.kept;
      room = omega (arith, h.room);
    }
    written rows due room added commit_fails = rw due (record { kept = h.kept; room = room })
    written rows due room added commits = rw due (record { kept = added; room = room })

-- the entries of the writes of a history
abbrev pub written_entries : List Event → ℕ
written_entries [] = 0
written_entries (puts es now f ∷ more) = length es + written_entries more
written_entries (_ ∷ more) = written_entries more

-- The call cannot replace or remove the entry of the key that lives until `limit`: a lookup by then,
-- any counting of hits, or a write of other keys.
abbrev pub IsCalm : Config → Text → ℕ → Event → Type 0
IsCalm c key limit (gets q b now f) = now ≤ limit
IsCalm c key limit (hits q now f) = Unit
IsCalm c key limit (puts es now f) = Spares c key es
IsCalm c key limit (flushes now f) = Unit
IsCalm c key limit (cleans d now g f) = ⊥
IsCalm c key limit (counts now g f) = ⊥

Shrinks-room :
    (c : Config) (n : ℕ) (s u : CacheStore)
    → Shrinks s u
    → s.writes_since_prune + n < threshold c
    → u.writes_since_prune + n < threshold c
Shrinks-room c n s u h l = omega (arith, h.writes, l)

pub run-Keeps :
    (c : Config) (key t : Text) (at : ℕ) (s : CacheStore) (events : List Event)
    → All (IsCalm c key (at + c.ttl)) events
    → IsKept c key t at (written_entries events) s
    → Keeps key t at (run c s events).rows
unfolding run step
run-Keeps c key t at s [] calm h = h.kept
run-Keeps c key t at s (gets q b now f ∷ es) calm h =
    run-Keeps c key t at (get c s q b now f).0 es calm.1 (record {
      kept = get-Keeps key t at c s q b now f calm.0 h.kept;
      room =
          Shrinks-room c (written_entries es) s (get c s q b now f).0 (get-Shrinks c s q b now f)
            h.room;
    })
run-Keeps c key t at s (hits q now f ∷ es) calm h =
    run-Keeps c key t at (record_hit c s q now f).0 es calm.1 (record {
      kept = record_hit-Keeps key t at c s q now f h.kept;
      room =
          Shrinks-room c (written_entries es) s (record_hit c s q now f).0
            (record_hit-Shrinks c s q now f) h.room;
    })
run-Keeps c key t at s (flushes now f ∷ es) calm h =
    run-Keeps c key t at (flush_hits s now f).0 es calm.1 (record {
      kept = flush_hits-Keeps key t at s now f h.kept;
      room =
          Shrinks-room c (written_entries es) s (flush_hits s now f).0 (flush_hits-Shrinks s now f)
            h.room;
    })
run-Keeps c key t at s (puts xs now f ∷ es) calm h =
    run-Keeps c key t at (put_many c s xs now f).0 es calm.1
      (put_many-IsKept c key t at (written_entries es) s xs now f calm.0 h)
run-Keeps c key t at s (cleans d now g f ∷ es) calm h = absurd calm.0
run-Keeps c key t at s (counts now g f ∷ es) calm h = absurd calm.0
