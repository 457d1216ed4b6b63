-- ===== src/Cache/Cap.antt =====
-- cache.py: the cap on the table over every history of calls, with the transactions that fail.
use Prim.Native.Nat.{◌≤◌, ◌<◌}
use cwa_e_book_translate_plu.Prelude.{
  subst, ℕ, suc, ◌+◌, ◌*◌, ◌≡◌, arith, Bool, Bool-cases, Option-cases, Result-cases, inl, inr,
  Value, List, [], ◌∷◌, Text, text_eq, length, ◌&&◌, ◌==◌, leb,
}
use cwa_e_book_translate_plu.Cache.{
  Row, Query, compute_key, select, is_older, delete_expired, upsert_all, enforce_cap,
}
use cwa_e_book_translate_plu.Cache.Bounded.{
  length-delete_where, length-enforce_cap, length-upsert_all, length-add_all_hits,
}
use cwa_e_book_translate_plu.Cache.Store.{
  count_up, retention_of, Config, CacheStore, empty, Fault, commits, insert_fails, commit_fails,
  flush_hits, queue_hit, record_hit, drop_row, found, get, Entry, make_rows, threshold, retained,
  write_rows, put_many, cleanup, stats, Event, gets, hits, puts, flushes, cleans, counts, step, run,
}

-- The table is within the cap by the writes since the last prune, and by one threshold for each write
-- whose commit failed.
pub record IsCapped (c : Config) (failures : ℕ) (s : CacheStore) : Type 0 where
  pub below : s.writes_since_prune < threshold c
  pub capped : length s.rows ≤ c.max_entries + s.writes_since_prune + failures * threshold c

-- the writes of a history whose commit failed
abbrev pub lost_commits : List Event → ℕ
lost_commits [] = 0
lost_commits (puts es now commit_fails ∷ more) = suc (lost_commits more)
lost_commits (_ ∷ more) = lost_commits more

-- What an operation that writes no new rows does.
pub record Shrinks (s t : CacheStore) : Type 0 where
  pub writes : t.writes_since_prune ≡ s.writes_since_prune
  pub fewer : length t.rows ≤ length s.rows

Shrinks-IsCapped :
    (c : Config) (k : ℕ) (s t : CacheStore) → Shrinks s t → IsCapped c k s → IsCapped c k t
Shrinks-IsCapped c k s t h a = record {
  below = rw h.writes a.below;
  capped = rw h.writes (omega (arith, h.fewer, a.capped));
}

pub flush_hits-Shrinks : (s : CacheStore) (now : ℕ) (f : Fault) → Shrinks s (flush_hits s now f).0
unfolding flush_hits
flush_hits-Shrinks s now f = ground (arith, length-add_all_hits s.pending_hits now s.rows)

queue_hit-Shrinks :
    (c : Config) (s : CacheStore) (key : Text) (now : ℕ) (f : Fault)
    → Shrinks s (queue_hit c s key now f).0
unfolding queue_hit
queue_hit-Shrinks c s key now f =
    let counted = record s {
      pending_hits = count_up key 1 s.pending_hits;
      pending_total = s.pending_total + 1;
    } in
    let h = flush_hits-Shrinks counted now f in ground (arith, h.writes, h.fewer)

found-Shrinks :
    (c : Config) (s : CacheStore) (key : Text) (r : Row) (b : Bool) (now : ℕ) (f : Fault)
    → Shrinks s (found c s key r b now f).0
unfolding found drop_row
found-Shrinks c s key r b now f =
    let h = queue_hit-Shrinks c s key now f in
    elim (Result-cases (queue_hit c s key now f).1) [
      | inl (e, q) ↦ ground (
        arith,
        h.writes,
        h.fewer,
        length-delete_where (λ x. text_eq x.cache_key r.cache_key && x.created_at == r.created_at)
            s.rows,
      )
      | inr (n, q) ↦ ground (
        arith,
        h.writes,
        h.fewer,
        length-delete_where (λ x. text_eq x.cache_key r.cache_key && x.created_at == r.created_at)
            s.rows,
      )
    ]

pub get-Shrinks :
    (c : Config) (s : CacheStore) (q : Query) (b : Bool) (now : ℕ) (f : Fault)
    → Shrinks s (get c s q b now f).0
unfolding get
get-Shrinks c s q b now f = elim (Result-cases (compute_key c.hashing q)) [
  | inl (e, p) ↦ ground arith
  | inr (key, p) ↦ elim (Option-cases (select key s.rows)) [
    | inl o ↦ ground arith
    | inr (r, o) ↦ let h = found-Shrinks c s key r b now f in ground (arith, h.writes, h.fewer)
  ]
]

pub record_hit-Shrinks :
    (c : Config) (s : CacheStore) (q : Query) (now : ℕ) (f : Fault)
    → Shrinks s (record_hit c s q now f).0
unfolding record_hit
record_hit-Shrinks c s q now f = elim (Result-cases (compute_key c.hashing q)) [
  | inl (e, p) ↦ ground arith
  | inr (key, p) ↦ let h = queue_hit-Shrinks c s key now f in ground (arith, h.writes, h.fewer)
]

length-delete_expired :
    (retention now : ℕ) (rows : List Row) → length (delete_expired retention now rows) ≤ length rows
unfolding delete_expired
length-delete_expired retention now rows = length-delete_where (is_older retention now) rows

length-enforce_cap-le :
    (limit : ℕ) (rows : List Row) → length (enforce_cap limit rows) ≤ length rows
unfolding enforce_cap
length-enforce_cap-le limit rows = length-delete_where _ rows

cleanup-Shrinks :
    (c : Config) (s : CacheStore) (days : Value) (now : ℕ) (g f : Fault)
    → Shrinks s (cleanup c s days now g f).0
unfolding cleanup
cleanup-Shrinks c s days now g f = elim (Option-cases (retention_of c days)) [
  | inl o ↦ ground arith
  | inr (n, o) ↦
      let t = (flush_hits s now g).0 in
      let h = flush_hits-Shrinks s now g in
      let kept = delete_expired n now t.rows in
      elim (Result-cases (flush_hits s now g).1) [
        | inl (e, q) ↦ ground (arith, h.writes, h.fewer)
        | inr (m, q) ↦ ground (
          arith,
          h.writes,
          h.fewer,
          length-delete_expired n now t.rows,
          length-enforce_cap-le c.max_entries kept,
        )
      ]
]

stats-Shrinks :
    (c : Config) (s : CacheStore) (now : ℕ) (g f : Fault) → Shrinks s (stats c s now g f).0
unfolding stats retained
stats-Shrinks c s now g f =
    let t = (flush_hits s now g).0 in
    let h = flush_hits-Shrinks s now g in
    let kept = delete_expired c.ttl now t.rows in
    elim (Result-cases (flush_hits s now g).1) [
      | inl (e, q) ↦ ground (arith, h.writes, h.fewer)
      | inr (m, q) ↦ ground (
        arith,
        h.writes,
        h.fewer,
        length-delete_expired c.ttl now t.rows,
        length-enforce_cap-le c.max_entries kept,
      )
    ]

-- one more failure, if the commit failed
abbrev lost : Fault → ℕ → ℕ
lost commit_fails k = suc k
lost insert_fails k = k
lost commits k = k

write_rows-IsCapped :
    (c : Config) (k : ℕ) (s : CacheStore) (rows : List Row) (now : ℕ) (f : Fault)
    → 1 ≤ c.max_entries
    → IsCapped c k s
    → IsCapped c (lost f k) (write_rows c s rows now f).0
unfolding write_rows retained
write_rows-IsCapped c k s rows now insert_fails m a = a
write_rows-IsCapped c k s rows now commit_fails m a =
    elim (Bool-cases (leb (threshold c) (s.writes_since_prune + length rows))) [
      | inl q ↦ record { below = ground arith; capped = ground (arith, a.below, a.capped) }
      | inr q ↦ record { below = ground arith; capped = ground (arith, a.below, a.capped) }
    ]
write_rows-IsCapped c k s rows now commits m a =
    elim (Bool-cases (leb (threshold c) (s.writes_since_prune + length rows))) [
      | inl q ↦ record {
        below = ground arith;
        capped = ground (
          arith,
          length-enforce_cap c.max_entries (delete_expired c.ttl now (upsert_all rows s.rows)),
        );
      }
      | inr q ↦ record {
        below = ground arith;
        capped = ground (arith, a.capped, length-upsert_all rows s.rows);
      }
    ]

IsCapped-lost :
    (c : Config) (k : ℕ) (s : CacheStore) (f : Fault) → IsCapped c k s → IsCapped c (lost f k) s
IsCapped-lost c k s commits a = a
IsCapped-lost c k s insert_fails a = a
IsCapped-lost c k s commit_fails a = record { below = a.below; capped = omega (arith, a.capped) }

put_many-IsCapped :
    (c : Config) (k : ℕ) (s : CacheStore) (es : List Entry) (now : ℕ) (f : Fault)
    → 1 ≤ c.max_entries
    → IsCapped c k s
    → IsCapped c (lost f k) (put_many c s es now f).0
unfolding put_many
put_many-IsCapped c k s [] now f m a = IsCapped-lost c k s f a
put_many-IsCapped c k s (e ∷ es) now f m a =
    elim (Result-cases (make_rows c.hashing now (e ∷ es))) [
      | inl (x, q) ↦ rw (q, put_many) (IsCapped-lost c k s f a)
      | inr (rows, q) ↦ rw (q, put_many) (write_rows-IsCapped c k s rows now f m a)
    ]

run-IsCapped :
    (c : Config) (es : List Event) (k : ℕ) (s : CacheStore)
    → 1 ≤ c.max_entries
    → IsCapped c k s
    → IsCapped c (lost_commits es + k) (run c s es)
unfolding run step
run-IsCapped c [] k s m a = subst (λ n. IsCapped c n s) (omega arith) a
run-IsCapped c (gets q b now f ∷ es) k s m a =
    run-IsCapped c es k (get c s q b now f).0 m
      (Shrinks-IsCapped c k s _ (get-Shrinks c s q b now f) a)
run-IsCapped c (hits q now f ∷ es) k s m a =
    run-IsCapped c es k (record_hit c s q now f).0 m
      (Shrinks-IsCapped c k s _ (record_hit-Shrinks c s q now f) a)
run-IsCapped c (puts xs now commits ∷ es) k s m a =
    run-IsCapped c es k (put_many c s xs now commits).0 m
      (put_many-IsCapped c k s xs now commits m a)
run-IsCapped c (puts xs now insert_fails ∷ es) k s m a =
    run-IsCapped c es k (put_many c s xs now insert_fails).0 m
      (put_many-IsCapped c k s xs now insert_fails m a)
run-IsCapped c (puts xs now commit_fails ∷ es) k s m a =
    subst (λ n. IsCapped c n (run c (put_many c s xs now commit_fails).0 es)) (omega arith)
      (run-IsCapped c es (suc k) (put_many c s xs now commit_fails).0 m
        (put_many-IsCapped c k s xs now commit_fails m a))
run-IsCapped c (flushes now f ∷ es) k s m a =
    run-IsCapped c es k (flush_hits s now f).0 m
      (Shrinks-IsCapped c k s _ (flush_hits-Shrinks s now f) a)
run-IsCapped c (cleans days now g f ∷ es) k s m a =
    run-IsCapped c es k (cleanup c s days now g f).0 m
      (Shrinks-IsCapped c k s _ (cleanup-Shrinks c s days now g f) a)
run-IsCapped c (counts now g f ∷ es) k s m a =
    run-IsCapped c es k (stats c s now g f).0 m
      (Shrinks-IsCapped c k s _ (stats-Shrinks c s now g f) a)

-- Whatever calls are made, in whatever order, the table holds fewer rows than its cap and one prune
-- threshold, and one threshold more for each write whose commit failed: such a write resets the count
-- of the writes since the last prune, although its prune is rolled back.
pub run-capped :
    (c : Config) (events : List Event)
    → 1 ≤ c.max_entries
    → length (run c empty events).rows
      < c.max_entries + threshold c + lost_commits events * threshold c
run-capped c events m =
    let a =
      run-IsCapped c events 0 empty m (record { below = ground arith; capped = omega arith }) in
    let e : lost_commits events + 0 ≡ lost_commits events = omega arith in
    let b = subst (λ k. IsCapped c k (run c empty events)) e a in omega (arith, b.below, b.capped)
