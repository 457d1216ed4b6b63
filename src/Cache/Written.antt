-- ===== src/Cache/Written.antt =====
-- cache.py: a lookup some time after a write answers with what was written.
use Prim.Native.Nat.{◌≤◌, ◌<◌}
use cwa_e_book_translate_plu.Prelude.{
  ap, ◌∙◌, ℕ, ◌+◌, ◌≡◌, refl, arith, Bool, true, false, Bool-cases, Result-cases, ◌⊎◌, inl, inr,
  Result, ok, err, List, [], ◌∷◌, Option, some, Text, strip, is_blank, text_eq, text_eq_refl, leb,
  ltb, All,
}
use cwa_e_book_translate_plu.Cache.{
  Error, database_error, Row, Query, compute_key, select, is_older, overwrite, upsert, upsert_all,
}
use cwa_e_book_translate_plu.Cache.Store.{
  Config, CacheStore, Fault, commits, is_fault, count_up, flush_hits, queue_hit, found, get,
  new_row, make_row, make_rows, threshold, write_rows, put_many, put, Event, run,
}
use cwa_e_book_translate_plu.Cache.Spared.{Keeps}
use cwa_e_book_translate_plu.Cache.Kept.{written_entries, IsCalm, run-Keeps}

-- the row of a key after its insert
abbrev IsLatest : Row → Row → Type 0
IsLatest new r = (r.translated_text ≡ new.translated_text) × (r.created_at ≡ new.created_at)

select-upsert :
    (new : Row) (rows : List Row)
    → (r : Row) × (select new.cache_key (upsert new rows) ≡ some r) × IsLatest new r
unfolding select upsert overwrite
select-upsert new [] = (new, ground (arith, text_eq_refl new.cache_key), (refl, refl))
select-upsert new (x ∷ rows) = elim (Bool-cases (text_eq x.cache_key new.cache_key)) [
  | inl e ↦ (overwrite new x, ground (arith, e), (refl, refl))
  | inr e ↦ let (r, s, l) = select-upsert new rows in (r, ground (arith, e, s), l)
]

-- The answer is the text, unless the lookup counts its hit and the transaction of the count fails.
abbrev pub Answered : Bool → Fault → Text → Result Error (Option Text) → Type 0
Answered b f t answer =
    (answer ≡ ok (some t)) ⊎ ((b ≡ true) × (is_fault f ≡ true) × (answer ≡ err database_error))

flush_hits-fault :
    (s : CacheStore) (now : ℕ) (f : Fault) (e : Error)
    → (flush_hits s now f).1 ≡ err e
    → (is_fault f ≡ true) × (e ≡ database_error)
unfolding flush_hits
flush_hits-fault s now f e q = go s.pending_hits refl
  where
    go :
        (pending : List (Text × ℕ))
        → s.pending_hits ≡ pending
        → (is_fault f ≡ true) × (e ≡ database_error)
    go [] p = absurd (ground (arith, p, q))
    go (x ∷ xs) p = elim (Bool-cases (is_fault f)) [
      | inl z ↦ (z, ground (arith, p, q, z))
      | inr z ↦ absurd (ground (arith, p, q, z))
    ]

queue_hit-fault :
    (c : Config) (s : CacheStore) (key : Text) (now : ℕ) (f : Fault) (e : Error)
    → (queue_hit c s key now f).1 ≡ err e
    → (is_fault f ≡ true) × (e ≡ database_error)
unfolding queue_hit
queue_hit-fault c s key now f e q =
    let counted = record s {
      pending_hits = count_up key 1 s.pending_hits;
      pending_total = s.pending_total + 1;
    } in
    elim (Bool-cases (leb c.hit_flush_threshold (s.pending_total + 1))) [
      | inl z ↦ flush_hits-fault counted now f e (ground (arith, z, q))
      | inr z ↦ absurd (ground (arith, z, q))
    ]

get-Answered :
    (c : Config) (s : CacheStore) (q : Query) (t key : Text) (at later : ℕ) (b : Bool) (f : Fault)
    → compute_key c.hashing q ≡ ok key
    → Keeps key t at s.rows
    → later ≤ at + c.ttl
    → Answered b f t (get c s q b later f).1
unfolding get found is_older
get-Answered c s q t key at later b f k (r, e, text, made) l =
    let fresh : ltb (r.created_at + c.ttl) later ≡ false = ground (arith, made, l) in
    elim (Bool-cases b) [
      | inr z ↦ inl (ground (arith, k, e, fresh, z, text))
      | inl z ↦ elim (Result-cases (queue_hit c s key later f).1) [
        | inl (x, w) ↦
            let (faulty, kind) = queue_hit-fault c s key later f x w in
            inr (z, faulty, ground (arith, k, e, fresh, z, w, kind))
        | inr (n, w) ↦ inl (ground (arith, k, e, fresh, z, w, text))
      ]
    ]

-- A text that is put with a commit is the answer of the lookups of the same query up to the end of its
-- time to live, whether they count the hit or not, and whatever lookups by then, counted hits, flushes
-- and writes of other keys come between, failed ones included, as long as these writes and those since
-- the last prune are fewer than those that make a prune due. Only where the lookup counts its hit and
-- the transaction of the counts fails does it raise that error instead.
pub get-put :
    (c : Config) (s : CacheStore) (q : Query) (t key : Text) (now later : ℕ) (b : Bool) (f : Fault)
    (events : List Event)
    → compute_key c.hashing q ≡ ok key
    → is_blank (strip t) ≡ false
    → s.writes_since_prune + 1 + written_entries events < threshold c
    → All (IsCalm c key (now + c.ttl)) events
    → later ≤ now + c.ttl
    → Answered b f t (get c (run c (put c s q t now commits).0 events) q b later f).1
unfolding put put_many make_rows make_row write_rows upsert_all new_row
get-put c s q t key now later b f events k blank room calm l =
    let row : Row = new_row c.hashing now key (q, t) in
    let (r, e, (text, made)) = select-upsert row s.rows in
    let due : leb (threshold c) (s.writes_since_prune + 1) ≡ false = ground (arith, room) in
    let after = (put c s q t now commits).0 in
    let rows : after.rows ≡ upsert row s.rows = ground (arith, k, blank, due) in
    let writes : after.writes_since_prune ≡ s.writes_since_prune + 1 =
      ground (arith, k, blank, due) in
    let stored : Keeps key t now after.rows = (r, ap (select key) rows ∙ e, text, made) in
    get-Answered c (run c after events) q t key now later b f k
      (run-Keeps c key t now after events calm
        (record { kept = stored; room = omega (arith, writes, room) }))
      l
