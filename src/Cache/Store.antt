-- ===== src/Cache/Store.antt =====
-- cache.py, `CacheStore`: the table with the counters in memory, and the operations. A transaction
-- commits, or it is rolled back and its rows are as they were; which of the two is an argument. What
-- a call does under its locks is one step.
use cwa_e_book_translate_plu.Prelude.{
  ℕ, ◌+◌, ◌-◌, ◌*◌, min, Bool, true, false, ◌&&◌, Value, none_value, as_positive_int, Result, ok,
  err, List, [], ◌∷◌, Option, none, some, Text, strip, is_blank, text_eq, length, leb, ◌==◌,
  if◌then◌else◌,
}
use cwa_e_book_translate_plu.Cache.{
  Error, value_error, database_error, Hashing, Row, Query, compute_key, select, delete_where,
  delete_expired, is_older, upsert_all, enforce_cap, add_all_hits,
}

-- The configuration that `__init__` has accepted; the time to live is in the unit of the timestamps.
pub record Config : Type 0 where
  pub hashing : Hashing
  pub ttl : ℕ
  pub day : ℕ
  pub max_entries : ℕ
  pub hit_flush_threshold : ℕ

pub record CacheStore : Type 0 where
  pub rows : List Row
  pub pending_hits : List (Text × ℕ)
  pub pending_total : ℕ
  pub writes_since_prune : ℕ

abbrev pub empty : CacheStore
empty = record { rows = []; pending_hits = []; pending_total = 0; writes_since_prune = 0 }

-- How a transaction goes: it commits, its first statement raises, or its commit does.
pub data Fault : Type 0 where
  commits insert_fails commit_fails : Fault

unfoldable pub is_fault : Fault → Bool
is_fault commits = false
is_fault insert_fails = true
is_fault commit_fails = true

-- `counter[key] += count`
unfoldable pub count_up : Text → ℕ → List (Text × ℕ) → List (Text × ℕ)
count_up key count [] = (key, count) ∷ []
count_up key count ((k, n) ∷ pending) =
    let rest = count_up key count pending in
    if text_eq k key then (k, n + count) ∷ pending else (k, n) ∷ rest

-- `Counter.update`
unfoldable pub count_all : List (Text × ℕ) → List (Text × ℕ) → List (Text × ℕ)
unfolding count_up
count_all [] pending = pending
count_all ((k, n) ∷ more) pending = count_all more (count_up k n pending)

-- `flush_hits`; nothing comes between taking the counters and giving them back
unfoldable pub flush_hits : CacheStore → ℕ → Fault → CacheStore × Result Error ℕ
unfolding count_all
flush_hits s now fault = elim s.pending_hits [
  | [] ↦ (s, ok 0)
  | p ∷ ps ↦
      if is_fault fault
      then (
        record s { pending_hits = count_all (p ∷ ps) []; pending_total = 0 + s.pending_total },
        err database_error,
      )
      else (
        record s { rows = add_all_hits (p ∷ ps) now s.rows; pending_hits = []; pending_total = 0 },
        ok s.pending_total,
      )
]

unfoldable pub queue_hit : Config → CacheStore → Text → ℕ → Fault → CacheStore × Result Error ℕ
unfolding count_up flush_hits
queue_hit c s key now fault =
    let counted = record s {
      pending_hits = count_up key 1 s.pending_hits;
      pending_total = s.pending_total + 1;
    } in
    if leb c.hit_flush_threshold (s.pending_total + 1)
    then flush_hits counted now fault
    else (counted, ok 0)

-- `record_hit`
unfoldable pub record_hit : Config → CacheStore → Query → ℕ → Fault → CacheStore × Result Error ℕ
unfolding queue_hit
record_hit c s q now fault = elim (compute_key c.hashing q) [
  | err e ↦ (s, err e)
  | ok key ↦ queue_hit c s key now fault
]

-- The row of an expired answer is deleted if it was not replaced in the meantime.
unfoldable pub drop_row : CacheStore → Row → CacheStore
drop_row s r = record s {
  rows = delete_where (λ x. text_eq x.cache_key r.cache_key && x.created_at == r.created_at) s.rows;
}

-- the end of `get`, with the row that was found
unfoldable pub found :
    Config → CacheStore → Text → Row → Bool → ℕ → Fault → CacheStore × Result Error (Option Text)
unfolding drop_row queue_hit is_older
found c s key r count_hit now fault =
    let (counted, counting) = queue_hit c s key now fault in
    if is_older c.ttl now r
    then if is_fault fault then (s, err database_error) else (drop_row s r, ok none)
    else if count_hit
    then elim counting [ err e ↦ (counted, err e) | ok _ ↦ (counted, ok (some r.translated_text)) ]
    else (s, ok (some r.translated_text))

unfoldable pub get :
    Config → CacheStore → Query → Bool → ℕ → Fault → CacheStore × Result Error (Option Text)
unfolding found
get c s q count_hit now fault = elim (compute_key c.hashing q) [
  | err e ↦ (s, err e)
  | ok key ↦ elim (select key s.rows) [
    | none ↦ (s, ok none)
    | some r ↦ found c s key r count_hit now fault
  ]
]

abbrev pub Entry : Type 0
Entry = Query × Text

unfoldable pub new_row : Hashing → ℕ → Text → Entry → Row
new_row h now key (q, translated) = record {
  cache_key = key;
  tenant_hash = h.identifier q.scope.tenant;
  book_hash = h.identifier q.scope.book_id;
  chapter_hash = h.identifier q.scope.chapter_id;
  context_hash = h.identifier q.scope.context_hash;
  source_lang = strip q.source_lang;
  target_lang = strip q.target_lang;
  translated_text = translated;
  provider = q.scope.provider;
  model = q.scope.model;
  prompt_hash = q.scope.prompt_hash;
  protocol_version = q.scope.protocol_version;
  created_at = now;
  last_accessed_at = now;
  hit_count = 0;
}

-- one round of the loop of `put_many`
unfoldable pub make_row : Hashing → ℕ → Entry → Result Error Row
unfolding new_row
make_row h now e =
    if is_blank (strip e.1)
    then err value_error
    else elim (compute_key h e.0) [ err x ↦ err x | ok key ↦ ok (new_row h now key e) ]

unfoldable pub make_rows : Hashing → ℕ → List Entry → Result Error (List Row)
unfolding make_row
make_rows h now [] = ok []
make_rows h now (e ∷ es) = elim (make_row h now e) [
  | err x ↦ err x
  | ok r ↦ elim (make_rows h now es) [ err x ↦ err x | ok rs ↦ ok (r ∷ rs) ]
]

-- `min(1000, max_entries)`
abbrev pub threshold : Config → ℕ
threshold c = min 1000 c.max_entries

-- the rows after the inserts, and after the retention where it is due
unfoldable pub retained : Config → ℕ → List Row → List Row
unfolding delete_expired enforce_cap
retained c now rows = enforce_cap c.max_entries (delete_expired c.ttl now rows)

-- the transaction
unfoldable pub write_rows :
    Config → CacheStore → List Row → ℕ → Fault → CacheStore × Result Error (Unit {0})
unfolding retained
write_rows c s rows now fault =
    let written = upsert_all rows s.rows in
    let writes = s.writes_since_prune + length rows in
    let due = leb (threshold c) writes in
    let counted = record s { writes_since_prune = if due then 0 else writes } in
    elim fault [
      | insert_fails ↦ (s, err database_error)
      | commit_fails ↦ (counted, err database_error)
      | commits ↦ (record counted { rows = if due then retained c now written else written }, ok tt)
    ]

unfoldable pub put_many :
    Config → CacheStore → List Entry → ℕ → Fault → CacheStore × Result Error (Unit {0})
unfolding make_rows write_rows
put_many c s [] now fault = (s, err value_error)
put_many c s (e ∷ es) now fault = elim (make_rows c.hashing now (e ∷ es)) [
  | err x ↦ (s, err x)
  | ok rows ↦ write_rows c s rows now fault
]

unfoldable pub put :
    Config → CacheStore → Query → Text → ℕ → Fault → CacheStore × Result Error (Unit {0})
put c s q translated now fault = put_many c s ((q, translated) ∷ []) now fault

-- `retention_days`, in the unit of the timestamps; `None` is the time to live
unfoldable pub retention_of : Config → Value → Option ℕ
retention_of c none_value = some c.ttl
retention_of c days = elim (as_positive_int days) [ none ↦ none | some n ↦ some (n * c.day) ]

-- `cleanup`, with the days to keep; `flushes` is how the flush before it goes
unfoldable pub cleanup :
    Config → CacheStore → Value → ℕ → Fault → Fault → CacheStore × Result Error ℕ
unfolding flush_hits delete_expired enforce_cap retention_of
cleanup c s days now flushes fault = elim (retention_of c days) [
  | none ↦ (s, err value_error)
  | some n ↦
      let (flushed, flushing) = flush_hits s now flushes in
      let kept = delete_expired n now flushed.rows in
      elim flushing [
        | err e ↦ (flushed, err e)
        | ok _ ↦ if is_fault fault then (flushed, err database_error) else (
          record flushed { rows = enforce_cap c.max_entries kept },
          ok (length flushed.rows - length kept),
        )
      ]
]

unfoldable pub total_hits : List Row → ℕ
total_hits [] = 0
total_hits (r ∷ rows) = r.hit_count + total_hits rows

-- `stats`: the entries and the hits that it counts
unfoldable pub stats : Config → CacheStore → ℕ → Fault → Fault → CacheStore × Result Error (ℕ × ℕ)
unfolding flush_hits retained total_hits
stats c s now flushes fault =
    let (flushed, flushing) = flush_hits s now flushes in
    let kept = retained c now flushed.rows in
    elim flushing [
      | err e ↦ (flushed, err e)
      | ok _ ↦
          if is_fault fault
          then (flushed, err database_error)
          else (record flushed { rows = kept }, ok (length kept, total_hits kept))
    ]

-- One call of a request or of the operator.
pub data Event : Type 0 where
  gets : Query → Bool → ℕ → Fault → Event
  hits : Query → ℕ → Fault → Event
  puts : List Entry → ℕ → Fault → Event
  flushes : ℕ → Fault → Event
  cleans : Value → ℕ → Fault → Fault → Event
  counts : ℕ → Fault → Fault → Event

unfoldable pub step : Config → CacheStore → Event → CacheStore
unfolding get record_hit put_many flush_hits cleanup stats
step c s (gets q b now f) = (get c s q b now f).0
step c s (hits q now f) = (record_hit c s q now f).0
step c s (puts es now f) = (put_many c s es now f).0
step c s (flushes now f) = (flush_hits s now f).0
step c s (cleans days now g f) = (cleanup c s days now g f).0
step c s (counts now g f) = (stats c s now g f).0

unfoldable pub run : Config → CacheStore → List Event → CacheStore
run c s [] = s
run c s (e ∷ es) = run c (step c s e) es
