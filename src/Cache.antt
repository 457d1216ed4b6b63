-- ===== src/Cache.antt =====
-- cache.py: the rows of the table `translations_v2`, the keys, and what each SQL statement does to the
-- rows. A timestamp is a number: the ISO texts that the table holds are all in UTC, so their order as
-- texts is that of the times. The rows stand in the order of their insertion, which no statement reads.
mod Tests
pub mod Store
pub mod Bounded
pub mod Cap
pub mod Provenance
pub mod Answers
pub mod Latest
pub mod Spared
pub mod Kept
pub mod Written
use cwa_e_book_translate_plu.Prelude.{
  ℕ, zero, suc, ◌+◌, ◌*◌, min, Bool, true, false, not, ◌&&◌, ◌||◌, Result, ok, err, ◌>>=◌, List, [],
  ◌∷◌, ◌++◌, map, Option, none, some, Text, codes, strip, is_blank, text_eq, length, drop, ltb, leb,
  ◌==◌, if◌then◌else◌,
}

pub data Error : Type 0 where
  value_error database_error : Error

-- `CacheScope`
pub record CacheScope : Type 0 where
  pub tenant : Text
  pub book_id : Text
  pub chapter_id : Text
  pub context_hash : Text
  pub provider : Text
  pub model : Text
  pub prompt_hash : Text
  pub protocol_version : Text

-- one round of the loop of `__post_init__`
unfoldable pub clean_field : Text → Result Error Text
clean_field value =
    if is_blank (strip value)
    then err value_error
    else if ltb 1024 (length value)
    then err value_error
    else ok (strip value)

-- `__post_init__`
unfoldable pub clean_scope : CacheScope → Result Error CacheScope
unfolding clean_field
clean_scope s = do
  tenant ← clean_field s.tenant
  book_id ← clean_field s.book_id
  chapter_id ← clean_field s.chapter_id
  context_hash ← clean_field s.context_hash
  provider ← clean_field s.provider
  model ← clean_field s.model
  prompt_hash ← clean_field s.prompt_hash
  protocol_version ← clean_field s.protocol_version
  ok (record {
    tenant = tenant;
    book_id = book_id;
    chapter_id = chapter_id;
    context_hash = context_hash;
    provider = provider;
    model = model;
    prompt_hash = prompt_hash;
    protocol_version = protocol_version;
  })

-- The SHA-256 of the canonical JSON of a list of texts, and that of one identifier.
pub record Hashing : Type 0 where
  pub digest : List Text → Text
  pub identifier : Text → Text

pub record Row : Type 0 where
  pub cache_key : Text
  pub tenant_hash : Text
  pub book_hash : Text
  pub chapter_hash : Text
  pub context_hash : Text
  pub source_lang : Text
  pub target_lang : Text
  pub translated_text : Text
  pub provider : Text
  pub model : Text
  pub prompt_hash : Text
  pub protocol_version : Text
  pub created_at : ℕ
  pub last_accessed_at : ℕ
  pub hit_count : ℕ

-- What is looked up: the text, the two languages and the scope.
pub record Query : Type 0 where
  pub text : Text
  pub source_lang : Text
  pub target_lang : Text
  pub scope : CacheScope

-- the list that is hashed
unfoldable pub payload : Query → List Text
payload q =
    codes "cwa-translate-cache/v2"
    ∷ q.scope.tenant
    ∷ q.scope.book_id
    ∷ q.scope.chapter_id
    ∷ q.scope.context_hash
    ∷ q.scope.provider
    ∷ q.scope.model
    ∷ q.scope.prompt_hash
    ∷ q.scope.protocol_version
    ∷ strip q.source_lang
    ∷ strip q.target_lang
    ∷ strip q.text
    ∷ []

unfoldable pub compute_key : Hashing → Query → Result Error Text
unfolding payload
compute_key h q =
    if is_blank (strip q.source_lang) || is_blank (strip q.target_lang)
    then err value_error
    else ok (h.digest (payload q))

-- SELECT ... WHERE cache_key = ?
unfoldable pub select : Text → List Row → Option Row
select key [] = none
select key (r ∷ rows) = if text_eq r.cache_key key then some r else select key rows

-- DELETE ... WHERE: the rows that do not pass the test stay
unfoldable pub delete_where : (Row → Bool) → List Row → List Row
delete_where test [] = []
delete_where test (r ∷ rows) =
    let rest = delete_where test rows in if test r then rest else r ∷ rest

-- `DELETE ... WHERE created_at < cutoff`, with the cutoff `retention` before `now`
unfoldable pub is_older : ℕ → ℕ → Row → Bool
is_older retention now r = ltb (r.created_at + retention) now

unfoldable pub delete_expired : ℕ → ℕ → List Row → List Row
unfolding is_older delete_where
delete_expired retention now rows = delete_where (is_older retention now) rows

-- ON CONFLICT(cache_key) DO UPDATE
unfoldable pub overwrite : Row → Row → Row
overwrite new old = record old {
  translated_text = new.translated_text;
  provider = new.provider;
  model = new.model;
  prompt_hash = new.prompt_hash;
  protocol_version = new.protocol_version;
  created_at = new.created_at;
  last_accessed_at = new.last_accessed_at;
}

unfoldable pub upsert : Row → List Row → List Row
unfolding overwrite
upsert new [] = new ∷ []
upsert new (r ∷ rows) =
    let rest = upsert new rows in
    if text_eq r.cache_key new.cache_key then overwrite new r ∷ rows else r ∷ rest

unfoldable pub upsert_all : List Row → List Row → List Row
upsert_all [] rows = rows
upsert_all (new ∷ more) rows = upsert_all more (upsert new rows)

-- the order of texts, which is that of their UTF-8 bytes
unfoldable pub text_ltb : Text → Text → Bool
text_ltb [] [] = false
text_ltb [] (d ∷ ds) = true
text_ltb (c ∷ cs) [] = false
text_ltb (c ∷ cs) (d ∷ ds) = let rest = text_ltb cs ds in if c == d then rest else ltb c d

-- ORDER BY last_accessed_at DESC, created_at DESC, cache_key DESC: `a` comes before `b`
unfoldable pub is_before : Row → Row → Bool
unfolding text_ltb
is_before a b =
    if a.last_accessed_at == b.last_accessed_at
    then if a.created_at == b.created_at
      then text_ltb b.cache_key a.cache_key
      else ltb b.created_at a.created_at
    else ltb b.last_accessed_at a.last_accessed_at

unfoldable pub insert_sorted : Row → List Row → List Row
insert_sorted r [] = r ∷ []
insert_sorted r (x ∷ xs) =
    let rest = insert_sorted r xs in if is_before x r then x ∷ rest else r ∷ x ∷ xs

unfoldable pub order_by : List Row → List Row
order_by [] = []
order_by (r ∷ rows) = insert_sorted r (order_by rows)

unfoldable pub is_key : List Row → Row → Bool
is_key [] r = false
is_key (v ∷ vs) r = text_eq v.cache_key r.cache_key || is_key vs r

-- `_enforce_cap`: the rows beyond the first `max_entries` of the order are deleted by their keys
unfoldable pub enforce_cap : ℕ → List Row → List Row
unfolding is_key order_by delete_where
enforce_cap max_entries rows = delete_where (is_key (drop max_entries (order_by rows))) rows

-- UPDATE ... SET hit_count = hit_count + count, last_accessed_at = at WHERE cache_key = key
unfoldable pub add_hits : Text → ℕ → ℕ → List Row → List Row
add_hits key count at [] = []
add_hits key count at (r ∷ rows) =
    let rest = add_hits key count at rows in
    if text_eq r.cache_key key
    then record r { hit_count = r.hit_count + count; last_accessed_at = at } ∷ rest
    else r ∷ rest

unfoldable pub add_all_hits : List (Text × ℕ) → ℕ → List Row → List Row
unfolding add_hits
add_all_hits [] at rows = rows
add_all_hits ((key, count) ∷ more) at rows = add_all_hits more at (add_hits key count at rows)
