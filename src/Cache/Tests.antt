-- ===== src/Cache/Tests.antt =====
-- cache.py: a store of one entry, under a digest without collisions.
use Prim.Native.Nat.{◌≤◌, ◌<◌}
use cwa_e_book_translate_plu.Prelude.{
  ℕ, ◌+◌, ◌*◌, ◌≡◌, refl, arith, true, false, ok, List, [], ◌∷◌, none, some, codes, text_eq, strip,
  lstrip, is_space, is_blank, length,
}
use cwa_e_book_translate_plu.Digest.{encode, encode_inj}
use cwa_e_book_translate_plu.Cache.{
  CacheScope, Row, Query, payload, compute_key, select, is_older, delete_where, delete_expired,
  overwrite, upsert, upsert_all, text_ltb, is_before, insert_sorted, order_by, is_key, enforce_cap,
  add_hits, add_all_hits,
}
use cwa_e_book_translate_plu.Cache.Store.{
  count_up, count_all, Config, empty, commits, commit_fails, is_fault, flush_hits, queue_hit,
  record_hit, drop_row, found, get, new_row, make_row, make_rows, threshold, retained, write_rows,
  put_many, Event, gets, puts, flushes, step, run,
}
use cwa_e_book_translate_plu.Cache.Cap.{lost_commits, run-capped}
use cwa_e_book_translate_plu.Cache.Answers.{Stored, get-Stored}
use cwa_e_book_translate_plu.Cache.Store.{put}
use cwa_e_book_translate_plu.Cache.Written.{Answered, get-put}

abbrev config : Config
config = record {
  hashing = record { digest = encode; identifier = λ t. t };
  ttl = 10;
  day = 5;
  max_entries = 2;
  hit_flush_threshold = 1;
}

abbrev scope : CacheScope
scope = record {
  tenant = codes "t";
  book_id = codes "b";
  chapter_id = codes "c";
  context_hash = codes "x";
  provider = codes "local";
  model = codes "m";
  prompt_hash = codes "p";
  protocol_version = codes "v";
}

abbrev query : Query
query = record {
  text = codes "uno";
  source_lang = codes "es";
  target_lang = codes "en";
  scope = scope;
}

abbrev other : Query
other = record query { text = codes "dos" }

-- The second write is lost, and the lookup counts its hit.
abbrev calls : List Event
calls =
    puts ((query, codes "one") ∷ []) 3 commits
    ∷ puts ((other, codes "two") ∷ []) 4 commit_fails
    ∷ gets query true 5 commits
    ∷ []

program : Unit {0}
unfolding payload compute_key select is_older delete_where delete_expired overwrite upsert
    upsert_all text_ltb is_before insert_sorted order_by is_key enforce_cap add_hits add_all_hits
    count_up count_all is_fault flush_hits queue_hit record_hit drop_row found get new_row make_row
    make_rows retained write_rows put_many step run
program = tt

lookup_hit : (get config (run config empty calls) query true 6 commits).1 ≡ ok (some (codes "one"))
unfolding program is_blank strip lstrip is_space text_eq
lookup_hit = refl

lookup_expired : (get config (run config empty calls) query true 14 commits).1 ≡ ok none
unfolding program is_blank strip lstrip is_space text_eq
lookup_expired = refl

run-capped_example :
    length (run config empty calls).rows
    < 2 + threshold config + lost_commits calls * threshold config
run-capped_example = run-capped config calls (omega arith)

get-Stored_example :
    (at : ℕ) × (6 ≤ at + 10)
    × Stored config.hashing (λ p. payload p ≡ payload query) calls (codes "one") at
get-Stored_example =
    get-Stored config calls query true 6 commits (codes "one") encode_inj lookup_hit

abbrev stored_rows : List Row
stored_rows = (run config empty calls).rows

key_of_query : compute_key config.hashing query ≡ ok (encode (payload query))
unfolding program is_blank strip lstrip is_space text_eq
key_of_query = refl

not_blank : is_blank (strip (codes "one")) ≡ false
unfolding is_blank strip lstrip is_space
not_blank = refl

-- a table that no prune comes to in these calls
abbrev wide : Config
wide = record config { max_entries = 9 }

-- two lookups, a flush and two writes of another text, one of them lost
abbrev between : List Event
between =
    gets query true 5 commit_fails
    ∷ puts ((other, codes "two") ∷ []) 6 commits
    ∷ puts ((other, codes "two") ∷ []) 7 commit_fails
    ∷ flushes 8 commits
    ∷ gets other false 9 commits
    ∷ []

other_key : ¬ (compute_key wide.hashing other ≡ ok (encode (payload query)))
unfolding program is_blank strip lstrip is_space text_eq
other_key e = ground arith

get-put_example :
    Answered true commit_fails
      (codes "one")
      (get wide
        (run wide (put wide empty query (codes "one") 3 commits).0 between)
        query
        true
        13
        commit_fails).1
get-put_example =
    get-put wide empty query (codes "one") (encode (payload query)) 3 13 true commit_fails between
      key_of_query not_blank (omega arith)
      (omega arith, ((other_key, tt), ((other_key, tt), (tt, (omega arith, tt))))) (omega arith)
