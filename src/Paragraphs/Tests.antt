-- ===== src/Paragraphs/Tests.antt =====
-- server.py: a request with one paragraph in the cache, a blank one, and one that is translated.
use Prim.Native.Nat.{◌<◌}
use cwa_e_book_translate_plu.Prelude.{
  String, ℕ, ◌+◌, ◌≡◌, refl, true, false, List, [], ◌∷◌, inl, concat, none, ok, pos, codes, text_eq,
  All, strip, lstrip, is_space, is_blank, ok_or, as_positive_int,
}
use cwa_e_book_translate_plu.Batch.{
  is_distinct, is_valid_selection, is_usable, is_ascending, group_limit, is_within_budget, text_at,
  translation_groups, grouped, work_from, slices, as_natural,
}
use cwa_e_book_translate_plu.Envelope.Contract.{
  single_cache_contract, batch_cache_contract, segments_of,
}
use cwa_e_book_translate_plu.Envelope.Group.{BatchTranslationItem, direct, GroupResult, translated}
use cwa_e_book_translate_plu.Provider.{Provider, openai, local}
use cwa_e_book_translate_plu.Provider.Call.{eligible_providers}
use cwa_e_book_translate_plu.Cache.{
  CacheScope, Query, clean_field, clean_scope, payload, compute_key, select, is_older, delete_where,
  delete_expired, overwrite, upsert, upsert_all, text_ltb, is_before, insert_sorted, order_by,
  is_key, enforce_cap, add_hits, add_all_hits,
}
use cwa_e_book_translate_plu.Cache.Store.{
  count_up, count_all, empty, commits, is_fault, flush_hits, queue_hit, record_hit, drop_row, found,
  get, new_row, make_row, make_rows, retained, write_rows, put_many, Entry,
}
use cwa_e_book_translate_plu.Window.{
  do_group, write_group, count_running, refill, Event, refills, ends, end_group, step, run,
  is_finished, answer, translate_batch_detailed,
}
use cwa_e_book_translate_plu.Window.Results.{In}
use cwa_e_book_translate_plu.Paragraphs.{
  model_for_provider, cache_lookup_backends, Request, Config, Env, Session, cache_scope, query_of,
  get_cached, probe_group, probe_backend, probe_backends, probe_contracts, Response, serve_hit,
  serve_hits, plan_groups, serve_group, serve_groups,
}
use cwa_e_book_translate_plu.Paragraphs.Collect.{
  is_marker, serve_item, cache_entry, collect_group, collect_groups, write_cache, translate_missing,
  translate_planned, translate_paragraphs,
}
use cwa_e_book_translate_plu.Paragraphs.Atomic.{IsAtomic}
use cwa_e_book_translate_plu.Paragraphs.Written.{ModelOf, OneOf, cache_entry-cache_lookup_backends}
use cwa_e_book_translate_plu.Paragraphs.Found.{IsFound, IsUnder}
use cwa_e_book_translate_plu.Paragraphs.Whole.{IsUntouched, translate_paragraphs-IsAtomic}

abbrev model : Provider
model = record {
  provider_id = "p";
  protocol = openai;
  locality = local;
  cache_namespace = "local";
  model = "m";
}

abbrev config : Config
config = record {
  cache = record {
    hashing = record { digest = concat; identifier = λ t. t };
    ttl = 10;
    day = 5;
    max_entries = 9;
    hit_flush_threshold = 9;
  };
  batch = record {
    batch_size = pos 1;
    source_token_budget = 0;
    output_token_factor = 2000;
    output_token_floor = 64;
    context_window = 0;
  };
  contracts = record {
    window = 0;
    system_prompt = codes "s";
    batch_system_prompt = codes "b";
    contract_hash = λ d. codes "h";
  };
  primary = model;
  fallback = none;
  max_concurrent = 1;
}

abbrev request : Request
request = record {
  paragraphs = codes "uno" ∷ codes " " ∷ codes "dos" ∷ [];
  source_lang = codes "es";
  target_lang = codes "en";
  tenant = codes "t";
  book_id = codes "b";
  chapter_id = codes "c";
  allow_cloud_fallback = false;
}

abbrev env : Env
env = record { times = λ n. n + 3; faults = λ n. commits }

abbrev scope : CacheScope
scope = record {
  tenant = codes "t";
  book_id = codes "b";
  chapter_id = codes "c";
  context_hash = codes "h";
  provider = codes "local";
  model = codes "m";
  prompt_hash = codes "h";
  protocol_version = codes "cwa-translate-single/v1";
}

abbrev query : Query
query = record {
  text = codes "uno";
  source_lang = codes "es";
  target_lang = codes "en";
  scope = scope;
}

abbrev warm : Session
warm = record {
  store = (put_many config.cache empty ((query, codes "one") ∷ []) 2 commits).0;
  calls = 0;
}

abbrev item : BatchTranslationItem
item = record {
  text = codes "two";
  provider = "local";
  server_cacheable = true;
  recovery_path = direct;
  error_code = none;
  retry_after_seconds = none;
}

abbrev outcome : List ℕ → GroupResult
outcome is = translated (item ∷ [])

abbrev events : List Event
events = refills ∷ ends 0 ∷ []

abbrev expected : Response
expected = record {
  translations = codes "one" ∷ [] ∷ codes "two" ∷ [];
  backends = codes "cache" ∷ [] ∷ codes "local" ∷ [];
  cached = true ∷ false ∷ false ∷ [];
  error_codes = none ∷ none ∷ none ∷ [];
  retry_after_seconds = none ∷ none ∷ none ∷ [];
  cached_count = 1;
  fresh_count = 1;
}

program : Unit {0}
unfolding do_group write_group count_running refill end_group step run is_finished answer
    translate_batch_detailed is_valid_selection is_distinct is_usable is_ascending group_limit
    is_within_budget text_at is_blank strip lstrip is_space text_eq clean_field clean_scope payload
    compute_key select is_older delete_where delete_expired overwrite upsert upsert_all text_ltb
    is_before insert_sorted order_by is_key enforce_cap add_hits add_all_hits count_up count_all
    is_fault flush_hits queue_hit record_hit drop_row found get new_row make_row make_rows retained
    write_rows put_many ok_or as_positive_int as_natural translation_groups grouped work_from slices
    single_cache_contract batch_cache_contract segments_of eligible_providers model_for_provider
    cache_lookup_backends cache_scope get_cached probe_group probe_backend probe_backends
    probe_contracts serve_hit serve_hits plan_groups serve_group serve_groups is_marker serve_item
    cache_entry collect_group collect_groups write_cache translate_missing translate_planned
    translate_paragraphs
program = tt

ended : (translate_paragraphs config env request outcome events warm).1 ≡ ok expected
unfolding program
ended = refl

translate_paragraphs-IsAtomic_example :
    (groups : List (List ℕ)) × (translation_groups config.batch request.paragraphs none none
      ≡ ok groups)
    × All (IsAtomic (IsUnder config request) (IsFound config env request warm) expected) groups
    × ((i : ℕ) → i < 3 → ¬ (In i (concat groups)) → IsUntouched expected i)
translate_paragraphs-IsAtomic_example =
    translate_paragraphs-IsAtomic config env request outcome events warm expected ended

abbrev written : Entry
written = (record query { text = codes "dos" }, codes "two")

served_entry :
    cache_entry config request (single_cache_contract config.contracts) 2 item ≡ ok written
unfolding program
served_entry = refl

one_provider :
    OneOf model (eligible_providers config.primary config.fallback request.allow_cloud_fallback)
unfolding program
one_provider = inl refl

cache_entry-cache_lookup_backends_example :
    (found_under : CacheScope) × (m : String) × (cache_scope request
        (single_cache_contract config.contracts)
        "local"
        m
      ≡ ok found_under)
    × (written ≡ (query_of request found_under 2, codes "two"))
    × ModelOf model model m
    × OneOf ("local", m) (cache_lookup_backends model none false)
cache_entry-cache_lookup_backends_example =
    cache_entry-cache_lookup_backends config request (single_cache_contract config.contracts) 2 item
      written model one_provider refl served_entry
