-- ===== src/Paragraphs.antt =====
-- server.py: `_translate_paragraphs`, which answers the groups of a request from the cache or has them
-- translated, and `_cache_lookup`; and translator.py: the models that the cache is asked for. The calls
-- of the cache by this request are numbered: `Env` says at which time each is made and whether its
-- transaction fails. What other requests do to the cache in the meantime is not in the model.
pub mod Collect
pub mod Hits
pub mod Found
pub mod Probed
pub mod Collected
pub mod Whole
pub mod Written
pub mod Lookup
pub mod Atomic
mod Tests
use cwa_e_book_translate_plu.Prelude.{
  ℕ, zero, suc, ◌+◌, Bool, true, false, not, ◌&&◌, String, Result, ok, err, List, [], ◌∷◌, ◌++◌,
  map, Option, none, some, Text, codes, is_blank, text_eq, length, get_elem?, set, take,
  if◌then◌else◌, str_eq,
}
use cwa_e_book_translate_plu.Batch.{translation_groups, is_empty, text_at}
use cwa_e_book_translate_plu.Batch
use cwa_e_book_translate_plu.Provider.{Provider}
use cwa_e_book_translate_plu.Provider.Call.{eligible_providers}
use cwa_e_book_translate_plu.Envelope.Group.{BatchTranslationItem, GroupResult}
use cwa_e_book_translate_plu.Envelope.Contract.{
  TranslationCacheContract, Contracts, single_cache_contract, batch_cache_contract,
}
use cwa_e_book_translate_plu.Cache.{CacheScope, Query, clean_scope}
use cwa_e_book_translate_plu.Cache
use cwa_e_book_translate_plu.Cache.Store
use cwa_e_book_translate_plu.Cache.Store.{CacheStore, Fault, get, record_hit, put_many, Entry}
use cwa_e_book_translate_plu.Window
use cwa_e_book_translate_plu.Window.{
  Answer, answered, rejected, waiting, exceeded, translate_batch_detailed,
}

-- `model_for_provider`
unfoldable pub model_for_provider : Provider → Option Provider → String → String
model_for_provider primary fallback provider_name =
    if str_eq provider_name primary.cache_namespace then primary.model else elim fallback [
      | none ↦ primary.model
      | some f ↦ if str_eq provider_name f.cache_namespace then f.model else primary.model
    ]

-- `cache_lookup_backends`
unfoldable pub cache_lookup_backends : Provider → Option Provider → Bool → List (String × String)
cache_lookup_backends primary fallback allow_cloud_fallback =
    map (λ p. (p.cache_namespace, p.model))
      (eligible_providers primary fallback allow_cloud_fallback)

-- The request: its texts and languages, the namespace of its cache entries, and its consent.
pub record Request : Type 0 where
  pub paragraphs : List Text
  pub source_lang : Text
  pub target_lang : Text
  pub tenant : Text
  pub book_id : Text
  pub chapter_id : Text
  pub allow_cloud_fallback : Bool

-- The settings of the cache and of the grouping, the contracts for the two languages, and the providers.
pub record Config : Type 0 where
  pub cache : Store.Config
  pub batch : Batch.Config
  pub contracts : Contracts Text
  pub primary : Provider
  pub fallback : Option Provider
  pub max_concurrent : ℕ

pub record Env : Type 0 where
  pub times : ℕ → ℕ
  pub faults : ℕ → Fault

-- The cache, and the number of calls made of it.
pub record Session : Type 0 where
  pub store : CacheStore
  pub calls : ℕ

-- How a call ends that does not return: an exception, or groups that have not ended.
pub data Failure : Type 0 where
  cache_error value_error still_waiting : Failure
  work_budget_exceeded : String → Failure

-- `_cache_scope`
unfoldable pub cache_scope :
    Request → TranslationCacheContract Text → String → String → Result Failure CacheScope
cache_scope r k provider model =
    let scope : CacheScope = record {
      tenant = r.tenant;
      book_id = r.book_id;
      chapter_id = r.chapter_id;
      context_hash = k.context_hash;
      provider = codes provider;
      model = codes model;
      prompt_hash = k.prompt_hash;
      protocol_version = k.protocol_version;
    } in
    elim (clean_scope scope) [ err e ↦ err value_error | ok clean ↦ ok clean ]

abbrev pub query_of : Request → CacheScope → ℕ → Query
query_of r scope index = record {
  text = text_at r.paragraphs index;
  source_lang = r.source_lang;
  target_lang = r.target_lang;
  scope = scope;
}

abbrev pub Hit : Type 0
Hit = ℕ × Text × CacheScope

-- one call of `get_cached`
unfoldable pub get_cached :
    Config → Env → Session → Query → Bool → Session × Result Failure (Option Text)
get_cached c env s q count_hit =
    let (store, result) =
      get c.cache s.store q count_hit (env.times s.calls) (env.faults s.calls) in
    (
      record { store = store; calls = s.calls + 1 },
      elim result [ err e ↦ err cache_error | ok hit ↦ ok hit ],
    )

-- the loop over the indices of a group; `none` is a miss
unfoldable pub probe_group :
    Config
    → Env
    → Request
    → CacheScope
    → Session
    → List ℕ
    → Session × Result Failure (Option (List Hit))
unfolding get_cached
probe_group c env r scope s [] = (s, ok (some []))
probe_group c env r scope s (index ∷ group) =
    let (s', result) = get_cached c env s (query_of r scope index) false in
    let (s'', rest) = probe_group c env r scope s' group in
    elim result [
      | err e ↦ (s', err e)
      | ok none ↦ (s', ok none)
      | ok (some hit) ↦ elim rest [
        | err e ↦ (s'', err e)
        | ok none ↦ (s'', ok none)
        | ok (some hits) ↦ (s'', ok (some ((index, hit, scope) ∷ hits)))
      ]
    ]

-- one backend: the scope of its entries, which each round of the loop makes again, and the loop
unfoldable pub probe_backend :
    Config
    → Env
    → Request
    → TranslationCacheContract Text
    → String × String
    → Session
    → List ℕ
    → Session × Result Failure (Option (List Hit))
unfolding cache_scope probe_group
probe_backend c env r k backend s [] = (s, ok none)
probe_backend c env r k backend s (index ∷ group) = elim (cache_scope r k backend.0 backend.1) [
  | err e ↦ (s, err e)
  | ok scope ↦ probe_group c env r scope s (index ∷ group)
]

-- the loop over the backends for one contract
unfoldable pub probe_backends :
    Config
    → Env
    → Request
    → TranslationCacheContract Text
    → List (String × String)
    → Session
    → List ℕ
    → Session × Result Failure (Option (List Hit))
unfolding probe_backend
probe_backends c env r k [] s group = (s, ok none)
probe_backends c env r k (b ∷ backends) s group =
    let (s', found) = probe_backend c env r k b s group in
    let later = probe_backends c env r k backends s' group in
    elim found [ err e ↦ (s', err e) | ok (some hits) ↦ (s', ok (some hits)) | ok none ↦ later ]

-- the batch contract of the group first, then the contract of a single text
unfoldable pub probe_contracts :
    Config
    → Env
    → Request
    → TranslationCacheContract Text
    → Session
    → List ℕ
    → Session × Result Failure (Option (List Hit))
unfolding probe_backends cache_lookup_backends
probe_contracts c env r contract s group =
    let backends = cache_lookup_backends c.primary c.fallback r.allow_cloud_fallback in
    let (s', found) = probe_backends c env r contract backends s group in
    let singly = probe_backends c env r (single_cache_contract c.contracts) backends s' group in
    elim found [ err e ↦ (s', err e) | ok (some hits) ↦ (s', ok (some hits)) | ok none ↦ singly ]

-- What the response holds, for each paragraph and in sum; `start` is the elapsed time's, left out.
pub record Response : Type 0 where
  pub translations : List Text
  pub backends : List Text
  pub cached : List Bool
  pub error_codes : List (Option String)
  pub retry_after_seconds : List (Option ℕ)
  pub cached_count : ℕ
  pub fresh_count : ℕ

abbrev pub blank_response : List Text → Response
blank_response paragraphs = record {
  translations = map (λ _. []) paragraphs;
  backends = map (λ _. []) paragraphs;
  cached = map (λ _. false) paragraphs;
  error_codes = map (λ _. none) paragraphs;
  retry_after_seconds = map (λ _. none) paragraphs;
  cached_count = 0;
  fresh_count = 0;
}

-- one accepted hit, without the call of the cache
unfoldable pub serve_hit : Response → Hit → Response
serve_hit p h = record p {
  translations = set p.translations h.0 h.1;
  backends = set p.backends h.0 (codes "cache");
  cached = set p.cached h.0 true;
  cached_count = p.cached_count + 1;
}

-- `for index, hit, scope in accepted`
unfoldable pub serve_hits :
    Config → Env → Request → Session → Response → List Hit → Session × Result Failure Response
unfolding serve_hit
serve_hits c env r s p [] = (s, ok p)
serve_hits c env r s p ((index, hit, scope) ∷ hits) =
    let (store, counting) =
      record_hit c.cache s.store (query_of r scope index) (env.times s.calls)
        (env.faults s.calls) in
    let s' : Session = record { store = store; calls = s.calls + 1 } in
    let rest = serve_hits c env r s' (serve_hit p (index, hit, scope)) hits in
    elim counting [ err e ↦ (s', err cache_error) | ok n ↦ rest ]

-- a group with its contract
abbrev pub Planned : Type 0
Planned = List ℕ × TranslationCacheContract Text

-- the dictionary `contracts`
unfoldable pub plan_groups : Config → Request → List (List ℕ) → Result Failure (List Planned)
plan_groups c r [] = ok []
plan_groups c r (group ∷ groups) =
    let rest = plan_groups c r groups in
    elim (batch_cache_contract c.contracts r.paragraphs group) [
      | err e ↦ err value_error
      | ok contract ↦ elim rest [ err e ↦ err e | ok planned ↦ ok ((group, contract) ∷ planned) ]
    ]

-- one round of `for group in groups`: the response so far, and whether the group is missing
unfoldable pub serve_group :
    Config
    → Env
    → Request
    → Session
    → Response
    → Planned
    → Session × Result Failure (Response × Bool)
unfolding probe_contracts serve_hits
serve_group c env r s p planned =
    let (s', found) = probe_contracts c env r planned.1 s planned.0 in
    elim found [
      | err e ↦ (s', err e)
      | ok none ↦ (s', ok (p, true))
      | ok (some hits) ↦
          let (t, served) = serve_hits c env r s' p hits in
          (t, elim served [ err e ↦ err e | ok q ↦ ok (q, false) ])
    ]

-- `for group in groups`: the response so far, and the groups that are missing
unfoldable pub serve_groups :
    Config
    → Env
    → Request
    → Session
    → Response
    → List Planned
    → Session × Result Failure (Response × List Planned)
unfolding serve_group
serve_groups c env r s p [] = (s, ok (p, []))
serve_groups c env r s p (g ∷ planned) =
    let (s', served) = serve_group c env r s p g in
    elim served [
      | err e ↦ (s', err e)
      | ok (q, is_missing) ↦
          let (t, rest) = serve_groups c env r s' q planned in
          (
            t,
            elim rest [
              | err e ↦ err e
              | ok (q', missing) ↦ ok (q', if is_missing then g ∷ missing else missing)
            ],
          )
    ]
