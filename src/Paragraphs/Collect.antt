-- ===== src/Paragraphs/Collect.antt =====
-- server.py, `_translate_paragraphs`: what is done with the translated groups, and the whole call.
use cwa_e_book_translate_plu.Prelude.{
  ℕ, ◌+◌, Bool, not, ◌||◌, Result, ok, err, List, [], ◌∷◌, ◌++◌, none, some, Text, codes, text_eq,
  get_elem?, set, take, if◌then◌else◌,
}
use cwa_e_book_translate_plu.Batch.{translation_groups}
use cwa_e_book_translate_plu.Envelope.Group.{BatchTranslationItem, GroupResult}
use cwa_e_book_translate_plu.Envelope.Contract.{TranslationCacheContract}
use cwa_e_book_translate_plu.Cache.Store.{put_many, Entry}
use cwa_e_book_translate_plu.Window.{
  Event, answered, rejected, waiting, exceeded, translate_batch_detailed,
}
use cwa_e_book_translate_plu.Paragraphs.{
  model_for_provider, Request, Config, Env, Session, Failure, value_error, still_waiting,
  work_budget_exceeded, cache_scope, query_of, Response, blank_response, Planned, plan_groups,
  serve_groups,
}

-- `translated.startswith("[TRANSLATION ERROR:")`
unfoldable pub is_marker : Text → Bool
is_marker t = text_eq (take 19 t) (codes "[TRANSLATION ERROR:")

-- `backend or "unknown"`
abbrev pub or_unknown : Text → Text
or_unknown [] = codes "unknown"
or_unknown (b ∷ bs) = b ∷ bs

-- the response with one translated item
unfoldable pub serve_item : Response → ℕ → BatchTranslationItem → Response
unfolding is_marker
serve_item p index item = record p {
  translations = set p.translations index item.text;
  backends = set p.backends index (or_unknown (codes item.provider));
  error_codes = set p.error_codes index item.error_code;
  retry_after_seconds = set p.retry_after_seconds index item.retry_after_seconds;
  fresh_count = if is_marker item.text then p.fresh_count else p.fresh_count + 1;
}

-- the entry that an item is cached under
unfoldable pub cache_entry :
    Config
    → Request
    → TranslationCacheContract Text
    → ℕ
    → BatchTranslationItem
    → Result Failure Entry
unfolding cache_scope model_for_provider
cache_entry c r contract index item =
    elim (cache_scope r contract item.provider
      (model_for_provider c.primary c.fallback item.provider)) [
        | err e ↦ err e
        | ok scope ↦ ok (query_of r scope index, item.text)
      ]

-- `for index in group`: the response so far, and the entries to write
unfoldable pub collect_group :
    Config
    → Request
    → List BatchTranslationItem
    → TranslationCacheContract Text
    → Response
    → List Entry
    → List ℕ
    → Result Failure (Response × List Entry)
unfolding is_marker serve_item cache_entry
collect_group c r results contract p writes [] = ok (p, writes)
collect_group c r results contract p writes (index ∷ group) = elim (get_elem? results index) [
  | none ↦ err value_error
  | some item ↦
      let q = serve_item p index item in
      let unwritten = collect_group c r results contract q writes group in
      if is_marker item.text || not item.server_cacheable
      then unwritten
      else elim (cache_entry c r contract index item) [
        | err e ↦ err e
        | ok entry ↦ collect_group c r results contract q (writes ++ entry ∷ []) group
      ]
]

-- `for group in missing_groups`
unfoldable pub collect_groups :
    Config
    → Request
    → List BatchTranslationItem
    → Response
    → List Entry
    → List Planned
    → Result Failure (Response × List Entry)
unfolding collect_group
collect_groups c r results p writes [] = ok (p, writes)
collect_groups c r results p writes ((group, contract) ∷ planned) =
    elim (collect_group c r results contract p writes group) [
      | err e ↦ err e
      | ok (q, more) ↦ collect_groups c r results q more planned
    ]

-- `if cache_writes`: a write that raises is only logged
unfoldable pub write_cache : Config → Env → Session → List Entry → Session
write_cache c env s [] = s
write_cache c env s (e ∷ es) =
    let (store, result) =
      put_many c.cache s.store (e ∷ es) (env.times s.calls) (env.faults s.calls) in
    record { store = store; calls = s.calls + 1 }

abbrev pub groups_of : List Planned → List (List ℕ)
groups_of [] = []
groups_of ((g, k) ∷ planned) = g ∷ groups_of planned

-- `if missing_groups`, with how the translation of these groups goes
unfoldable pub translate_missing :
    Config
    → Env
    → Request
    → (List ℕ → GroupResult)
    → List Event
    → Session
    → Response
    → List Planned
    → Session × Result Failure Response
unfolding collect_groups write_cache
translate_missing c env r outcome events s p [] = (s, ok p)
translate_missing c env r outcome events s p (m ∷ missing) =
    elim (translate_batch_detailed c.batch r.paragraphs (some (groups_of (m ∷ missing)))
      c.max_concurrent outcome events) [
        | rejected ↦ (s, err value_error)
        | waiting ↦ (s, err still_waiting)
        | exceeded reason ↦ (s, err (work_budget_exceeded reason))
        | answered results ↦ elim (collect_groups c r results p [] (m ∷ missing)) [
          | err e ↦ (s, err e)
          | ok (q, writes) ↦ (write_cache c env s writes, ok q)
        ]
      ]

-- the call with groups that have contracts
unfoldable pub translate_planned :
    Config
    → Env
    → Request
    → (List ℕ → GroupResult)
    → List Event
    → Session
    → List Planned
    → Session × Result Failure Response
unfolding serve_groups translate_missing
translate_planned c env r outcome events s planned =
    let (s', served) = serve_groups c env r s (blank_response r.paragraphs) planned in
    elim served [
      | err e ↦ (s', err e)
      | ok (p, missing) ↦ translate_missing c env r outcome events s' p missing
    ]

-- `_translate_paragraphs`
unfoldable pub translate_paragraphs :
    Config
    → Env
    → Request
    → (List ℕ → GroupResult)
    → List Event
    → Session
    → Session × Result Failure Response
unfolding plan_groups translate_planned
translate_paragraphs c env r outcome events s =
    elim (translation_groups c.batch r.paragraphs none none) [
      | err e ↦ (s, err value_error)
      | ok groups ↦ elim (plan_groups c r groups) [
        | err e ↦ (s, err e)
        | ok planned ↦ translate_planned c env r outcome events s planned
      ]
    ]
