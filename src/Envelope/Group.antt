-- ===== src/Envelope/Group.antt =====
-- translator.py, _translate_group_operation: one group of a batch, with a second envelope after a
-- malformed one and single calls after two. A caller's tracker is a list of what it recorded.
use cwa_e_book_translate_plu.Prelude.{
  ℕ, zero, suc, ◌+◌, Bool, true, false, ◌&&◌, String, List, [], ◌∷◌, ◌++◌, map, Option, none, some,
  ok, err, Text, codes, length, ◌==◌, if◌then◌else◌,
}
use cwa_e_book_translate_plu.Budget.{ensure_active, exceeded, value_error}
use cwa_e_book_translate_plu.Batch.{Config, text_at, output_cap}
use cwa_e_book_translate_plu.Provider.{Provider, World, Attempt}
use cwa_e_book_translate_plu.Provider.Call.{Completion, completed, ran_out, unavailable, complete}
use cwa_e_book_translate_plu.Recovery.{
  Metric, envelope_retry_groups, envelope_retry_recovered_groups, paragraph_fallback_groups,
  paragraph_fallback_recovered_segments, paragraph_fallback_failed_segments,
}
use cwa_e_book_translate_plu.Envelope.{Json, elem, build_context_block, parse_segment_envelope}

pub data RecoveryPath : Type 0 where
  direct envelope_retry paragraph_fallback paragraph_fallback_failed failed empty : RecoveryPath

pub record BatchTranslationItem : Type 0 where
  pub text : Text
  pub provider : String
  pub server_cacheable : Bool
  pub recovery_path : RecoveryPath
  pub error_code : Option String
  pub retry_after_seconds : Option ℕ

-- What the operation needs from outside: the settings, the two providers, the consent, the system
-- prompts for the languages, `json.dumps` of the envelope and `json.loads`.
pub record Service : Type 0 where
  pub config : Config
  pub max_tokens : ℕ
  pub batch_max_tokens : ℕ
  pub max_response_bytes : ℕ
  pub timeout : ℕ
  pub primary : Provider
  pub fallback : Option Provider
  pub allow_cloud_fallback : Bool
  pub system_prompt : Text
  pub batch_system_prompt : Text
  pub dumps : List (Text × Text) → Option Text → Text
  pub loads : Text → Option Json

-- How the operation ends: with the items, or with an error that it lets through. `no_ids` is the
-- loop that waits for a fresh id when the random source gives no more.
pub data GroupResult : Type 0 where
  translated : List BatchTranslationItem → GroupResult
  over_budget : String → GroupResult
  provider_unavailable : String → Option ℕ → GroupResult
  no_ids : GroupResult

-- The state of the operation: the world, the metrics recorded, and the number of completions made.
-- `env` says what the environment does in each completion.
pub record Progress : Type 0 where
  pub world : World
  pub metrics : List Metric

abbrev pub noted : Progress → Metric → Progress
noted s m = record s { metrics = s.metrics ++ m ∷ [] }

abbrev pub Env : Type 0
Env = ℕ → ℕ → ℕ → Attempt

unfoldable pub ask : Service → Text → Text → ℕ → Env → ℕ → Progress → Progress × Completion
ask v input system max_tokens env call s =
    let (w, c) =
      complete v.primary v.fallback (input ++ system) v.timeout max_tokens 1 v.allow_cloud_fallback
        (env call) s.world in
    (record s { world = w }, c)

-- `_translate_text_operation`, with the budget's check at clock `now`
unfoldable pub translate_text_operation :
    Service → Text → ℕ → Env → ℕ → Progress → Progress × Completion
unfolding ask
translate_text_operation v text now env call s = elim (ensure_active s.world.budget now) [
  | err (exceeded r) ↦ (s, ran_out r)
  | err value_error ↦ (s, unavailable "translation_failed" none)
  | ok _ ↦ ask v text v.system_prompt (output_cap v.config text v.max_tokens) env call s
]

-- `n` ids that are not among the used ones, from what the random source gives: the ids, those used
-- by then, and what is left of the source
unfoldable pub fresh_ids : ℕ → List Text → List Text → Option (List Text × List Text × List Text)
fresh_ids zero used draws = some ([], used, draws)
fresh_ids (suc n) used [] = none
fresh_ids (suc n) used (d ∷ draws) =
    let again = fresh_ids (suc n) used draws in
    let taken = fresh_ids n (d ∷ used) draws in
    if elem d used
    then again
    else elim taken [ none ↦ none | some (ids, after, left) ↦ some (d ∷ ids, after, left) ]

abbrev pub zip : List Text → List Text → List (Text × Text)
zip [] ys = []
zip (x ∷ xs) [] = []
zip (x ∷ xs) (y ∷ ys) = (x, y) ∷ zip xs ys

abbrev pub kept : String → RecoveryPath → Text → BatchTranslationItem
kept provider path t = record {
  text = t;
  provider = provider;
  server_cacheable = true;
  recovery_path = path;
  error_code = none;
  retry_after_seconds = none;
}

abbrev pub single : String → Text → BatchTranslationItem
single provider t = record {
  text = t;
  provider = provider;
  server_cacheable = false;
  recovery_path = paragraph_fallback;
  error_code = none;
  retry_after_seconds = none;
}

abbrev pub marker : Text → String → Option ℕ → BatchTranslationItem
marker shown code after = record {
  text = shown;
  provider = "";
  server_cacheable = false;
  recovery_path = paragraph_fallback_failed;
  error_code = some code;
  retry_after_seconds = after;
}

-- `f"[TRANSLATION ERROR: {error_code}]"`
abbrev pub marker_text : String → Text
marker_text code = codes "[TRANSLATION ERROR: " ++ codes code ++ codes "]"

-- the individual calls, one for each text; `clock` is the reading before each
unfoldable pub recover :
    Service
    → (ℕ → ℕ)
    → Env
    → ℕ
    → List Text
    → List BatchTranslationItem
    → Progress
    → Progress × GroupResult
unfolding translate_text_operation
recover v clock env call [] done s = (s, translated done)
recover v clock env call (t ∷ ts) done s =
    let (s', c) = translate_text_operation v t (clock call) env call s in
    elim c [
      | completed u provider ↦
          recover v clock env (call + 1) ts (done ++ single provider u ∷ [])
            (noted s' paragraph_fallback_recovered_segments)
      | ran_out r ↦ (s', over_budget r)
      | unavailable code after ↦
          recover v clock env (call + 1) ts (done ++ marker (marker_text code) code after ∷ [])
            (noted s' paragraph_fallback_failed_segments)
    ]

-- one envelope: its items, or none if it is malformed, or how the operation ends
pub data EnvelopeEnd : Type 0 where
  accepted : String → List Text → EnvelopeEnd
  malformed : EnvelopeEnd
  ended : GroupResult → EnvelopeEnd

unfoldable pub try_envelope :
    Service → Option Text → List Text → List Text → Env → ℕ → Progress → Progress × EnvelopeEnd
unfolding ask
try_envelope v context ids texts env call s =
    let combined = v.dumps (zip ids texts) context in
    let (s', c) =
      ask v combined v.batch_system_prompt (output_cap v.config combined v.batch_max_tokens) env
        call s in
    elim c [
      | ran_out r ↦ (s', ended (over_budget r))
      | unavailable code after ↦ (s', ended (provider_unavailable code after))
      | completed output provider ↦
          elim (parse_segment_envelope v.max_response_bytes v.loads output ids) [
            | none ↦ (s', malformed)
            | some ts ↦ (s', accepted provider ts)
          ]
    ]

-- the second envelope, and the individual calls if it is malformed too
unfoldable pub retry_envelope :
    Service
    → Option Text
    → List Text
    → List Text
    → (ℕ → ℕ)
    → Env
    → Progress
    → Progress × GroupResult
unfolding try_envelope recover
retry_envelope v context ids texts clock env s =
    let (s', e) = try_envelope v context ids texts env 1 s in
    elim e [
      | accepted provider ts ↦ (
        noted s' envelope_retry_recovered_groups,
        translated (map (kept provider envelope_retry) ts),
      )
      | ended r ↦ (s', r)
      | malformed ↦ recover v clock env 2 texts [] (noted s' paragraph_fallback_groups)
    ]

unfoldable pub envelopes :
    Service
    → Option Text
    → List Text
    → List Text
    → (ℕ → ℕ)
    → Env
    → Progress
    → Progress × GroupResult
unfolding try_envelope retry_envelope fresh_ids
envelopes v context texts draws clock env s = elim (fresh_ids (length texts) [] draws) [
  | none ↦ (s, no_ids)
  | some (ids, used, draws') ↦
      let (s', e) = try_envelope v context ids texts env 0 s in
      elim e [
        | accepted provider ts ↦ (s', translated (map (kept provider direct) ts))
        | ended r ↦ (s', r)
        | malformed ↦ elim (fresh_ids (length texts) used draws') [
          | none ↦ (noted s' envelope_retry_groups, no_ids)
          | some (ids', _, _) ↦
              retry_envelope v context ids' texts clock env (noted s' envelope_retry_groups)
        ]
      ]
]

-- a single paragraph without context
unfoldable pub translate_alone : Service → Text → (ℕ → ℕ) → Env → Progress → Progress × GroupResult
unfolding translate_text_operation
translate_alone v text clock env s =
    let (s', c) = translate_text_operation v text (clock 0) env 0 s in
    elim c [
      | completed t provider ↦ (s', translated (kept provider direct t ∷ []))
      | ran_out r ↦ (s', over_budget r)
      | unavailable code after ↦ (s', provider_unavailable code after)
    ]

-- `group_texts[0]`
abbrev pub first_of : List Text → Text
first_of [] = []
first_of (t ∷ ts) = t

unfoldable pub translate_group_operation :
    Service → List Text → List ℕ → List Text → (ℕ → ℕ) → Env → Progress → Progress × GroupResult
unfolding envelopes translate_alone build_context_block
translate_group_operation v all_texts idxs draws clock env s =
    let texts = map (text_at all_texts) idxs in
    let window = v.config.context_window in
    let block = build_context_block window all_texts idxs in
    if length idxs == 1 && window == 0
    then translate_alone v (first_of texts) clock env s
    else envelopes v block texts draws clock env s
