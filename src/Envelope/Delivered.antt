-- ===== src/Envelope/Delivered.antt =====
-- translator.py, _translate_group_operation: what a group delivers, whichever way it recovered.
use cwa_e_book_translate_plu.Prelude.{
  subst, sym, ◌∙◌, ℕ, zero, suc, ◌≡◌, ◌≢◌, refl, arith, ap, Bool-cases, Option-cases, List, [], ◌∷◌,
  map, Option, some, ◌⊎◌, inl, inr, Text, String, length, ◌==◌, ◌&&◌,
}
use cwa_e_book_translate_plu.Batch.{text_at, output_cap}
use cwa_e_book_translate_plu.Recovery.{envelope_retry_groups, paragraph_fallback_groups}
use cwa_e_book_translate_plu.Envelope.{elem, build_context_block, parse_segment_envelope}
use cwa_e_book_translate_plu.Envelope.Accepted.{parse_segment_envelope-IsAccepted}
use cwa_e_book_translate_plu.Envelope.Group.{
  RecoveryPath, direct, envelope_retry, BatchTranslationItem, Service, GroupResult, translated,
  Progress, Env, ask, translate_text_operation, fresh_ids, kept, EnvelopeEnd, accepted, malformed,
  ended, try_envelope, retry_envelope, envelopes, translate_alone, translate_group_operation, noted,
  zip, first_of,
}
use cwa_e_book_translate_plu.Envelope.Origin.{
  Turn, OneEnvelope, Origin, IsDelivered, Delivers, length-map-kept, kept-IsDelivered,
  translated-inj, Completion-cases, recover-Delivers,
}

length-fresh_ids :
    (n : ℕ) (used draws ids after left : List Text)
    → fresh_ids n used draws ≡ some (ids, after, left)
    → length ids ≡ n
unfolding fresh_ids
length-fresh_ids zero used draws ids after left e = ground arith
length-fresh_ids (suc n) used [] ids after left e = ground arith
length-fresh_ids (suc n) used (d ∷ draws) ids after left e = elim (Bool-cases (elem d used)) [
  | inl b ↦ length-fresh_ids (suc n) used draws ids after left (ground arith)
  | inr b ↦ elim (Option-cases (fresh_ids n (d ∷ used) draws)) [
    | inl q ↦ ground arith
    | inr ((is, a, l), q) ↦ ground (arith, length-fresh_ids n (d ∷ used) draws is a l q)
  ]
]

try_envelope-accepted :
    (v : Service) (context : Option Text) (ids texts : List Text) (env : Env) (call : ℕ)
    (s : Progress) (p : String) (ts : List Text) (path : RecoveryPath)
    → (try_envelope v context ids texts env call s).1 ≡ accepted p ts
    → length ids ≡ length texts
    → Turn path call
    → OneEnvelope v context texts env (map (kept p path) ts)
unfolding try_envelope
try_envelope-accepted v context ids texts env call s p ts path e l turn =
    let combined = v.dumps (zip ids texts) context in
    let r =
      ask v combined v.batch_system_prompt (output_cap v.config combined v.batch_max_tokens) env
        call s in
    elim (Completion-cases r.1) [
      | inl (output, q, c) ↦
          elim (Option-cases (parse_segment_envelope v.max_response_bytes v.loads output ids)) [
            | inl z ↦ absurd (ground arith)
            | inr (us, z) ↦
                let same : us ≡ ts = ground arith in
                let provider : q ≡ p = ground arith in
                record {
                  ids = ids;
                  one_id_each = l;
                  call = call;
                  before = s;
                  output = output;
                  provider = q;
                  answered = c;
                  parsed = us;
                  parses = z;
                  path = path;
                  turn = turn;
                  all_of_it =
                      ap (λ us. map (kept p path) us) (sym same)
                      ∙ ap (λ q. map (kept q path) us) (sym provider);
                }
          ]
      | inr (inl (x, c)) ↦ absurd (ground arith)
      | inr (inr (k, after, c)) ↦ absurd (ground arith)
    ]

-- An accepted envelope has a text for each of the texts.
length-OneEnvelope :
    (v : Service) (context : Option Text) (texts ts : List Text) (env : Env) (p : String)
    (path : RecoveryPath)
    → OneEnvelope v context texts env (map (kept p path) ts)
    → length ts ≡ length texts
length-OneEnvelope v context texts ts env p path o =
    let counted =
      parse_segment_envelope-IsAccepted v.max_response_bytes v.loads o.output o.ids o.parsed
        o.parses in
    sym (length-map-kept p path ts)
    ∙ ap length o.all_of_it
    ∙ length-map-kept o.provider o.path o.parsed
    ∙ counted.one_each
    ∙ o.one_id_each

-- the items of an envelope that is accepted
envelope-IsDelivered :
    (v : Service) (context : Option Text) (texts : List Text) (clock : ℕ → ℕ) (env : Env)
    (s : Progress) (p : String) (ts : List Text) (path : RecoveryPath)
    → (path ≡ direct) ⊎ (path ≡ envelope_retry)
    → OneEnvelope v context texts env (map (kept p path) ts)
    → IsDelivered (Origin v context texts clock env s) (length texts) (map (kept p path) ts)
envelope-IsDelivered v context texts clock env s p ts path h o =
    kept-IsDelivered (Origin v context texts clock env s) (length texts) p path ts h
      (length-OneEnvelope v context texts ts env p path o) (inl o)

End-cases :
    (e : EnvelopeEnd)
    → ((p : String) × (ts : List Text) × (e ≡ accepted p ts))
      ⊎ ((e ≡ malformed) ⊎ ((r : GroupResult) × (e ≡ ended r)))
End-cases (accepted p ts) = inl (p, ts, refl)
End-cases malformed = inr (inl refl)
End-cases (ended r) = inr (inr (r, refl))

-- An envelope that ends the operation ends it with an error.
try_envelope-ended :
    (v : Service) (context : Option Text) (ids texts : List Text) (env : Env) (call : ℕ)
    (s : Progress) (items : List BatchTranslationItem)
    → (try_envelope v context ids texts env call s).1 ≢ ended (translated items)
unfolding try_envelope
try_envelope-ended v context ids texts env call s items e =
    let combined = v.dumps (zip ids texts) context in
    let r =
      ask v combined v.batch_system_prompt (output_cap v.config combined v.batch_max_tokens) env
        call s in
    elim (Completion-cases r.1) [
      | inl (output, q, c) ↦
          elim (Option-cases (parse_segment_envelope v.max_response_bytes v.loads output ids)) [
            | inl z ↦ ground arith
            | inr (us, z) ↦ ground arith
          ]
      | inr (inl (x, c)) ↦ ground arith
      | inr (inr (k, after, c)) ↦ ground arith
    ]

retry_envelope-Delivers :
    (v : Service) (context : Option Text) (ids texts : List Text) (clock : ℕ → ℕ) (env : Env)
    (start s : Progress)
    → length ids ≡ length texts
    → Delivers
        (Origin v context texts clock env start)
        (length texts)
        (retry_envelope v context ids texts clock env s)
unfolding retry_envelope
retry_envelope-Delivers v context ids texts clock env start s l items e =
    let from = Origin v context texts clock env start in
    let r = try_envelope v context ids texts env 1 s in
    elim (End-cases r.1) [
      | inl (p, ts, q) ↦
          let same = translated-inj (map (kept p envelope_retry) ts) items (ground arith) in
          subst (IsDelivered from (length texts)) same (
            envelope-IsDelivered v context texts clock env start p ts envelope_retry (inr refl) (
              try_envelope-accepted v context ids texts env 1 s p ts envelope_retry q l
                (inr (refl, refl))))
      | inr (inl q) ↦
          subst (λ n. IsDelivered from n items) (omega arith)
            (recover-Delivers from v clock env 2 texts [] (noted r.0 paragraph_fallback_groups) tt
              items (ground arith))
      | inr (inr (x, q)) ↦
          absurd (try_envelope-ended v context ids texts env 1 s items (ground arith))
    ]

envelopes-Delivers :
    (v : Service) (context : Option Text) (texts draws : List Text) (clock : ℕ → ℕ) (env : Env)
    (s : Progress)
    → Delivers
        (Origin v context texts clock env s)
        (length texts)
        (envelopes v context texts draws clock env s)
unfolding envelopes
envelopes-Delivers v context texts draws clock env s items e =
    elim (Option-cases (fresh_ids (length texts) [] draws)) [
      | inl z ↦ ground arith
      | inr ((ids, used, more), z) ↦
          let r = try_envelope v context ids texts env 0 s in
          let counted = length-fresh_ids (length texts) [] draws ids used more z in
          elim (End-cases r.1) [
            | inl (p, ts, q) ↦
                let same = translated-inj (map (kept p direct) ts) items (ground arith) in
                subst (IsDelivered (Origin v context texts clock env s) (length texts)) same (
                  envelope-IsDelivered v context texts clock env s p ts direct (inl refl) (
                    try_envelope-accepted v context ids texts env 0 s p ts direct q counted
                      (inl (refl, refl))))
            | inr (inl q) ↦ elim (Option-cases (fresh_ids (length texts) used more)) [
              | inl y ↦ ground arith
              | inr ((again, u, m), y) ↦
                  retry_envelope-Delivers v context again texts clock env s
                    (noted r.0 envelope_retry_groups)
                    (length-fresh_ids (length texts) used more again u m y) items (ground arith)
            ]
            | inr (inr (x, q)) ↦
                absurd (try_envelope-ended v context ids texts env 0 s items (ground arith))
          ]
    ]

length-map-text_at :
    (all_texts : List Text) (idxs : List ℕ) → length (map (text_at all_texts) idxs) ≡ length idxs
length-map-text_at all_texts [] = refl
length-map-text_at all_texts (i ∷ is) = ap suc (length-map-text_at all_texts is)

translate_alone-Delivers :
    (v : Service) (context : Option Text) (texts : List Text) (clock : ℕ → ℕ) (env : Env)
    (s : Progress)
    → Delivers
        (Origin v context texts clock env s)
        1
        (translate_alone v (first_of texts) clock env s)
unfolding translate_alone
translate_alone-Delivers v context texts clock env s items e =
    let from = Origin v context texts clock env s in
    elim (Completion-cases (translate_text_operation v (first_of texts) (clock 0) env 0 s).1) [
      | inl (u, p, q) ↦
          subst (IsDelivered from 1) (translated-inj (kept p direct u ∷ []) items (ground arith))
            (kept-IsDelivered from 1 p direct (u ∷ []) (inl refl) refl (inr (u, p, q, refl)))
      | inr (inl (x, q)) ↦ ground arith
      | inr (inr (k, after, q)) ↦ ground arith
    ]

-- A group that is translated has one item for each of its paragraphs, whichever way it recovered.
-- Either all of them are the parsed texts of one answer to one envelope of the group, the first or the
-- second (or the paragraph is a group by itself, and the item is the answer for it), may be cached and
-- have no error, or all of them come from individual calls and none may be cached.
pub translate_group_operation-IsDelivered :
    (v : Service) (all_texts : List Text) (idxs : List ℕ) (draws : List Text) (clock : ℕ → ℕ)
    (env : Env) (s : Progress) (items : List BatchTranslationItem)
    → (translate_group_operation v all_texts idxs draws clock env s).1 ≡ translated items
    → IsDelivered
        (Origin v
          (build_context_block v.config.context_window all_texts idxs)
          (map (text_at all_texts) idxs)
          clock
          env
          s)
        (length idxs)
        items
unfolding translate_group_operation
translate_group_operation-IsDelivered v all_texts idxs draws clock env s items e =
    let texts = map (text_at all_texts) idxs in
    let window = v.config.context_window in
    let block = build_context_block window all_texts idxs in
    let from = Origin v block texts clock env s in
    elim (Bool-cases (length idxs == 1 && window == 0)) [
      | inl b ↦
          subst (λ n. IsDelivered from n items) (ground arith)
            (translate_alone-Delivers v block texts clock env s items (ground arith))
      | inr b ↦
          subst (λ n. IsDelivered from n items) (length-map-text_at all_texts idxs)
            (envelopes-Delivers v block texts draws clock env s items (ground arith))
    ]
