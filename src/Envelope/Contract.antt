-- ===== src/Envelope/Contract.antt =====
-- translator.py: the cache contract of a single text and of a batch. A value that is hashed is a
-- tree of texts and numbers; `contract_hash` is the SHA-256 of its canonical JSON.
use cwa_e_book_translate_plu.Prelude.{
  ℕ, ◌&&◌, Result, ok, err, List, [], map, Option, none, some, Text, codes, strip, length, all, ltb,
  ◌==◌, if◌then◌else◌,
}
use cwa_e_book_translate_plu.Batch.{text_at}
use cwa_e_book_translate_plu.Envelope.{build_context_block, segment_protocol}

pub data Error : Type 0 where
  value_error : Error

-- What is hashed: a list that begins with the contract's version, and what follows.
pub data Document : Type 0 where
  prompt : Text → Text → Document
  no_context : Document
  semantic_context : List Text → Text → ℕ → Document

pub record TranslationCacheContract (H : Type 0) : Type 0 where
  pub prompt_hash : H
  pub protocol_version : Text
  pub context_hash : H

-- The settings, the prompts for the two languages, and the hash, whose digests are of type `H`.
pub record Contracts (H : Type 0) : Type 0 where
  pub window : ℕ
  pub system_prompt : Text
  pub batch_system_prompt : Text
  pub contract_hash : Document → H

unfoldable pub single_cache_contract : {H : Type 0} → Contracts H → TranslationCacheContract H
single_cache_contract c = record {
  prompt_hash = c.contract_hash (prompt (codes "single") c.system_prompt);
  protocol_version = codes "cwa-translate-single/v1";
  context_hash = c.contract_hash no_context;
}

abbrev pub or_empty : Option Text → Text
or_empty none = []
or_empty (some t) = t

unfoldable pub segments_of : List Text → List ℕ → List Text
segments_of all_texts = map (λ i. strip (text_at all_texts i))

unfoldable pub batch_cache_contract :
    {H : Type 0} → Contracts H → List Text → List ℕ → Result Error (TranslationCacheContract H)
unfolding single_cache_contract segments_of
batch_cache_contract c all_texts idxs =
    if length idxs == 1 && c.window == 0
    then ok (single_cache_contract c)
    else if length idxs == 0
    then err value_error
    else if all (λ i. ltb i (length all_texts)) idxs
    then ok (record {
      prompt_hash = c.contract_hash (prompt (codes "batch") c.batch_system_prompt);
      protocol_version = segment_protocol;
      context_hash = c.contract_hash (
          semantic_context (segments_of all_texts idxs)
            (or_empty (build_context_block c.window all_texts idxs)) c.window);
    })
    else err value_error
