-- ===== src/Envelope/Origin.antt =====
-- translator.py, _translate_group_operation: where the items of a group come from, and the individual
-- calls.
use cwa_e_book_translate_plu.Prelude.{
  subst, sym, ℕ, suc, ◌+◌, ◌≡◌, refl, arith, ap, true, false, List, [], ◌∷◌, ◌++◌, map, Option,
  none, some, ◌⊎◌, inl, inr, Text, String, length, length-append, All, All-append,
}
use cwa_e_book_translate_plu.Batch.{output_cap}
use cwa_e_book_translate_plu.Provider.Call.{Completion, completed, ran_out, unavailable}
use cwa_e_book_translate_plu.Recovery.{
  paragraph_fallback_recovered_segments, paragraph_fallback_failed_segments,
}
use cwa_e_book_translate_plu.Envelope.{parse_segment_envelope}
use cwa_e_book_translate_plu.Envelope.Group.{
  RecoveryPath, direct, envelope_retry, paragraph_fallback, paragraph_fallback_failed,
  BatchTranslationItem, Service, GroupResult, translated, Progress, Env, ask,
  translate_text_operation, kept, single, marker, marker_text, recover, noted, zip, first_of,
}

-- an item from an envelope, or from a paragraph that is a group by itself
abbrev pub IsWhole : BatchTranslationItem → Type 0
IsWhole i =
    (i.server_cacheable ≡ true)
    × ((i.recovery_path ≡ direct) ⊎ (i.recovery_path ≡ envelope_retry))
    × (i.error_code ≡ none)

-- an item from an individual call
abbrev pub IsSingle : BatchTranslationItem → Type 0
IsSingle i =
    (i.server_cacheable ≡ false)
    × ((i.recovery_path ≡ paragraph_fallback) ⊎ (i.recovery_path ≡ paragraph_fallback_failed))

-- The first envelope is the first call, and its items are marked as direct; the second is the next.
abbrev pub Turn : RecoveryPath → ℕ → Type 0
Turn path call = ((path ≡ direct) × (call ≡ 0)) ⊎ ((path ≡ envelope_retry) × (call ≡ 1))

-- All the items are the texts of one answer, to one envelope of the texts under its own ids.
pub record OneEnvelope (v : Service) (context : Option Text) (texts : List Text) (env : Env)
    (items : List BatchTranslationItem) : Type 0 where
  pub ids : List Text
  pub one_id_each : length ids ≡ length texts
  pub call : ℕ
  pub before : Progress
  pub output : Text
  pub provider : String
  pub answered :
      let combined = v.dumps (zip ids texts) context in
      (ask v combined v.batch_system_prompt
        (output_cap v.config combined v.batch_max_tokens)
        env
        call
        before).1
      ≡ completed output provider
  pub parsed : List Text
  pub parses : parse_segment_envelope v.max_response_bytes v.loads output ids ≡ some parsed
  pub path : RecoveryPath
  pub turn : Turn path call
  pub all_of_it : items ≡ map (kept provider path) parsed

-- The one item is the answer for the one text by itself.
abbrev pub Alone :
    Service → List Text → (ℕ → ℕ) → Env → Progress → List BatchTranslationItem → Type 0
Alone v texts clock env s items =
    (u : Text) × (p : String) × ((translate_text_operation v (first_of texts) (clock 0) env 0 s).1
      ≡ completed u p)
    × (items ≡ kept p direct u ∷ [])

abbrev pub Origin :
    Service
    → Option Text
    → List Text
    → (ℕ → ℕ)
    → Env
    → Progress
    → List BatchTranslationItem
    → Type 0
Origin v context texts clock env s items =
    OneEnvelope v context texts env items ⊎ Alone v texts clock env s items

pub record IsDelivered (from : List BatchTranslationItem → Type 0) (n : ℕ)
    (items : List BatchTranslationItem) : Type 0 where
  pub one_each : length items ≡ n
  pub uniform : (All IsWhole items × from items) ⊎ All IsSingle items

abbrev pub Delivers : (List BatchTranslationItem → Type 0) → ℕ → Progress × GroupResult → Type 0
Delivers from n r =
    (items : List BatchTranslationItem) → r.1 ≡ translated items → IsDelivered from n items

pub length-map-kept :
    (p : String) (path : RecoveryPath) (ts : List Text) → length (map (kept p path) ts) ≡ length ts
length-map-kept p path [] = refl
length-map-kept p path (t ∷ ts) = ap suc (length-map-kept p path ts)

map-kept-IsWhole :
    (p : String) (path : RecoveryPath) (ts : List Text)
    → (path ≡ direct) ⊎ (path ≡ envelope_retry)
    → All IsWhole (map (kept p path) ts)
map-kept-IsWhole p path [] h = tt
map-kept-IsWhole p path (t ∷ ts) h = ((refl, h, refl), map-kept-IsWhole p path ts h)

pub kept-IsDelivered :
    (from : List BatchTranslationItem → Type 0) (n : ℕ) (p : String) (path : RecoveryPath)
    (ts : List Text)
    → (path ≡ direct) ⊎ (path ≡ envelope_retry)
    → length ts ≡ n
    → from (map (kept p path) ts)
    → IsDelivered from n (map (kept p path) ts)
kept-IsDelivered from n p path ts h l o = record {
  one_each = ground (arith, length-map-kept p path ts);
  uniform = inl (map-kept-IsWhole p path ts h, o);
}

pub translated-inj : (xs ys : List BatchTranslationItem) → translated xs ≡ translated ys → xs ≡ ys
translated-inj xs ys e = ground arith

pub Completion-cases :
    (c : Completion)
    → ((t : Text) × (p : String) × (c ≡ completed t p))
      ⊎ (((r : String) × (c ≡ ran_out r))
          ⊎ ((k : String) × (after : Option ℕ) × (c ≡ unavailable k after)))
Completion-cases (completed t p) = inl (t, p, refl)
Completion-cases (ran_out r) = inr (inl (r, refl))
Completion-cases (unavailable k after) = inr (inr (k, after, refl))

length-append_one :
    (done : List BatchTranslationItem) (i : BatchTranslationItem) (n : ℕ)
    → length (done ++ i ∷ []) + n ≡ length done + suc n
length-append_one done i n = omega (arith, length-append done (i ∷ []))

pub recover-Delivers :
    (from : List BatchTranslationItem → Type 0) (v : Service) (clock : ℕ → ℕ) (env : Env) (call : ℕ)
    (ts : List Text) (done : List BatchTranslationItem) (s : Progress)
    → All IsSingle done
    → Delivers from (length done + length ts) (recover v clock env call ts done s)
unfolding recover
recover-Delivers from v clock env call [] done s h = λ items e. record {
  one_each = ground arith;
  uniform = inr (subst (All IsSingle) (translated-inj done items e) h);
}
recover-Delivers from v clock env call (t ∷ ts) done s h =
    let r = translate_text_operation v t (clock call) env call s in
    elim (Completion-cases r.1) [
      | inl (u, p, q) ↦
          let more = done ++ single p u ∷ [] in
          let next = noted r.0 paragraph_fallback_recovered_segments in
          let rest =
            recover-Delivers from v clock env (call + 1) ts more next
              (All-append IsSingle done (single p u ∷ []) h ((refl, inl refl), tt)) in
          let same : recover v clock env call (t ∷ ts) done s
              ≡ recover v clock env (call + 1) ts more next =
            rw (q, recover) refl in
          subst (λ x. Delivers from (length done + suc (length ts)) x) (sym same)
            (subst (λ n. Delivers from n (recover v clock env (call + 1) ts more next))
              (length-append_one done (single p u) (length ts)) rest)
      | inr (inl (x, q)) ↦ λ items e. ground arith
      | inr (inr (k, after, q)) ↦
          let i = marker (marker_text k) k after in
          let more = done ++ i ∷ [] in
          let next = noted r.0 paragraph_fallback_failed_segments in
          let rest =
            recover-Delivers from v clock env (call + 1) ts more next
              (All-append IsSingle done (i ∷ []) h ((refl, inr refl), tt)) in
          let same : recover v clock env call (t ∷ ts) done s
              ≡ recover v clock env (call + 1) ts more next =
            rw (q, recover) refl in
          subst (λ x. Delivers from (length done + suc (length ts)) x) (sym same)
            (subst (λ n. Delivers from n (recover v clock env (call + 1) ts more next))
              (length-append_one done i (length ts)) rest)
    ]
