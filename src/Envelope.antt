-- ===== src/Envelope.antt =====
-- translator.py: the segment envelope that a provider answers with, and the context block that is
-- sent with a group. `json.loads` is a parameter that gives the pairs of an object as they stand;
-- the hook that rejects duplicate keys is part of the model.
pub mod Accepted
pub mod Group
pub mod Origin
pub mod Delivered
pub mod Contract
mod Tests
use cwa_e_book_translate_plu.Prelude.{
  ℕ, zero, suc, ◌+◌, ◌-◌, Bool, true, false, not, ◌&&◌, ◌||◌, List, [], ◌∷◌, ◌++◌, Option, none,
  some, Text, codes, strip, is_blank, utf8_size, text_eq, join_by, length, take, drop, ltb, leb,
  ◌==◌, if◌then◌else◌,
}

mutual
  pub data Json : Type 0 where
    null number : Json
    bool : Bool → Json
    text : Text → Json
    array : Items → Json
    object : Pairs → Json

  pub data Items : Type 0 where
    nil : Items
    item : Json → Items → Items

  pub data Pairs : Type 0 where
    end : Pairs
    pair : Text → Json → Pairs → Pairs

unfoldable pub get : Text → Pairs → Option Json
get key end = none
get key (pair k v ps) = if text_eq k key then some v else get key ps

abbrev pub has : Text → Pairs → Bool
has key ps = elim (get key ps) [ none ↦ false | some _ ↦ true ]

-- `_reject_duplicate_json_keys` of one object
unfoldable pub is_unique : Pairs → Bool
unfolding get
is_unique end = true
is_unique (pair k v ps) = not (has k ps) && is_unique ps

unfoldable mutual
  unfolding is_unique

  -- the hook raises at no depth
  pub accepts : Json → Bool
  accepts null = true
  accepts number = true
  accepts (bool b) = true
  accepts (text t) = true
  accepts (array xs) = accepts_items xs
  accepts (object ps) = is_unique ps && accepts_pairs ps

  pub accepts_items : Items → Bool
  accepts_items nil = true
  accepts_items (item x xs) = accepts x && accepts_items xs

  pub accepts_pairs : Pairs → Bool
  accepts_pairs end = true
  accepts_pairs (pair k v ps) = accepts v && accepts_pairs ps

abbrev pub count_pairs : Pairs → ℕ
count_pairs end = 0
count_pairs (pair k v ps) = suc (count_pairs ps)

abbrev pub count_items : Items → ℕ
count_items nil = 0
count_items (item x xs) = suc (count_items xs)

-- `set(d) == {a, b}` of an object without duplicate keys, where `a` and `b` differ
unfoldable pub has_only : Text → Text → Pairs → Bool
has_only a b ps = count_pairs ps == 2 && has a ps && has b ps

unfoldable pub elem : Text → List Text → Bool
elem t [] = false
elem t (u ∷ us) = text_eq t u || elem t us

-- `len(set(ids)) == len(ids)`
unfoldable pub is_distinct : List Text → Bool
unfolding elem
is_distinct [] = true
is_distinct (t ∷ ts) = not (elem t ts) && is_distinct ts

abbrev pub segment_protocol : Text
segment_protocol = codes "cwa-translate-segments/v1"

abbrev pub as_text : Option Json → Option Text
as_text (some (text t)) = some t
as_text _ = none

-- The stripped text of one translation, if it has the expected id and is not blank.
unfoldable pub segment_text : Text → Json → Option Text
unfolding has_only get
segment_text id (object ps) =
    if has_only (codes "id") (codes "text") ps
    then elim (as_text (get (codes "id") ps)) [
      | none ↦ none
      | some t ↦
          if text_eq t id
          then elim (as_text (get (codes "text") ps)) [
            | none ↦ none
            | some body ↦ if is_blank (strip body) then none else some (strip body)
          ]
          else none
    ]
    else none
segment_text id _ = none

-- The loop over `zip(expected_ids, translations)`, `bytes` being those of the segments before; a
-- text that has no encoding ends it.
unfoldable pub parse_segments : ℕ → ℕ → List Text → Items → Option (List Text)
unfolding segment_text
parse_segments limit bytes [] xs = some []
parse_segments limit bytes (id ∷ ids) nil = some []
parse_segments limit bytes (id ∷ ids) (item x xs) = elim (segment_text id x) [
  | none ↦ none
  | some t ↦ elim (utf8_size t) [
    | none ↦ none
    | some n ↦
        let rest = parse_segments limit (bytes + n) ids xs in
        if ltb limit (bytes + n) then none else elim rest [ none ↦ none | some ts ↦ some (t ∷ ts) ]
  ]
]

-- the checks of the body
unfoldable pub parse_body : ℕ → List Text → Json → Option (List Text)
unfolding parse_segments has_only get
parse_body limit ids (object ps) =
    if has_only (codes "protocol") (codes "translations") ps
    then elim (as_text (get (codes "protocol") ps)) [
      | none ↦ none
      | some p ↦
          if text_eq p segment_protocol
          then elim (get (codes "translations") ps) [
            | some (array xs) ↦
                if count_items xs == length ids then parse_segments limit 0 ids xs else none
            | _ ↦ none
          ]
          else none
    ]
    else none
parse_body limit ids _ = none

-- `_parse_segment_envelope`; `loads` is none where `json.loads` raises by itself
unfoldable pub parse_segment_envelope :
    ℕ → (Text → Option Json) → Text → List Text → Option (List Text)
unfolding accepts is_distinct parse_body
parse_segment_envelope limit loads output ids = elim (utf8_size output) [
  | none ↦ none
  | some size ↦ if ltb limit size then none else elim (loads output) [
    | none ↦ none
    | some body ↦ if accepts body && is_distinct ids then parse_body limit ids body else none
  ]
]

-- `[t.strip() for t in ts if t.strip()]`
unfoldable pub stripped : List Text → List Text
stripped [] = []
stripped (t ∷ ts) = let rest = stripped ts in if is_blank (strip t) then rest else strip t ∷ rest

abbrev pub section : Text → List Text → List Text
section title [] = []
section title (t ∷ ts) = (title ++ 10 ∷ join_by (10 ∷ []) (t ∷ ts)) ∷ []

abbrev pub last_of : ℕ → List ℕ → ℕ
last_of i [] = i
last_of i (j ∷ js) = last_of j js

-- `_build_context_block` with `BT_CONTEXT_WINDOW` as `window`
unfoldable pub build_context_block : ℕ → List Text → List ℕ → Option Text
unfolding stripped
build_context_block window texts [] = none
build_context_block window texts (first ∷ more) =
    let last = last_of first more in
    let before = stripped (drop (first - window) (take first texts)) in
    let after = stripped (take window (drop (last + 1) texts)) in
    let sections =
      section (codes "[CONTEXT BEFORE]") before ++ section (codes "[CONTEXT AFTER]") after in
    if window == 0 then none else elim sections [
      | [] ↦ none
      | s ∷ ss ↦ some (
          codes "[CONTEXT] Surrounding story context — do NOT translate:"
          ++ 10 ∷ join_by (10 ∷ 10 ∷ []) (s ∷ ss))
    ]
