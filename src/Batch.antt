-- ===== src/Batch.antt =====
-- translator.py: the token estimate, the output cap, the grouping of paragraphs into batches, the
-- check of groups that a caller selected, and the context block of a group.
mod Tests
pub mod Partition
pub mod Greedy
pub mod Selected
use cwa_e_book_translate_plu.Prelude.{
  ℕ, zero, suc, ◌+◌, ◌-◌, ◌*◌, ◌/◌, min, max, ℤ, pos, Value, int_value, Result, ok, ◌>>=◌, ok_or,
  as_positive_int, Bool, true, false, ◌&&◌, ◌||◌, not, List, [], ◌∷◌, ◌++◌, concat, all, take, drop,
  length, Option, none, some, Text, strip, is_blank, ltb, leb, ◌==◌, if◌then◌else◌,
}

-- The settings that are read from the environment. A factor of 2.0 is 2000 thousandths.
pub record Config : Type 0 where
  pub batch_size : ℤ
  pub source_token_budget : ℕ
  pub output_token_factor : ℕ
  pub output_token_floor : ℕ
  pub context_window : ℕ

unfoldable pub is_cjk : ℕ → Bool
is_cjk c =
    (leb 0x3000 c && leb c 0x303f)
    || (leb 0x3040 c && leb c 0x30ff)
    || (leb 0x3400 c && leb c 0x9fff)
    || (leb 0xac00 c && leb c 0xd7af)
    || (leb 0xf900 c && leb c 0xfaff)
    || (leb 0xff66 c && leb c 0xff9f)

unfoldable pub count_cjk : Text → ℕ
count_cjk [] = 0
count_cjk (c ∷ cs) = (if is_cjk c then 1 else 0) + count_cjk cs

-- `max(1, int(cjk / 1.5 + other / 3.5))`. The sum is (14 * cjk + 6 * other) / 21. It is whole only
-- where 3 divides `cjk` and 7 divides `other`, and there both quotients are exact floats; elsewhere
-- it is at least 1/21 away from a whole number, more than the rounding of any text that fits in
-- memory. So the floor is that of the exact quotient.
unfoldable pub estimate_tokens : Text → ℕ
unfolding count_cjk is_cjk
estimate_tokens text = max 1 ((14 * count_cjk text + 6 * (length text - count_cjk text)) / 21)

unfoldable pub output_cap : Config → Text → ℕ → ℕ
output_cap c input ceiling =
    let floor = c.output_token_floor in
    let budget = estimate_tokens input * c.output_token_factor / 1000 + floor in
    min ceiling (max 1 (max floor budget))

-- `[index for index, text in enumerate(texts) if text.strip()]`, counting from `i`
unfoldable pub work_from : ℕ → List Text → List ℕ
work_from i [] = []
work_from i (t ∷ ts) = if is_blank (strip t) then work_from (suc i) ts else i ∷ work_from (suc i) ts

-- `texts[index]`; an index outside the list is not read
unfoldable pub text_at : List Text → ℕ → Text
text_at [] i = []
text_at (t ∷ ts) zero = t
text_at (t ∷ ts) (suc i) = text_at ts i

unfoldable pub paragraph_tokens : List Text → ℕ → ℕ
paragraph_tokens texts index = estimate_tokens (strip (text_at texts index))

-- `[work[offset:offset + size] for offset in range(0, len(work), size)]`, a round for each offset
unfoldable pub slices : ℕ → ℕ → List ℕ → List (List ℕ)
slices zero size work = []
slices (suc rounds) size [] = []
slices (suc rounds) size (i ∷ work) =
    take size (i ∷ work) ∷ slices rounds size (drop size (i ∷ work))

abbrev pub is_empty {ℓ} : {A : Type ℓ} → List A → Bool
is_empty [] = true
is_empty (x ∷ xs) = false

-- `current and (len(current) >= size or current_tokens + paragraph_tokens > token_budget)`
unfoldable pub closes : ℕ → ℕ → List ℕ → ℕ → ℕ → Bool
closes size token_budget current current_tokens tokens =
    not (is_empty current)
    && (leb size (length current) || ltb token_budget (current_tokens + tokens))

-- the loop over `work` with a token budget, and the last `if current`
unfoldable pub budgeted : (ℕ → ℕ) → ℕ → ℕ → List ℕ → ℕ → List ℕ → List (List ℕ)
budgeted tokens_of size token_budget current current_tokens [] =
    if is_empty current then [] else current ∷ []
budgeted tokens_of size token_budget current current_tokens (index ∷ work) =
    let tokens = tokens_of index in
    let closed = budgeted tokens_of size token_budget (index ∷ []) tokens work in
    let grown =
      budgeted tokens_of size token_budget (current ++ index ∷ []) (current_tokens + tokens) work in
    if closes size token_budget current current_tokens tokens then current ∷ closed else grown

pub data Error : Type 0 where
  value_error : Error

unfoldable pub grouped : List Text → ℕ → ℕ → List (List ℕ)
grouped texts size token_budget =
    let work = work_from 0 texts in
    if token_budget == 0
    then slices (length work) size work
    else budgeted (paragraph_tokens texts) size token_budget [] 0 work

-- `not isinstance(v, bool) and isinstance(v, int) and v >= 0`
unfoldable pub as_natural : Value → Option ℕ
as_natural (int_value (pos n)) = some n
as_natural v = none

abbrev pub or_default : Option Value → Value → Value
or_default none d = d
or_default (some v) d = v

unfoldable pub translation_groups :
    Config → List Text → Option Value → Option Value → Result Error (List (List ℕ))
unfolding ok_or as_positive_int as_natural
translation_groups c texts batch_size source_token_budget = do
  size ← ok_or (as_positive_int (or_default batch_size (int_value c.batch_size))) value_error
  token_budget ←
      ok_or (as_natural (or_default source_token_budget (int_value (pos c.source_token_budget))))
        value_error
  ok (grouped texts size token_budget)

-- `max(1, BT_BATCH_SIZE)`
unfoldable pub group_limit : Config → ℕ
group_limit c = elim c.batch_size [ pos n ↦ max 1 n | _ ↦ 1 ]

-- `x in xs`
abbrev pub elem : ℕ → List ℕ → Bool
elem i [] = false
elem i (j ∷ js) = i == j || elem i js

-- `len(xs) == len(set(xs))`
unfoldable pub is_distinct : List ℕ → Bool
is_distinct [] = true
is_distinct (i ∷ is) = not (elem i is) && is_distinct is

-- `xs == sorted(xs)`
unfoldable pub is_ascending : List ℕ → Bool
is_ascending [] = true
is_ascending (i ∷ []) = true
is_ascending (i ∷ j ∷ is) = leb i j && is_ascending (j ∷ is)

abbrev pub sum_of : (ℕ → ℕ) → List ℕ → ℕ
sum_of f [] = 0
sum_of f (i ∷ is) = f i + sum_of f is

-- the budget's part of `valid`, for one group
unfoldable pub is_within_budget : Config → List Text → List ℕ → Bool
is_within_budget c texts group =
    c.source_token_budget == 0
    || length group == 1
    || leb (sum_of (paragraph_tokens texts) group) c.source_token_budget

unfoldable pub is_usable : List Text → ℕ → Bool
is_usable texts index = ltb index (length texts) && not (is_blank (strip (text_at texts index)))

-- `valid` of `translate_batch_detailed`
unfoldable pub is_valid_selection : Config → List Text → List (List ℕ) → Bool
is_valid_selection c texts groups =
    all (λ g. not (is_empty g)) groups
    && is_distinct (concat groups)
    && all (is_usable texts) (concat groups)
    && all is_ascending groups
    && all (λ g. leb (length g) (group_limit c)) groups
    && all (is_within_budget c texts) groups
    && is_ascending (concat groups)
