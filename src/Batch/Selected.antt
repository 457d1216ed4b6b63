-- ===== src/Batch/Selected.antt =====
-- translator.py: the groups that translation_groups forms pass the check of selected groups in
-- translate_batch_detailed.
use cwa_e_book_translate_plu.Prelude.{
  ℕ, suc, ◌≤◌, ◌<◌, ◌≡◌, refl, ◌∙◌, sym, inl, inr, true, false, not, List, [], ◌∷◌, ◌++◌, concat,
  all, length, All, length-append, append_assoc, arith, pos, leb, Text, Bool-cases, strip, is_blank,
  subst,
}
use cwa_e_book_translate_plu.Batch.{
  Config, work_from, text_at, paragraph_tokens, is_empty, grouped, group_limit, elem, is_distinct,
  is_ascending, is_within_budget, is_usable, is_valid_selection,
}
use cwa_e_book_translate_plu.Batch.Partition.{IsBounded, concat-grouped, grouped-IsBounded}

-- Strictly ascending, from `lo` on.
abbrev Ascends : ℕ → List ℕ → Type 0
Ascends lo [] = Unit
Ascends lo (i ∷ is) = (lo ≤ i) × Ascends (suc i) is

Ascends-weaken : {lo hi : ℕ} (is : List ℕ) → lo ≤ hi → Ascends hi is → Ascends lo is
Ascends-weaken [] h a = tt
Ascends-weaken (i ∷ is) h a = (omega arith, a.1)

work_from-Ascends : (k : ℕ) (ts : List Text) → Ascends k (work_from k ts)
unfolding work_from
work_from-Ascends k [] = tt
work_from-Ascends k (t ∷ ts) = elim (Bool-cases (is_blank (strip t))) [
  | inl e ↦
      rw e (Ascends-weaken (work_from (suc k) ts) (omega arith) (work_from-Ascends (suc k) ts))
  | inr e ↦ rw e (omega arith, work_from-Ascends (suc k) ts)
]

Ascends-append : (lo : ℕ) (xs ys : List ℕ) → Ascends lo (xs ++ ys) → Ascends lo xs × Ascends lo ys
Ascends-append lo [] ys a = (tt, a)
Ascends-append lo (x ∷ xs) ys a =
    let (l, r) = Ascends-append (suc x) xs ys a.1 in ((a.0, l), Ascends-weaken ys (omega arith) r)

elem_below : (i lo : ℕ) (is : List ℕ) → i < lo → Ascends lo is → elem i is ≡ false
elem_below i lo [] h a = refl
elem_below i lo (j ∷ js) h a = ground (arith, elem_below i (suc j) js)

Ascends-is_distinct : (lo : ℕ) (is : List ℕ) → Ascends lo is → is_distinct is ≡ true
unfolding is_distinct
Ascends-is_distinct lo [] a = refl
Ascends-is_distinct lo (i ∷ is) a =
    ground (arith, elem_below i (suc i) is, Ascends-is_distinct (suc i) is)

Ascends-is_ascending : (lo : ℕ) (is : List ℕ) → Ascends lo is → is_ascending is ≡ true
unfolding is_ascending
Ascends-is_ascending lo [] a = refl
Ascends-is_ascending lo (i ∷ []) a = refl
Ascends-is_ascending lo (i ∷ j ∷ is) a = ground (arith, Ascends-is_ascending (suc i) (j ∷ is))

groups_ascending :
    (lo : ℕ) (gs : List (List ℕ)) → Ascends lo (concat gs) → all is_ascending gs ≡ true
groups_ascending lo [] a = refl
groups_ascending lo (g ∷ gs) a =
    let (l, r) = Ascends-append lo g (concat gs) a in
    ground (arith, Ascends-is_ascending lo g l, groups_ascending lo gs r)

text_at-append :
    (pre : List Text) (t : Text) (ts : List Text) → text_at (pre ++ t ∷ ts) (length pre) ≡ t
unfolding text_at
text_at-append [] t ts = refl
text_at-append (p ∷ pre) t ts = text_at-append pre t ts

is_usable-append :
    (pre : List Text) (t : Text) (ts : List Text)
    → is_blank (strip t) ≡ false
    → is_usable (pre ++ t ∷ ts) (length pre) ≡ true
unfolding is_usable
is_usable-append pre t ts b = ground (arith, text_at-append pre t ts, length-append pre (t ∷ ts), b)

-- `ts` is what follows `pre` in `texts`
work_from-is_usable :
    (texts pre ts : List Text)
    → texts ≡ pre ++ ts
    → all (is_usable texts) (work_from (length pre) ts) ≡ true
unfolding work_from
work_from-is_usable texts pre [] e = refl
work_from-is_usable texts pre (t ∷ ts) e =
    let next : length (pre ++ t ∷ []) ≡ suc (length pre) =
      omega (arith, length-append pre (t ∷ [])) in
    let rest : all (is_usable texts) (work_from (suc (length pre)) ts) ≡ true =
      subst (λ k. all (is_usable texts) (work_from k ts) ≡ true) next
        (work_from-is_usable texts (pre ++ t ∷ []) ts (e ∙ sym (append_assoc pre (t ∷ []) ts))) in
    let here : is_blank (strip t) ≡ false → is_usable texts (length pre) ≡ true =
      λ b. rw e (is_usable-append pre t ts b) in
    elim (Bool-cases (is_blank (strip t))) [
      | inl b ↦ rw b rest
      | inr b ↦ rw b (ground (arith, here b, rest))
    ]

all-filled :
    (f : ℕ → ℕ) (size budget : ℕ) (gs : List (List ℕ))
    → All (IsBounded f size budget) gs
    → all (λ g. not (is_empty g)) gs ≡ true
all-filled f size budget [] h = refl
all-filled f size budget (g ∷ gs) h = ground (arith, all-filled f size budget gs h.1, h.0.filled)

all-counted :
    (f : ℕ → ℕ) (size budget limit : ℕ) (gs : List (List ℕ))
    → size ≤ limit
    → All (IsBounded f size budget) gs
    → all (λ g. leb (length g) limit) gs ≡ true
all-counted f size budget limit [] p h = refl
all-counted f size budget limit (g ∷ gs) p h =
    ground (arith, all-counted f size budget limit gs p h.1, h.0.counted)

all-weighed :
    (c : Config) (texts : List Text) (size : ℕ) (gs : List (List ℕ))
    → All (IsBounded (paragraph_tokens texts) size c.source_token_budget) gs
    → all (is_within_budget c texts) gs ≡ true
unfolding is_within_budget
all-weighed c texts size [] h = refl
all-weighed c texts size (g ∷ gs) h = ground (arith, all-weighed c texts size gs h.1, h.0.weighed)

-- With a positive batch size, the groups formed under the settings pass the check that
-- `translate_batch_detailed` makes of selected groups under the same settings.
pub grouped-is_valid_selection :
    (c : Config) (texts : List Text) (size : ℕ)
    → 0 < size
    → c.batch_size ≡ pos size
    → is_valid_selection c texts (grouped texts size c.source_token_budget) ≡ true
unfolding is_valid_selection group_limit
grouped-is_valid_selection c texts size p e = ground (
  arith,
  all-filled _ _ _ gs bounded,
  all-counted _ _ _ (group_limit c) gs (ground arith) bounded,
  all-weighed c texts size gs bounded,
  groups_ascending 0 gs ordered,
  Ascends-is_distinct 0 (concat gs) ordered,
  Ascends-is_ascending 0 (concat gs) ordered,
  usable,
)
  where
    gs : List (List ℕ)
    gs = grouped texts size c.source_token_budget

    same : concat gs ≡ work_from 0 texts
    same = concat-grouped texts size c.source_token_budget p

    ordered : Ascends 0 (concat gs)
    ordered = subst (Ascends 0) (sym same) (work_from-Ascends 0 texts)

    bounded : All (IsBounded (paragraph_tokens texts) size c.source_token_budget) gs
    bounded = grouped-IsBounded texts size c.source_token_budget p

    usable : all (is_usable texts) (concat gs) ≡ true
    usable =
        subst (λ is. all (is_usable texts) is ≡ true) (sym same)
          (work_from-is_usable texts [] texts refl)
