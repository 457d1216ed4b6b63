-- ===== src/Batch/Partition.antt =====
-- translator.py, translation_groups: the groups partition the paragraphs with text, in order, and
-- each keeps to the limits.
use cwa_e_book_translate_plu.Prelude.{
  ℕ, zero, suc, ◌+◌, ◌≤◌, ◌<◌, ◌≡◌, refl, ap, ◌∙◌, ◌⊎◌, inl, inr, true, false, List, [], ◌∷◌, ◌++◌,
  concat, take, drop, length, All, take-append-drop, length-take-le, length-append, append_assoc,
  arith, Text, Bool-cases, ◌==◌,
}
use cwa_e_book_translate_plu.Batch.{
  work_from, paragraph_tokens, slices, is_empty, closes, budgeted, grouped, sum_of,
}

length-drop-le : (n : ℕ) (xs : List ℕ) → length (drop n xs) ≤ length xs
length-drop-le zero xs = omega arith
length-drop-le (suc n) [] = omega arith
length-drop-le (suc n) (x ∷ xs) = omega (arith, length-drop-le n xs)

concat-slices :
    (rounds size : ℕ) (work : List ℕ)
    → 0 < size
    → length work ≤ rounds
    → concat (slices rounds size work) ≡ work
unfolding slices
concat-slices zero size [] p h = refl
concat-slices zero size (i ∷ work) p h = absurd (omega arith)
concat-slices (suc rounds) size [] p h = refl
concat-slices (suc rounds) zero (i ∷ work) p h = absurd (omega arith)
concat-slices (suc rounds) (suc size) (i ∷ work) p h =
    ap (λ l. i ∷ (take size work ++ l))
      (concat-slices rounds (suc size) (drop size work) p (omega (arith, length-drop-le size work)))
    ∙ ap (◌∷◌ i) (take-append-drop size work)

concat-budgeted :
    (f : ℕ → ℕ) (size budget : ℕ) (current : List ℕ) (tokens : ℕ) (work : List ℕ)
    → concat (budgeted f size budget current tokens work) ≡ current ++ work
unfolding budgeted
concat-budgeted f size budget [] tokens [] = refl
concat-budgeted f size budget (j ∷ current) tokens [] = refl
concat-budgeted f size budget current tokens (index ∷ work) =
    elim (Bool-cases (closes size budget current tokens (f index))) [
      | inl e ↦ rw e (ap (◌++◌ current) (concat-budgeted f size budget (index ∷ []) (f index) work))
      | inr e ↦ rw e (
          concat-budgeted f size budget (current ++ index ∷ []) (tokens + f index) work
          ∙ append_assoc current (index ∷ []) work)
    ]

-- The groups hold every paragraph that is more than white space exactly once, in the order of the
-- text, and no other index, whichever way they are formed.
pub concat-grouped :
    (texts : List Text) (size budget : ℕ)
    → 0 < size
    → concat (grouped texts size budget) ≡ work_from 0 texts
unfolding grouped
concat-grouped texts size budget p = elim (Bool-cases (budget == 0)) [
  | inl e ↦ rw e (concat-slices _ size (work_from 0 texts) p (omega arith))
  | inr e ↦ rw e (concat-budgeted (paragraph_tokens texts) size budget [] 0 (work_from 0 texts))
]

-- A group that may be sent: not empty, at most `size` paragraphs, and within a token budget that
-- is not 0, unless it is a single paragraph.
pub record IsBounded (f : ℕ → ℕ) (size budget : ℕ) (g : List ℕ) : Type 0 where
  pub filled : is_empty g ≡ false
  pub counted : length g ≤ size
  pub weighed : (budget ≡ 0) ⊎ (length g ≡ 1) ⊎ (sum_of f g ≤ budget)

slices-IsBounded :
    (f : ℕ → ℕ) (rounds size budget : ℕ) (work : List ℕ)
    → 0 < size
    → budget ≡ 0
    → All (IsBounded f size budget) (slices rounds size work)
unfolding slices
slices-IsBounded f zero size budget work p z = tt
slices-IsBounded f (suc rounds) size budget [] p z = tt
slices-IsBounded f (suc rounds) zero budget (i ∷ work) p z = absurd (omega arith)
slices-IsBounded f (suc rounds) (suc size) budget (i ∷ work) p z = (
  record { filled = refl; counted = length-take-le (suc size) (i ∷ work); weighed = inl z },
  slices-IsBounded f rounds (suc size) budget (drop size work) p z,
)

pub sum_of-append : (f : ℕ → ℕ) (xs ys : List ℕ) → sum_of f (xs ++ ys) ≡ sum_of f xs + sum_of f ys
sum_of-append f [] ys = omega arith
sum_of-append f (x ∷ xs) ys = omega (arith, sum_of-append f xs ys)

-- The group that the loop is filling.
record IsOpen (f : ℕ → ℕ) (size budget : ℕ) (current : List ℕ) (tokens : ℕ) : Type 0 where
  counted : length current ≤ size
  summed : tokens ≡ sum_of f current
  weighed : (length current ≤ 1) ⊎ (sum_of f current ≤ budget)

IsOpen-one : (f : ℕ → ℕ) (size budget i : ℕ) → 0 < size → IsOpen f size budget (i ∷ []) (f i)
IsOpen-one f size budget i p = record {
  counted = omega arith;
  summed = omega arith;
  weighed = inl (omega arith);
}

IsOpen-grow :
    (f : ℕ → ℕ) (size budget : ℕ) (current : List ℕ) (tokens i : ℕ)
    → 0 < size
    → IsOpen f size budget current tokens
    → closes size budget current tokens (f i) ≡ false
    → IsOpen f size budget (current ++ i ∷ []) (tokens + f i)
unfolding closes
IsOpen-grow f size budget [] tokens i p o e = record {
  counted = omega arith;
  summed = omega (arith, o.summed);
  weighed = inl (omega arith);
}
IsOpen-grow f size budget (j ∷ js) tokens i p o e =
    ground (arith, o, length-append (j ∷ js) (i ∷ []), sum_of-append f (j ∷ js) (i ∷ []))

IsOpen-IsBounded :
    (f : ℕ → ℕ) (size budget : ℕ) (current : List ℕ) (tokens : ℕ)
    → IsOpen f size budget current tokens
    → is_empty current ≡ false
    → IsBounded f size budget current
IsOpen-IsBounded f size budget [] tokens o e = cc
IsOpen-IsBounded f size budget (j ∷ js) tokens o e = ground (arith, o)

closes-filled :
    (size budget : ℕ) (current : List ℕ) (tokens more : ℕ)
    → closes size budget current tokens more ≡ true
    → is_empty current ≡ false
unfolding closes
closes-filled size budget current tokens more e = ground arith

budgeted-IsBounded :
    (f : ℕ → ℕ) (size budget : ℕ) (current : List ℕ) (tokens : ℕ) (work : List ℕ)
    → 0 < size
    → IsOpen f size budget current tokens
    → All (IsBounded f size budget) (budgeted f size budget current tokens work)
unfolding budgeted
budgeted-IsBounded f size budget [] tokens [] p o = tt
budgeted-IsBounded f size budget (j ∷ js) tokens [] p o =
    (IsOpen-IsBounded f size budget (j ∷ js) tokens o refl, tt)
budgeted-IsBounded f size budget current tokens (index ∷ work) p o =
    elim (Bool-cases (closes size budget current tokens (f index))) [
      | inl e ↦ rw e (
        IsOpen-IsBounded f size budget current tokens o
            (closes-filled size budget current tokens (f index) e),
        budgeted-IsBounded f size budget (index ∷ []) (f index) work p
            (IsOpen-one f size budget index p),
      )
      | inr e ↦ rw e (
          budgeted-IsBounded f size budget (current ++ index ∷ []) (tokens + f index) work p
            (IsOpen-grow f size budget current tokens index p o e))
    ]

-- Every group is non-empty, has at most `size` paragraphs, and keeps to a token budget unless it
-- is a single paragraph.
pub grouped-IsBounded :
    (texts : List Text) (size budget : ℕ)
    → 0 < size
    → All (IsBounded (paragraph_tokens texts) size budget) (grouped texts size budget)
unfolding grouped
grouped-IsBounded texts size budget p = elim (Bool-cases (budget == 0)) [
  | inl e ↦ rw e (
      slices-IsBounded (paragraph_tokens texts) (length (work_from 0 texts)) size budget
        (work_from 0 texts) p (ground arith))
  | inr e ↦ rw e (
      budgeted-IsBounded (paragraph_tokens texts) size budget [] 0 (work_from 0 texts) p
        (record { counted = omega arith; summed = refl; weighed = inl (omega arith) }))
]
