-- ===== src/Batch/Greedy.antt =====
-- translator.py, translation_groups with a token budget: no group is closed early.
use cwa_e_book_translate_plu.Prelude.{
  ℕ, ◌+◌, ◌≤◌, ◌<◌, ◌≡◌, refl, ◌⊎◌, inl, inr, true, List, [], ◌∷◌, ◌++◌, length, arith, Text,
  Bool-cases, ◌==◌, subst,
}
use cwa_e_book_translate_plu.Batch.{work_from, paragraph_tokens, closes, budgeted, grouped, sum_of}
use cwa_e_book_translate_plu.Batch.Partition.{sum_of-append}

-- A group that is followed by another is full, or the first paragraph of the next would have
-- taken it over the token budget.
abbrev pub IsClosed : (ℕ → ℕ) → ℕ → ℕ → List ℕ → List ℕ → Type 0
IsClosed f size budget g [] = ⊥
IsClosed f size budget g (i ∷ is) = (size ≤ length g) ⊎ (budget < sum_of f g + f i)

abbrev pub IsGreedy : (ℕ → ℕ) → ℕ → ℕ → List (List ℕ) → Type 0
IsGreedy f size budget [] = Unit
IsGreedy f size budget (g ∷ []) = Unit
IsGreedy f size budget (g ∷ h ∷ gs) = IsClosed f size budget g h × IsGreedy f size budget (h ∷ gs)

-- The first group starts with what is being filled.
abbrev StartsWith : ℕ → List (List ℕ) → Type 0
StartsWith i [] = ⊥
StartsWith i ([] ∷ gs) = ⊥
StartsWith i ((j ∷ js) ∷ gs) = i ≡ j

budgeted-StartsWith :
    (f : ℕ → ℕ) (size budget i : ℕ) (current : List ℕ) (tokens : ℕ) (work : List ℕ)
    → StartsWith i (budgeted f size budget (i ∷ current) tokens work)
unfolding budgeted
budgeted-StartsWith f size budget i current tokens [] = refl
budgeted-StartsWith f size budget i current tokens (index ∷ work) =
    elim (Bool-cases (closes size budget (i ∷ current) tokens (f index))) [
      | inl e ↦ rw e refl
      | inr e ↦
          rw e (budgeted-StartsWith f size budget i (current ++ index ∷ []) (tokens + f index) work)
    ]

IsGreedy-cons :
    (f : ℕ → ℕ) (size budget i : ℕ) (g : List ℕ) (gs : List (List ℕ))
    → (size ≤ length g) ⊎ (budget < sum_of f g + f i)
    → StartsWith i gs
    → IsGreedy f size budget gs
    → IsGreedy f size budget (g ∷ gs)
IsGreedy-cons f size budget i g [] c s r = absurd s
IsGreedy-cons f size budget i g ([] ∷ gs) c s r = absurd s
IsGreedy-cons f size budget i g ((j ∷ js) ∷ gs) c s r =
    (subst (λ k. (size ≤ length g) ⊎ (budget < sum_of f g + f k)) s c, r)

closes-closed :
    (f : ℕ → ℕ) (size budget : ℕ) (current : List ℕ) (tokens i : ℕ)
    → tokens ≡ sum_of f current
    → closes size budget current tokens (f i) ≡ true
    → (size ≤ length current) ⊎ (budget < sum_of f current + f i)
unfolding closes
closes-closed f size budget current tokens i s e = ground arith

budgeted-IsGreedy :
    (f : ℕ → ℕ) (size budget : ℕ) (current : List ℕ) (tokens : ℕ) (work : List ℕ)
    → tokens ≡ sum_of f current
    → IsGreedy f size budget (budgeted f size budget current tokens work)
unfolding budgeted
budgeted-IsGreedy f size budget [] tokens [] s = tt
budgeted-IsGreedy f size budget (j ∷ js) tokens [] s = tt
budgeted-IsGreedy f size budget current tokens (index ∷ work) s =
    elim (Bool-cases (closes size budget current tokens (f index))) [
      | inl e ↦ rw e (
          IsGreedy-cons f size budget index current _
            (closes-closed f size budget current tokens index s e)
            (budgeted-StartsWith f size budget index [] (f index) work)
            (budgeted-IsGreedy f size budget (index ∷ []) (f index) work (omega arith)))
      | inr e ↦ rw e (
          budgeted-IsGreedy f size budget (current ++ index ∷ []) (tokens + f index) work
            (omega (arith, sum_of-append f current (index ∷ []))))
    ]

-- With a token budget no group is closed early: one that is followed by another is full, or the
-- first paragraph of the next group would have taken it over the budget.
pub grouped-IsGreedy :
    (texts : List Text) (size budget : ℕ)
    → 0 < budget
    → IsGreedy (paragraph_tokens texts) size budget (grouped texts size budget)
unfolding grouped
grouped-IsGreedy texts size budget p = elim (Bool-cases (budget == 0)) [
  | inl e ↦ absurd (ground arith)
  | inr e ↦
      rw e (budgeted-IsGreedy (paragraph_tokens texts) size budget [] 0 (work_from 0 texts) refl)
]
