-- ===== src/Window/Results.antt =====
-- translator.py, translate_batch_detailed: the writes of the groups into the results.
use Prim.Native.Nat.{◌<◌}
use cwa_e_book_translate_plu.Prelude.{
  subst, sym, ap, ◌∙◌, ℕ, zero, suc, ◌≡◌, ◌≢◌, refl, arith, ◌⊎◌, inl, inr, List, [], ◌∷◌, some,
  length, get_elem?, set, All,
}
use cwa_e_book_translate_plu.Envelope.Group.{BatchTranslationItem}
use cwa_e_book_translate_plu.Window.{missing_item, write_group}

abbrev pub In : ℕ → List ℕ → Type 0
In i [] = ⊥
In i (j ∷ js) = (i ≡ j) ⊎ In i js

-- The items of a group stand at its indices; an item that is not there is missing.
abbrev pub Placed : List ℕ → List BatchTranslationItem → List BatchTranslationItem → Type 0
Placed [] items results = Unit
Placed (i ∷ is) [] results = (get_elem? results i ≡ some missing_item) × Placed is [] results
Placed (i ∷ is) (t ∷ items) results = (get_elem? results i ≡ some t) × Placed is items results

abbrev pub Apart : List ℕ → List ℕ → Type 0
Apart g h = (i : ℕ) → In i g → In i h → ⊥

abbrev pub Distinct : List ℕ → Type 0
Distinct [] = Unit
Distinct (i ∷ is) = ¬ (In i is) × Distinct is

module _ {ℓ} {A : Type ℓ} where
  pub get-set_self :
      (xs : List A) (i : ℕ) (x : A) → i < length xs → get_elem? (set xs i x) i ≡ some x
  get-set_self [] i x h = ground arith
  get-set_self (y ∷ xs) zero x h = refl
  get-set_self (y ∷ xs) (suc i) x h = get-set_self xs i x (omega arith)

  pub get-set_ne :
      (xs : List A) (i j : ℕ) (x : A) → i ≢ j → get_elem? (set xs i x) j ≡ get_elem? xs j
  get-set_ne [] i j x h = refl
  get-set_ne (y ∷ xs) zero zero x h = absurd (h refl)
  get-set_ne (y ∷ xs) zero (suc j) x h = refl
  get-set_ne (y ∷ xs) (suc i) zero x h = refl
  get-set_ne (y ∷ xs) (suc i) (suc j) x h = get-set_ne xs i j x (λ e. h (ap suc e))

  pub length-set : (xs : List A) (i : ℕ) (x : A) → length (set xs i x) ≡ length xs
  length-set [] i x = refl
  length-set (y ∷ xs) zero x = refl
  length-set (y ∷ xs) (suc i) x = ap suc (length-set xs i x)

pub length-write_group :
    (g : List ℕ) (items results : List BatchTranslationItem)
    → length (write_group g items results) ≡ length results
unfolding write_group
length-write_group [] items results = refl
length-write_group (i ∷ is) [] results =
    length-write_group is [] (set results i missing_item) ∙ length-set results i missing_item
length-write_group (i ∷ is) (t ∷ items) results =
    length-write_group is items (set results i t) ∙ length-set results i t

pub get-write_group :
    (g : List ℕ) (items results : List BatchTranslationItem) (j : ℕ)
    → ¬ (In j g)
    → get_elem? (write_group g items results) j ≡ get_elem? results j
unfolding write_group
get-write_group [] items results j h = refl
get-write_group (i ∷ is) [] results j h =
    get-write_group is [] (set results i missing_item) j (λ p. h (inr p))
    ∙ get-set_ne results i j missing_item (λ e. h (inl (sym e)))
get-write_group (i ∷ is) (t ∷ items) results j h =
    get-write_group is items (set results i t) j (λ p. h (inr p))
    ∙ get-set_ne results i j t (λ e. h (inl (sym e)))

pub write_group-Placed :
    (g : List ℕ) (items results : List BatchTranslationItem)
    → Distinct g
    → All (λ i. i < length results) g
    → Placed g items (write_group g items results)
unfolding write_group
write_group-Placed [] items results d h = tt
write_group-Placed (i ∷ is) [] results d h = (
  get-write_group is [] (set results i missing_item) i d.0
      ∙ get-set_self results i missing_item h.0,
  write_group-Placed is [] (set results i missing_item) d.1
      (subst (λ n. All (λ j. j < n) is) (sym (length-set results i missing_item)) h.1),
)
write_group-Placed (i ∷ is) (t ∷ items) results d h = (
  get-write_group is items (set results i t) i d.0 ∙ get-set_self results i t h.0,
  write_group-Placed is items (set results i t) d.1
      (subst (λ n. All (λ j. j < n) is) (sym (length-set results i t)) h.1),
)

pub Placed-write :
    (g h : List ℕ) (new items results : List BatchTranslationItem)
    → Apart g h
    → Placed h items results
    → Placed h items (write_group g new results)
Placed-write g [] new items results a p = tt
Placed-write g (i ∷ is) new [] results a p = (
  get-write_group g new results i (λ q. a i q (inl refl)) ∙ p.0,
  Placed-write g is new [] results (λ j q r. a j q (inr r)) p.1,
)
Placed-write g (i ∷ is) new (t ∷ items) results a p = (
  get-write_group g new results i (λ q. a i q (inl refl)) ∙ p.0,
  Placed-write g is new items results (λ j q r. a j q (inr r)) p.1,
)

set-set_comm :
    (xs : List BatchTranslationItem) (i j : ℕ) (x y : BatchTranslationItem)
    → i ≢ j
    → set (set xs i x) j y ≡ set (set xs j y) i x
set-set_comm [] i j x y h = refl
set-set_comm (z ∷ xs) zero zero x y h = absurd (h refl)
set-set_comm (z ∷ xs) zero (suc j) x y h = refl
set-set_comm (z ∷ xs) (suc i) zero x y h = refl
set-set_comm (z ∷ xs) (suc i) (suc j) x y h =
    ap (◌∷◌ z) (set-set_comm xs i j x y (λ e. h (ap suc e)))

write_group-set :
    (g : List ℕ) (items results : List BatchTranslationItem) (j : ℕ) (y : BatchTranslationItem)
    → ¬ (In j g)
    → write_group g items (set results j y) ≡ set (write_group g items results) j y
unfolding write_group
write_group-set [] items results j y h = refl
write_group-set (i ∷ is) [] results j y h =
    ap (write_group is []) (set-set_comm results j i y missing_item (λ e. h (inl e)))
    ∙ write_group-set is [] (set results i missing_item) j y (λ p. h (inr p))
write_group-set (i ∷ is) (t ∷ items) results j y h =
    ap (write_group is items) (set-set_comm results j i y t (λ e. h (inl e)))
    ∙ write_group-set is items (set results i t) j y (λ p. h (inr p))

-- Groups that share no index are written in either order.
pub write_group_comm :
    (g h : List ℕ) (new items results : List BatchTranslationItem)
    → Apart g h
    → write_group h items (write_group g new results)
      ≡ write_group g new (write_group h items results)
unfolding write_group
write_group_comm g [] new items results a = refl
write_group_comm g (i ∷ is) new [] results a =
    ap (write_group is [])
      (sym (write_group-set g new results i missing_item (λ p. a i p (inl refl))))
    ∙ write_group_comm g is new [] (set results i missing_item) (λ j q r. a j q (inr r))
write_group_comm g (i ∷ is) new (t ∷ items) results a =
    ap (write_group is items) (sym (write_group-set g new results i t (λ p. a i p (inl refl))))
    ∙ write_group_comm g is new items (set results i t) (λ j q r. a j q (inr r))
