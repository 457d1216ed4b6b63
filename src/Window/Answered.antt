-- ===== src/Window/Answered.antt =====
-- translator.py, translate_batch_detailed: what the results of a call that ends hold.
use Prim.Native.Nat.{◌<◌}
use cwa_e_book_translate_plu.Prelude.{
  subst, sym, ap, ◌∙◌, ℕ, zero, suc, max, ◌≡◌, refl, arith, true, Bool-cases, Option-cases, ◌⊎◌,
  inl, inr, ok, err, List, [], ◌∷◌, ◌++◌, map, concat, some, some_inj, Text, length, get_elem?, all,
  All,
}
use cwa_e_book_translate_plu.Batch.{Config, elem, is_distinct, is_valid_selection, is_usable}
use cwa_e_book_translate_plu.Envelope.Group.{BatchTranslationItem, GroupResult}
use cwa_e_book_translate_plu.Window.{
  empty_item, do_group, write_group, Event, run, start, answered, answer, translate_batch_detailed,
}
use cwa_e_book_translate_plu.Window.Results.{
  In, Placed, Apart, Distinct, length-write_group, write_group-Placed, Placed-write,
  get-write_group,
}
use cwa_e_book_translate_plu.Window.Order.{in_order, AllApart, answer-in_order}

-- the items that a group has delivered, at their places
abbrev pub Delivered : (List ℕ → GroupResult) → List BatchTranslationItem → List ℕ → Type 0
Delivered outcome results g =
    (items : List BatchTranslationItem) × (do_group g (outcome g) ≡ some (ok items))
    × Placed g items results

-- The indices of a group are distinct, and are in the text.
abbrev pub AllInside : ℕ → List (List ℕ) → Type 0
AllInside n [] = Unit
AllInside n (g ∷ gs) = Distinct g × All (λ i. i < n) g × AllInside n gs

elem-In : (i : ℕ) (js : List ℕ) → In i js → elem i js ≡ true
elem-In i [] x = elim x [ ]
elem-In i (j ∷ js) (inl e) = ground arith
elem-In i (j ∷ js) (inr p) = ground (arith, elem-In i js p)

pub In-append_left : (i : ℕ) (xs ys : List ℕ) → In i xs → In i (xs ++ ys)
In-append_left i [] ys p = elim p [ ]
In-append_left i (x ∷ xs) ys (inl e) = inl e
In-append_left i (x ∷ xs) ys (inr p) = inr (In-append_left i xs ys p)

pub In-append_right : (i : ℕ) (xs ys : List ℕ) → In i ys → In i (xs ++ ys)
In-append_right i [] ys p = p
In-append_right i (x ∷ xs) ys p = inr (In-append_right i xs ys p)

is_distinct-Distinct : (xs : List ℕ) → is_distinct xs ≡ true → Distinct xs
unfolding is_distinct
is_distinct-Distinct [] h = tt
is_distinct-Distinct (x ∷ xs) h =
    (λ p. ground (arith, elem-In x xs p, h), is_distinct-Distinct xs (ground arith))

Distinct-append : (xs ys : List ℕ) → Distinct (xs ++ ys) → Distinct xs × Distinct ys × Apart xs ys
Distinct-append [] ys d = (tt, d, λ i p q. p)
Distinct-append (x ∷ xs) ys d =
    let rest = Distinct-append xs ys d.1 in
    (((λ p. d.0 (In-append_left x xs ys p)), rest.0), rest.1, apart rest.2)
  where
    apart : Apart xs ys → Apart (x ∷ xs) ys
    apart a i (inl e) q = d.0 (In-append_right x xs ys (subst (λ k. In k ys) e q))
    apart a i (inr p) q = a i p q

pub Apart-concat : (g : List ℕ) (gs : List (List ℕ)) → Apart g (concat gs) → All (Apart g) gs
Apart-concat g [] a = tt
Apart-concat g (h ∷ gs) a = (
  λ i p q. a i p (In-append_left i h (concat gs) q),
  Apart-concat g gs (λ i p q. a i p (In-append_right i h (concat gs) q)),
)

pub Distinct-AllApart : (gs : List (List ℕ)) → Distinct (concat gs) → AllApart gs
Distinct-AllApart [] d = tt
Distinct-AllApart (g ∷ gs) d =
    let parts = Distinct-append g (concat gs) d in
    (Apart-concat g gs parts.2, Distinct-AllApart gs parts.1)

is_usable-below :
    (texts : List Text) (is js : List ℕ)
    → all (is_usable texts) (is ++ js) ≡ true
    → All (λ i. i < length texts) is
unfolding is_usable
is_usable-below texts [] js h = tt
is_usable-below texts (i ∷ is) js h = (ground arith, is_usable-below texts is js (ground arith))

is_usable-rest :
    (texts : List Text) (is js : List ℕ)
    → all (is_usable texts) (is ++ js) ≡ true
    → all (is_usable texts) js ≡ true
is_usable-rest texts [] js h = h
is_usable-rest texts (i ∷ is) js h = is_usable-rest texts is js (ground arith)

pub AllInside-of :
    (texts : List Text) (gs : List (List ℕ))
    → Distinct (concat gs)
    → all (is_usable texts) (concat gs) ≡ true
    → AllInside (length texts) gs
AllInside-of texts [] d h = tt
AllInside-of texts (g ∷ gs) d h =
    let parts = Distinct-append g (concat gs) d in
    (
      parts.0,
      is_usable-below texts g (concat gs) h,
      AllInside-of texts gs parts.1 (is_usable-rest texts g (concat gs) h),
    )

Placed-in_order :
    (outcome : List ℕ → GroupResult) (g : List ℕ) (items : List BatchTranslationItem)
    (hs : List (List ℕ)) (results last : List BatchTranslationItem)
    → All (Apart g) hs
    → in_order outcome hs results ≡ some last
    → Placed g items results
    → Placed g items last
Placed-in_order outcome g items [] results last a e p = subst (Placed g items) (some_inj e) p
Placed-in_order outcome g items (h ∷ hs) results last a e p =
    elim (Option-cases (do_group h (outcome h))) [
      | inl q ↦ ground arith
      | inr (err r, q) ↦ ground arith
      | inr (ok more, q) ↦
          Placed-in_order outcome g items hs (write_group h more results) last a.1
            (ground (arith, q, e)) (Placed-write h g more items results (λ i x y. a.0 i y x) p)
    ]

in_order-Delivered :
    (outcome : List ℕ → GroupResult) (gs : List (List ℕ)) (results last : List BatchTranslationItem)
    → AllApart gs
    → AllInside (length results) gs
    → in_order outcome gs results ≡ some last
    → All (Delivered outcome last) gs
in_order-Delivered outcome [] results last a n e = tt
in_order-Delivered outcome (g ∷ gs) results last a n e =
    elim (Option-cases (do_group g (outcome g))) [
      | inl q ↦ ground arith
      | inr (err r, q) ↦ ground arith
      | inr (ok items, q) ↦
          let rest : in_order outcome gs (write_group g items results) ≡ some last =
            ground (arith, q, e) in
          (
            (
              items,
              q,
              Placed-in_order outcome g items gs (write_group g items results) last a.0 rest
                  (write_group-Placed g items results n.0 n.1),
            ),
            in_order-Delivered outcome gs (write_group g items results) last a.1
                (subst (λ k. AllInside k gs) (sym (length-write_group g items results)) n.2) rest,
          )
    ]

length-in_order :
    (outcome : List ℕ → GroupResult) (gs : List (List ℕ)) (results last : List BatchTranslationItem)
    → in_order outcome gs results ≡ some last
    → length last ≡ length results
length-in_order outcome [] results last e = ap length (sym (some_inj e))
length-in_order outcome (g ∷ gs) results last e = elim (Option-cases (do_group g (outcome g))) [
  | inl q ↦ ground arith
  | inr (err r, q) ↦ ground arith
  | inr (ok items, q) ↦
      length-in_order outcome gs (write_group g items results) last (ground (arith, q, e))
      ∙ length-write_group g items results
]

get-in_order :
    (outcome : List ℕ → GroupResult) (gs : List (List ℕ)) (results last : List BatchTranslationItem)
    (i : ℕ)
    → ¬ (In i (concat gs))
    → in_order outcome gs results ≡ some last
    → get_elem? last i ≡ get_elem? results i
get-in_order outcome [] results last i n e = ap (λ r. get_elem? r i) (sym (some_inj e))
get-in_order outcome (g ∷ gs) results last i n e = elim (Option-cases (do_group g (outcome g))) [
  | inl q ↦ ground arith
  | inr (err r, q) ↦ ground arith
  | inr (ok items, q) ↦
      get-in_order outcome gs (write_group g items results) last i
        (λ p. n (In-append_right i g (concat gs) p)) (ground (arith, q, e))
      ∙ get-write_group g items results i (λ p. n (In-append_left i g (concat gs) p))
]

-- The two ways to run a call with selected groups that ends with results.
answered_cases :
    (c : Config) (texts : List Text) (groups : List (List ℕ)) (m : ℕ)
    (outcome : List ℕ → GroupResult) (es : List Event) (results : List BatchTranslationItem)
    → translate_batch_detailed c texts (some groups) m outcome es ≡ answered results
    → ((groups ≡ []) ⊎ (is_valid_selection c texts groups ≡ true))
      × (answer (run (max 1 m) outcome (start texts groups) es) ≡ answered results)
unfolding translate_batch_detailed
answered_cases c texts [] m outcome es results h = (inl refl, h)
answered_cases c texts (g ∷ gs) m outcome es results h =
    elim (Bool-cases (is_valid_selection c texts (g ∷ gs))) [
      | inl v ↦ (inr v, ground (arith, v, h))
      | inr v ↦ ground arith
    ]

pub valid-AllApart :
    (c : Config) (texts : List Text) (groups : List (List ℕ))
    → (groups ≡ []) ⊎ (is_valid_selection c texts groups ≡ true)
    → Distinct (concat groups) × (all (is_usable texts) (concat groups) ≡ true)
unfolding is_valid_selection
valid-AllApart c texts groups (inl e) = rw e (tt, refl)
valid-AllApart c texts groups (inr v) =
    (is_distinct-Distinct (concat groups) (ground arith), ground arith)

-- A call with selected groups that ends with results has those that the loop over its groups in their
-- order has, whatever the window and the order in which the groups ended.
pub translate_batch_detailed-in_order :
    (c : Config) (texts : List Text) (groups : List (List ℕ)) (m : ℕ)
    (outcome : List ℕ → GroupResult) (es : List Event) (results : List BatchTranslationItem)
    → translate_batch_detailed c texts (some groups) m outcome es ≡ answered results
    → in_order outcome groups (map (λ _. empty_item) texts) ≡ some results
translate_batch_detailed-in_order c texts groups m outcome es results h =
    let cases = answered_cases c texts groups m outcome es results h in
    answer-in_order (max 1 m) outcome texts groups es results
      (Distinct-AllApart groups (valid-AllApart c texts groups cases.0).0) cases.1

length-map_empty : (texts : List Text) → length (map (λ _. empty_item) texts) ≡ length texts
length-map_empty [] = refl
length-map_empty (t ∷ ts) = ap suc (length-map_empty ts)

get-map_empty :
    (texts : List Text) (i : ℕ)
    → i < length texts
    → get_elem? (map (λ _. empty_item) texts) i ≡ some empty_item
get-map_empty [] i h = ground arith
get-map_empty (t ∷ ts) zero h = refl
get-map_empty (t ∷ ts) (suc i) h = get-map_empty ts i (omega arith)

-- A call with selected groups that ends with results has one for each text; each group has ended, and
-- the items that it delivered stand at its indices, in their order, where a missing one is marked; a
-- text that is in no group has the empty item.
pub translate_batch_detailed-Delivered :
    (c : Config) (texts : List Text) (groups : List (List ℕ)) (m : ℕ)
    (outcome : List ℕ → GroupResult) (es : List Event) (results : List BatchTranslationItem)
    → translate_batch_detailed c texts (some groups) m outcome es ≡ answered results
    → (length results ≡ length texts)
      × All (Delivered outcome results) groups
      × ((i : ℕ)
          → i < length texts
          → ¬ (In i (concat groups))
          → get_elem? results i ≡ some empty_item)
translate_batch_detailed-Delivered c texts groups m outcome es results h =
    let cases = answered_cases c texts groups m outcome es results h in
    let valid = valid-AllApart c texts groups cases.0 in
    let e = translate_batch_detailed-in_order c texts groups m outcome es results h in
    let first = map (λ _. empty_item) texts in
    (
      length-in_order outcome groups first results e ∙ length-map_empty texts,
      in_order-Delivered outcome groups first results (Distinct-AllApart groups valid.0)
          (subst (λ k. AllInside k groups) (sym (length-map_empty texts))
            (AllInside-of texts groups valid.0 valid.1))
          e,
      λ i l n. get-in_order outcome groups first results i n e ∙ get-map_empty texts i l,
    )
