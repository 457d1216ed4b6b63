-- ===== src/Cache/Latest.antt =====
-- cache.py, `_enforce_cap`: the rows that stay are the most recently used ones.
use cwa_e_book_translate_plu.Prelude.{
  subst, ℕ, zero, suc, ◌≡◌, refl, arith, Bool, true, false, Bool-cases, ◌⊎◌, inl, inr, List, [],
  ◌∷◌, Text, text_eq_refl, take, drop, take-append-drop, All, All-append,
}
use cwa_e_book_translate_plu.Cache.{
  Row, text_ltb, is_before, insert_sorted, order_by, is_key, delete_where, enforce_cap,
}

text_ltb_trans : (s t u : Text) → text_ltb t s ≡ false → text_ltb u t ≡ false → text_ltb u s ≡ false
unfolding text_ltb
text_ltb_trans [] [] [] p q = refl
text_ltb_trans [] [] (e ∷ u) p q = ground arith
text_ltb_trans [] (d ∷ t) [] p q = ground arith
text_ltb_trans [] (d ∷ t) (e ∷ u) p q = ground arith
text_ltb_trans (c ∷ s) [] u p q = ground arith
text_ltb_trans (c ∷ s) (d ∷ t) [] p q = ground arith
text_ltb_trans (c ∷ s) (d ∷ t) (e ∷ u) p q = ground (arith, text_ltb_trans s t u)

text_ltb_asym : (s t : Text) → text_ltb s t ≡ true → text_ltb t s ≡ false
unfolding text_ltb
text_ltb_asym [] [] p = ground arith
text_ltb_asym [] (d ∷ t) p = ground arith
text_ltb_asym (c ∷ s) [] p = ground arith
text_ltb_asym (c ∷ s) (d ∷ t) p = ground (arith, text_ltb_asym s t)

-- `b` does not come before `a`
abbrev pub NotAfter : Row → Row → Type 0
NotAfter a b = is_before b a ≡ false

NotAfter-trans : (a b c : Row) → NotAfter a b → NotAfter b c → NotAfter a c
unfolding is_before
NotAfter-trans a b c p q = ground (
  arith,
  text_ltb_trans c.cache_key b.cache_key a.cache_key,
  text_ltb_trans a.cache_key b.cache_key c.cache_key,
)

before-NotAfter : (a b : Row) → is_before a b ≡ true → NotAfter a b
unfolding is_before
before-NotAfter a b p =
    ground (arith, text_ltb_asym a.cache_key b.cache_key, text_ltb_asym b.cache_key a.cache_key)

abbrev IsSorted : List Row → Type 0
IsSorted [] = Unit
IsSorted (x ∷ xs) = All (NotAfter x) xs × IsSorted xs

module _ (P : Row → Type 0) where
  insert_sorted-All : (r : Row) (xs : List Row) → P r → All P xs → All P (insert_sorted r xs)
  unfolding insert_sorted
  insert_sorted-All r [] p h = (p, tt)
  insert_sorted-All r (x ∷ xs) p h = elim (Bool-cases (is_before x r)) [
    | inl q ↦ rw (q, insert_sorted) (h.0, insert_sorted-All r xs p h.1)
    | inr q ↦ rw (q, insert_sorted) (p, h)
  ]

  insert_sorted-All-back : (r : Row) (xs : List Row) → All P (insert_sorted r xs) → P r × All P xs
  unfolding insert_sorted
  insert_sorted-All-back r [] h = h
  insert_sorted-All-back r (x ∷ xs) h = elim (Bool-cases (is_before x r)) [
    | inl q ↦
        let e : insert_sorted r (x ∷ xs) ≡ x ∷ insert_sorted r xs = rw (q, insert_sorted) refl in
        let h' = subst (All P) e h in
        let rest = insert_sorted-All-back r xs h'.1 in (rest.0, (h'.0, rest.1))
    | inr q ↦
        let e : insert_sorted r (x ∷ xs) ≡ r ∷ x ∷ xs = rw (q, insert_sorted) refl in
        subst (All P) e h
  ]

  order_by-All-back : (rows : List Row) → All P (order_by rows) → All P rows
  unfolding order_by
  order_by-All-back [] h = tt
  order_by-All-back (r ∷ rows) h =
      let (p, rest) = insert_sorted-All-back r (order_by rows) h in (p, order_by-All-back rows rest)

  drop-All : (m : ℕ) (xs : List Row) → All P xs → All P (drop m xs)
  drop-All zero xs h = h
  drop-All (suc m) [] h = tt
  drop-All (suc m) (x ∷ xs) h = drop-All m xs h.1

  delete_where-All :
      (test : Row → Bool) (rows : List Row)
      → All (λ r. (test r ≡ true) ⊎ P r) rows
      → All P (delete_where test rows)
  unfolding delete_where
  delete_where-All test [] h = tt
  delete_where-All test (r ∷ rows) h = elim (Bool-cases (test r)) [
    | inl q ↦ rw (q, delete_where) (delete_where-All test rows h.1)
    | inr q ↦
        rw (q, delete_where)
          (elim h.0 [ inl t ↦ absurd (ground arith) | inr p ↦ (p, delete_where-All test rows h.1) ])
  ]

All-NotAfter :
    (a b : Row) (xs : List Row) → NotAfter a b → All (NotAfter b) xs → All (NotAfter a) xs
All-NotAfter a b [] p h = tt
All-NotAfter a b (x ∷ xs) p h = (NotAfter-trans a b x p h.0, All-NotAfter a b xs p h.1)

insert_sorted-IsSorted : (r : Row) (xs : List Row) → IsSorted xs → IsSorted (insert_sorted r xs)
unfolding insert_sorted
insert_sorted-IsSorted r [] h = (tt, tt)
insert_sorted-IsSorted r (x ∷ xs) h = elim (Bool-cases (is_before x r)) [
  | inl q ↦
      rw (q, insert_sorted)
        (
          insert_sorted-All (NotAfter x) r xs (before-NotAfter x r q) h.0,
          insert_sorted-IsSorted r xs h.1,
        )
  | inr q ↦ rw (q, insert_sorted) ((q, All-NotAfter r x xs q h.0), h)
]

order_by-IsSorted : (rows : List Row) → IsSorted (order_by rows)
unfolding order_by
order_by-IsSorted [] = tt
order_by-IsSorted (r ∷ rows) = insert_sorted-IsSorted r (order_by rows) (order_by-IsSorted rows)

take-NotAfter :
    (m : ℕ) (xs : List Row) → IsSorted xs → All (λ t. All (NotAfter t) (drop m xs)) (take m xs)
take-NotAfter zero xs h = tt
take-NotAfter (suc m) [] h = tt
take-NotAfter (suc m) (x ∷ xs) h = (drop-All (NotAfter x) m xs h.0, take-NotAfter m xs h.1)

module _ (P Q : Row → Type 0) where
  All-imp : ((r : Row) → P r → Q r) → (xs : List Row) → All P xs → All Q xs
  All-imp f [] h = tt
  All-imp f (x ∷ xs) h = (f x h.0, All-imp f xs h.1)

own-is_key : (vs : List Row) → All (λ r. is_key vs r ≡ true) vs
unfolding is_key
own-is_key [] = tt
own-is_key (v ∷ vs) = (
  ground (arith, text_eq_refl v.cache_key),
  All-imp (λ r. is_key vs r ≡ true) (λ r. is_key (v ∷ vs) r ≡ true) (λ r p. ground arith) vs
      (own-is_key vs),
)

-- the rows beyond the cap, in the order of the query
abbrev pub beyond : ℕ → List Row → List Row
beyond limit rows = drop limit (order_by rows)

-- The rows that the cap leaves are the most recently used: none of the rows beyond the cap comes
-- before one of them in the order of last access, then creation, then key.
pub enforce_cap-NotAfter :
    (limit : ℕ) (rows : List Row)
    → All (λ r. All (NotAfter r) (beyond limit rows)) (enforce_cap limit rows)
unfolding enforce_cap
enforce_cap-NotAfter limit rows =
    let s = order_by rows in
    let victims = beyond limit rows in
    let Kept : Row → Type 0 = λ r. All (NotAfter r) victims in
    let Either : Row → Type 0 = λ r. (is_key victims r ≡ true) ⊎ Kept r in
    let early =
      All-imp Kept Either (λ r p. inr p) (take limit s)
        (take-NotAfter limit s (order_by-IsSorted rows)) in
    let late =
      All-imp (λ r. is_key victims r ≡ true) Either (λ r p. inl p) victims (own-is_key victims) in
    let both =
      subst (All Either) (take-append-drop limit s)
        (All-append Either (take limit s) victims early late) in
    delete_where-All Kept (is_key victims) rows (order_by-All-back Either rows both)
