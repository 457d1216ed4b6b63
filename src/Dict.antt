-- ===== src/Dict.antt =====
-- The dictionaries of the source with text keys, in the order of insertion.
use Prim.Native.Nat.{◌≤◌}
use cwa_e_book_translate_plu.Prelude.{
  suc, ◌≡◌, refl, sym, ◌∙◌, subst, arith, ◌⊎◌, inl, inr, Bool, true, false, Bool-cases, ◌||◌, List,
  [], ◌∷◌, Text, text_eq, text_eq_iff, text_eq_refl, length, if◌then◌else◌,
}

pub same_key : {j k : Text} → text_eq j k ≡ true → j ≡ k
same_key {j} {k} e = (text_eq_iff j k).0 e

pub text_eq_sym : (j k : Text) → text_eq j k ≡ text_eq k j
text_eq_sym j k = elim (Bool-cases (text_eq j k)) [
  | inl e ↦ ground (arith, same_key e, text_eq_refl j)
  | inr e ↦ elim (Bool-cases (text_eq k j)) [
    | inl f ↦ ground (arith, same_key f, text_eq_refl j)
    | inr f ↦ e ∙ sym f
  ]
]

module _ {ℓ} {A : Type ℓ} where
  -- `key in d`
  unfoldable pub has_key : Text → List (Text × A) → Bool
  has_key k [] = false
  has_key k ((j, v) ∷ d) = text_eq j k || has_key k d

  -- `d.get(key, default)`
  unfoldable pub get_or : A → Text → List (Text × A) → A
  get_or default k [] = default
  get_or default k ((j, v) ∷ d) = if text_eq j k then v else get_or default k d

  -- `d[key] = value`
  unfoldable pub assign : Text → A → List (Text × A) → List (Text × A)
  assign k v [] = (k, v) ∷ []
  assign k v ((j, w) ∷ d) =
      let rest = assign k v d in if text_eq j k then (j, v) ∷ d else (j, w) ∷ rest

  -- `del d[key]` of each key whose value does not pass the test
  unfoldable pub keep_values : (A → Bool) → List (Text × A) → List (Text × A)
  keep_values test [] = []
  keep_values test ((j, v) ∷ d) =
      let rest = keep_values test d in if test v then (j, v) ∷ rest else rest

  -- `d.pop(key, None)`
  unfoldable pub delete_key : Text → List (Text × A) → List (Text × A)
  delete_key k [] = []
  delete_key k ((j, v) ∷ d) =
      let rest = delete_key k d in if text_eq j k then rest else (j, v) ∷ rest

  abbrev pub UniqueKeys : List (Text × A) → Type 0
  UniqueKeys [] = Unit
  UniqueKeys ((j, v) ∷ d) = (has_key j d ≡ false) × UniqueKeys d

  has_key-keep_values :
      (test : A → Bool) (k : Text) (d : List (Text × A))
      → has_key k d ≡ false
      → has_key k (keep_values test d) ≡ false
  unfolding has_key keep_values
  has_key-keep_values test k [] h = refl
  has_key-keep_values test k ((j, v) ∷ d) h = ground (arith, has_key-keep_values test k d)

  pub keep_values-UniqueKeys :
      (test : A → Bool) (d : List (Text × A)) → UniqueKeys d → UniqueKeys (keep_values test d)
  unfolding keep_values
  keep_values-UniqueKeys test [] u = tt
  keep_values-UniqueKeys test ((j, v) ∷ d) u = elim (Bool-cases (test v)) [
    | inl e ↦
        rw (e, keep_values) (has_key-keep_values test j d u.0, keep_values-UniqueKeys test d u.1)
    | inr e ↦ rw (e, keep_values) (keep_values-UniqueKeys test d u.1)
  ]

  has_key-assign :
      (i k : Text) (v : A) (d : List (Text × A))
      → text_eq k i ≡ false
      → has_key i (assign k v d) ≡ has_key i d
  unfolding has_key assign
  has_key-assign i k v [] h = ground (arith, h)
  has_key-assign i k v ((j, w) ∷ d) h = elim (Bool-cases (text_eq j k)) [
    | inl e ↦ ground (arith, e)
    | inr e ↦ ground (arith, e, has_key-assign i k v d h)
  ]

  pub assign-UniqueKeys :
      (k : Text) (v : A) (d : List (Text × A)) → UniqueKeys d → UniqueKeys (assign k v d)
  unfolding assign has_key
  assign-UniqueKeys k v [] u = (refl, tt)
  assign-UniqueKeys k v ((j, w) ∷ d) u = elim (Bool-cases (text_eq j k)) [
    | inl e ↦ rw (e, assign) u
    | inr e ↦
        rw (e, assign)
          (has_key-assign j k v d (text_eq_sym k j ∙ e) ∙ u.0, assign-UniqueKeys k v d u.1)
  ]

  pub get_or-assign_same :
      (x : A) (k : Text) (v : A) (d : List (Text × A)) → get_or x k (assign k v d) ≡ v
  unfolding get_or assign
  get_or-assign_same x k v [] = ground (arith, text_eq_refl k)
  get_or-assign_same x k v ((j, w) ∷ d) = ground (arith, get_or-assign_same x k v d)

  pub get_or-assign_other :
      (x : A) (i k : Text) (v : A) (d : List (Text × A))
      → text_eq k i ≡ false
      → get_or x i (assign k v d) ≡ get_or x i d
  unfolding get_or assign
  get_or-assign_other x i k v [] h = ground (arith, h)
  get_or-assign_other x i k v ((j, w) ∷ d) h = elim (Bool-cases (text_eq j k)) [
    | inl e ↦
        let other : text_eq j i ≡ false = subst (λ t. text_eq t i ≡ false) (sym (same_key e)) h in
        ground (arith, e, other)
    | inr e ↦ ground (arith, e, get_or-assign_other x i k v d h)
  ]

  pub get_or-absent :
      (x : A) (k : Text) (d : List (Text × A)) → has_key k d ≡ false → get_or x k d ≡ x
  unfolding get_or has_key
  get_or-absent x k [] h = refl
  get_or-absent x k ((j, v) ∷ d) h = ground (arith, get_or-absent x k d)

  pub length-keep_values :
      (test : A → Bool) (d : List (Text × A)) → length (keep_values test d) ≤ length d
  unfolding keep_values
  length-keep_values test [] = omega arith
  length-keep_values test ((j, v) ∷ d) = ground (arith, length-keep_values test d)

  pub length-assign_known :
      (k : Text) (v : A) (d : List (Text × A))
      → has_key k d ≡ true
      → length (assign k v d) ≡ length d
  unfolding assign has_key
  length-assign_known k v [] h = ground arith
  length-assign_known k v ((j, w) ∷ d) h = ground (arith, length-assign_known k v d)

  pub length-assign_le :
      (k : Text) (v : A) (d : List (Text × A)) → length (assign k v d) ≤ suc (length d)
  unfolding assign
  length-assign_le k v [] = omega arith
  length-assign_le k v ((j, w) ∷ d) = ground (arith, length-assign_le k v d)

  -- What is kept is unchanged; what is dropped did not pass the test.
  pub get_or-keep_values :
      (test : A → Bool) (x : A) (k : Text) (d : List (Text × A))
      → UniqueKeys d
      → (get_or x k (keep_values test d) ≡ get_or x k d)
        ⊎ ((test (get_or x k d) ≡ false) × (get_or x k (keep_values test d) ≡ x))
  unfolding get_or keep_values
  get_or-keep_values test x k [] u = inl refl
  get_or-keep_values test x k ((j, v) ∷ d) u = elim (Bool-cases (text_eq j k)) [
    | inl e ↦ elim (Bool-cases (test v)) [
      | inl t ↦ inl (ground (arith, e, t))
      | inr t ↦
          let gone : has_key k (keep_values test d) ≡ false =
            has_key-keep_values test k d (subst (λ i. has_key i d ≡ false) (same_key e) u.0) in
          inr (
            ground (arith, e, t),
            ground (arith, e, t, get_or-absent x k (keep_values test d) gone),
          )
    ]
    | inr e ↦ elim (get_or-keep_values test x k d u.1) [
      | inl r ↦ inl (ground (arith, e, r))
      | inr (t, r) ↦ inr (ground (arith, e, t), ground (arith, e, r))
    ]
  ]

  pub get_or-delete_key_same :
      (x : A) (k : Text) (d : List (Text × A)) → get_or x k (delete_key k d) ≡ x
  unfolding get_or delete_key
  get_or-delete_key_same x k [] = refl
  get_or-delete_key_same x k ((j, v) ∷ d) = ground (arith, get_or-delete_key_same x k d)

  pub get_or-delete_key_other :
      (x : A) (i k : Text) (d : List (Text × A))
      → text_eq k i ≡ false
      → get_or x i (delete_key k d) ≡ get_or x i d
  unfolding get_or delete_key
  get_or-delete_key_other x i k [] h = refl
  get_or-delete_key_other x i k ((j, v) ∷ d) h = elim (Bool-cases (text_eq j k)) [
    | inl e ↦
        let other : text_eq j i ≡ false = subst (λ t. text_eq t i ≡ false) (sym (same_key e)) h in
        ground (arith, e, other, get_or-delete_key_other x i k d h)
    | inr e ↦ ground (arith, e, get_or-delete_key_other x i k d h)
  ]

  pub length-delete_key : (k : Text) (d : List (Text × A)) → length (delete_key k d) ≤ length d
  unfolding delete_key
  length-delete_key k [] = omega arith
  length-delete_key k ((j, v) ∷ d) = ground (arith, length-delete_key k d)
