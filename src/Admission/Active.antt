-- ===== src/Admission/Active.antt =====
-- server.py: the timestamps of a window, and the calls that were admitted.
use Prim.Native.Nat.{◌≤◌}
use cwa_e_book_translate_plu.Prelude.{
  sym, ap, ◌∙◌, ℕ, suc, ◌≡◌, refl, arith, inl, inr, false, Bool-cases, ◌||◌, List, [], ◌∷◌, ◌++◌,
  Text, text_eq, length, if◌then◌else◌,
}
use cwa_e_book_translate_plu.Dict.{has_key, get_or, UniqueKeys}
use cwa_e_book_translate_plu.Admission.{Store, active, is_active, is_filled, map_values}

-- the times of the admitted calls of a client
abbrev pub times_of : Text → List (Text × ℕ) → List ℕ
times_of ip [] = []
times_of ip ((k, t) ∷ log) = let rest = times_of ip log in if text_eq k ip then t ∷ rest else rest

pub times_of-append :
    (ip k : Text) (t : ℕ) (log : List (Text × ℕ))
    → times_of ip (log ++ (k, t) ∷ [])
      ≡ (if text_eq k ip then times_of ip log ++ t ∷ [] else times_of ip log)
times_of-append ip k t [] = elim (Bool-cases (text_eq k ip)) [
  | inl e ↦ ground (arith, e)
  | inr e ↦ ground (arith, e)
]
times_of-append ip k t ((j, u) ∷ log) = elim (Bool-cases (text_eq k ip)) [
  | inl e ↦ ground (arith, e, times_of-append ip k t log)
  | inr e ↦ ground (arith, e, times_of-append ip k t log)
]

module _ (w : ℕ) where
  pub active-append :
      (now : ℕ) (xs ys : List ℕ) → active w now (xs ++ ys) ≡ active w now xs ++ active w now ys
  unfolding active
  active-append now [] ys = refl
  active-append now (x ∷ xs) ys = ground (arith, active-append now xs ys)

  -- What is active later was active before.
  pub active-active :
      (now later : ℕ) (xs : List ℕ)
      → now ≤ later
      → active w later (active w now xs) ≡ active w later xs
  unfolding active
  active-active now later [] h = refl
  active-active now later (x ∷ xs) h = ground (arith, active-active now later xs h)

  pub length-active :
      (now later : ℕ) (xs : List ℕ)
      → now ≤ later
      → length (active w later xs) ≤ length (active w now xs)
  unfolding active
  length-active now later [] h = omega arith
  length-active now later (x ∷ xs) h = ground (arith, length-active now later xs h)

  pub active-is_active : (now : ℕ) (xs : List ℕ) → is_active w now xs ≡ false → active w now xs ≡ []
  unfolding active is_active
  active-is_active now [] h = refl
  active-is_active now (x ∷ xs) h = ground (arith, active-is_active now xs)

  pub empty_of : (ys : List ℕ) → is_filled ys ≡ false → ys ≡ []
  empty_of [] e = refl
  empty_of (y ∷ ys) e = ground arith

pub get_or-map_values :
    (f : List ℕ → List ℕ) (k : Text) (d : Store)
    → f [] ≡ []
    → get_or [] k (map_values f d) ≡ f (get_or [] k d)
unfolding get_or
get_or-map_values f k [] h = sym h
get_or-map_values f k ((j, v) ∷ d) h = elim (Bool-cases (text_eq j k)) [
  | inl e ↦ ground (arith, e)
  | inr e ↦ ground (arith, e, get_or-map_values f k d h)
]

pub has_key-map_values :
    (f : List ℕ → List ℕ) (k : Text) (d : Store) → has_key k (map_values f d) ≡ has_key k d
unfolding has_key
has_key-map_values f k [] = refl
has_key-map_values f k ((j, v) ∷ d) = ap (λ b. text_eq j k || b) (has_key-map_values f k d)

pub map_values-UniqueKeys :
    (f : List ℕ → List ℕ) (d : Store) → UniqueKeys d → UniqueKeys (map_values f d)
map_values-UniqueKeys f [] u = tt
map_values-UniqueKeys f ((j, v) ∷ d) u =
    (has_key-map_values f j d ∙ u.0, map_values-UniqueKeys f d u.1)

pub length-map_values : (f : List ℕ → List ℕ) (d : Store) → length (map_values f d) ≡ length d
length-map_values f [] = refl
length-map_values f ((j, v) ∷ d) = ap suc (length-map_values f d)
