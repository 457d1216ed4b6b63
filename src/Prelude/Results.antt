-- ===== src/Prelude/Results.antt =====
-- Results of code that may raise, and the dynamic values that a constructor validates.
use Prim.Native.Nat.{ℕ, suc, ◌*◌}
use mathlib.Core.Bool.{Bool, true, false}
use mathlib.Core.List.{List}
use mathlib.Core.Option.{Option, none, some}
use mathlib.Core.Path.{◌≡◌, refl}
use mathlib.Core.Logic.{◌⊎◌, inl, inr}
use native.Mathlib.Omega.{arith}

-- `ok` is a normal return; `err` is an exception of the type `E`.
pub data Result {ℓ} (E A : Type ℓ) : Type ℓ where
  ok : A → Result E A
  err : E → Result E A

infixl 5 ◌>>=◌ ◌>>◌
abbrev pub ◌>>=◌ {ℓ} : {E A B : Type ℓ} → Result E A → (A → Result E B) → Result E B
ok a >>= f = f a
err e >>= f = err e

abbrev pub ◌>>◌ : {E B : Type 0} → Result E (Unit {0}) → Result E B → Result E B
m >> k = m >>= λ _. k

abbrev pub guard : {E : Type 0} → Bool → E → Result E (Unit {0})
guard true e = ok tt
guard false e = err e

unfoldable pub ok_or {ℓ} : {E A : Type ℓ} → Option A → E → Result E A
ok_or none e = err e
ok_or (some a) e = ok a

module _ {E A B : Type 0} where
  pub bind-ok :
      (m : Result E A) (f : A → Result E B) (y : B)
      → (m >>= f) ≡ ok y
      → (a : A) × (m ≡ ok a) × (f a ≡ ok y)
  bind-ok (ok a) f y h = (a, refl, h)
  bind-ok (err e) f y h = ground arith

module _ {E A : Type 0} where
  pub Result-cases : (m : Result E A) → ((e : E) × (m ≡ err e)) ⊎ ((a : A) × (m ≡ ok a))
  Result-cases (ok a) = inr (a, refl)
  Result-cases (err e) = inl (e, refl)

-- `negsuc n` is -(n + 1).
pub data ℤ : Type 0 where
  pos : ℕ → ℤ
  negsuc : ℕ → ℤ

-- A finite float is a whole number of clock ticks, a thousandth of a second each.
pub data Float : Type 0 where
  finite : ℤ → Float
  infinite nan : Float

pub data Value : Type 0 where
  none_value : Value
  bool_value : Bool → Value
  int_value : ℤ → Value
  float_value : Float → Value
  text_value : List ℕ → Value

-- `not isinstance(v, bool) and isinstance(v, int) and v > 0`
unfoldable pub as_positive_int : Value → Option ℕ
as_positive_int (int_value (pos (suc n))) = some (suc n)
as_positive_int v = none

-- `not isinstance(v, bool) and isinstance(v, (int, float)) and isfinite(v) and v >= 0`, in ticks
unfoldable pub as_ticks : Value → Option ℕ
as_ticks (int_value (pos n)) = some (n * 1000)
as_ticks (float_value (finite (pos n))) = some n
as_ticks v = none

-- the same with `v > 0`
unfoldable pub as_positive_ticks : Value → Option ℕ
as_positive_ticks (int_value (pos (suc n))) = some (suc n * 1000)
as_positive_ticks (float_value (finite (pos (suc n)))) = some (suc n)
as_positive_ticks v = none
