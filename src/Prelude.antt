-- ===== src/Prelude.antt =====
-- The names that the other modules share: the libraries', passed on, and those of the children.
mod Tests
mod Lists
mod Results
mod Texts
pub use Tests.*
pub use Lists.*
unfoldable pub use Results.{ok_or, as_positive_int, as_positive_ticks, as_ticks}
pub use Results.{
  Result, ok, err, bind-ok, Result-cases, ◌>>=◌, ◌>>◌, guard, Value, none_value, bool_value,
  int_value, float_value, text_value, Float, finite, infinite, nan, ℤ, pos, negsuc,
}
unfoldable pub use Texts.{
  lstrip, strip, is_space, utf8_width, utf8_size, is_blank, text_eq, split_once, split_on,
  split_parts, join_by,
}
pub use Texts.{Text, text_eq_iff, text_eq_refl, codes}
pub use Prim.Native.Nat.{ℕ, zero, suc, ◌+◌, ◌-◌, ◌*◌, ◌/◌, ◌%◌, ◌≤◌, ◌<◌, min, max}
pub use Prim.Native.String.{String}
pub use mathlib.Core.Path.{◌≡◌, refl, sym, ap, ◌∙◌, subst}
pub use mathlib.Core.Logic.{◌≢◌, ◌↔◌, ◌⊎◌, inl, inr}
pub use mathlib.Core.Bool.{Bool, true, false, ◌&&◌, ◌||◌, not}
pub use mathlib.Core.Option.{Option, none, some}
pub use mathlib.Core.List.{
  List, [], ◌∷◌, ◌++◌, map, reverse, append-nil, append_assoc, reverse-reverse, reverse-append,
}
pub use native.Mathlib.Omega.{arith}
unfoldable pub use text.Mathlib.Text.{◌==◌ as str_eq}
pub use text.Mathlib.TextEquality.{eq_iff}
pub use text.Mathlib.TextPositions.{eq_refl}
