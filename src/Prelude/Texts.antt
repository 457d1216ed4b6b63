-- ===== src/Prelude/Texts.antt =====
-- Python strings as lists of code points: `str.strip`, the size of the UTF-8 encoding, equality.
use Prim.Native.Nat.{ℕ, ◌+◌}
use Prim.Native.Char.{code}
use Prim.Native.String.{String}
use mathlib.Core.Path.{◌≡◌, refl}
use mathlib.Core.Bool.{Bool, true, false, ◌&&◌, ◌||◌}
use mathlib.Core.Logic.{◌↔◌}
use mathlib.Core.List.{List, [], ◌∷◌, ◌++◌, reverse}
use mathlib.Core.Option
use mathlib.Core.Option.{Option, none, some}
use native.Mathlib.Omega.{arith}
use cwa_e_book_translate_plu.Prelude.Tests.{ltb, leb, ◌==◌, if◌then◌else◌}

abbrev pub Text : Type 0
Text = List ℕ

-- `str.isspace` of one code point
unfoldable pub is_space : ℕ → Bool
is_space c =
    (leb 9 c && leb c 13)
    || (leb 28 c && leb c 32)
    || c == 0x85
    || c == 0xa0
    || c == 0x1680
    || (leb 0x2000 c && leb c 0x200a)
    || c == 0x2028
    || c == 0x2029
    || c == 0x202f
    || c == 0x205f
    || c == 0x3000

unfoldable pub lstrip : Text → Text
lstrip [] = []
lstrip (c ∷ cs) = if is_space c then lstrip cs else c ∷ cs

-- `str.strip()`
unfoldable pub strip : Text → Text
strip t = reverse (lstrip (reverse (lstrip t)))

-- `not t`
unfoldable pub is_blank : Text → Bool
is_blank [] = true
is_blank (c ∷ cs) = false

-- the bytes of one code point; a surrogate has no encoding
unfoldable pub utf8_width : ℕ → Option ℕ
utf8_width c =
    if ltb c 0x80
    then some 1
    else if ltb c 0x800
    then some 2
    else if leb 0xd800 c && leb c 0xdfff
    then none
    else if ltb c 0x10000
    then some 3
    else some 4

-- `len(t.encode("utf-8"))`; `none` is a UnicodeEncodeError
unfoldable pub utf8_size : Text → Option ℕ
utf8_size [] = some 0
utf8_size (c ∷ cs) = elim (utf8_width c) [
  | none ↦ none
  | some w ↦ Option.map (λ n. w + n) (utf8_size cs)
]

unfoldable pub text_eq : Text → Text → Bool
text_eq [] [] = true
text_eq [] (d ∷ ds) = false
text_eq (c ∷ cs) [] = false
text_eq (c ∷ cs) (d ∷ ds) = c == d && text_eq cs ds

text_eq_sound : (s t : Text) → text_eq s t ≡ true → s ≡ t
unfolding text_eq
text_eq_sound [] [] h = refl
text_eq_sound [] (d ∷ ds) h = ground arith
text_eq_sound (c ∷ cs) [] h = ground arith
text_eq_sound (c ∷ cs) (d ∷ ds) h = ground (arith, text_eq_sound cs ds)

pub text_eq_refl : (t : Text) → text_eq t t ≡ true
unfolding text_eq
text_eq_refl [] = refl
text_eq_refl (c ∷ cs) = ground (arith, text_eq_refl cs)

pub text_eq_iff : (s t : Text) → (text_eq s t ≡ true) ↔ (s ≡ t)
text_eq_iff s t = (text_eq_sound s t, λ e. ground (arith, text_eq_refl s))

-- The code points of a literal.
abbrev pub codes : String → Text
codes String.[] = []
codes (String.◌∷◌ c s) = code c ∷ codes s

-- the characters before a separator and, if it is there, those after it
unfoldable pub split_once : ℕ → Text → Text × Option Text
split_once sep [] = ([], none)
split_once sep (c ∷ cs) =
    let (before, after) = split_once sep cs in
    if c == sep then ([], some cs) else (c ∷ before, after)

-- `t.split(sep)`: the part that is being read, and those after it
unfoldable pub split_parts : ℕ → Text → Text × List Text
split_parts sep [] = ([], [])
split_parts sep (c ∷ cs) =
    let (part, parts) = split_parts sep cs in
    if c == sep then ([], part ∷ parts) else (c ∷ part, parts)

unfoldable pub split_on : ℕ → Text → List Text
unfolding split_parts
split_on sep t = let (part, parts) = split_parts sep t in part ∷ parts

-- `sep.join(parts)`
unfoldable pub join_by : Text → List Text → Text
join_by sep [] = []
join_by sep (t ∷ []) = t
join_by sep (t ∷ u ∷ us) = t ++ sep ++ join_by sep (u ∷ us)
