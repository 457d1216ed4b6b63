-- ===== src/Validation/Namespace.antt =====
-- server.py: what passes the checks of a request.
use Prim.Native.Nat.{◌≤◌}
use cwa_e_book_translate_plu.Prelude.{
  subst, sym, ap, ◌∙◌, ℕ, ◌≡◌, refl, arith, Bool, true, false, not, Bool-cases, inl, inr, ok, List,
  [], ◌∷◌, ◌++◌, reverse, reverse-reverse, reverse-append, Option, none, some, Text, codes,
  is_space, lstrip, strip, is_blank, all, length, ltb,
}
use cwa_e_book_translate_plu.Auth.{Mode, is_control}
use cwa_e_book_translate_plu.Cache.{clean_field}
use cwa_e_book_translate_plu.Validation.{
  clean_name, Field, absent, other, text, name_of, is_listed, has_session_cookies,
  is_origin_allowed,
}

-- no space at the front
abbrev Starts : Text → Type 0
Starts [] = Unit
Starts (c ∷ cs) = is_space c ≡ false

lstrip-Starts : (t : Text) → Starts (lstrip t)
unfolding lstrip
lstrip-Starts [] = tt
lstrip-Starts (c ∷ cs) = elim (Bool-cases (is_space c)) [
  | inl e ↦ rw (e, lstrip) (lstrip-Starts cs)
  | inr e ↦ rw (e, lstrip) e
]

Starts-lstrip : (t : Text) → Starts t → lstrip t ≡ t
unfolding lstrip
Starts-lstrip [] s = refl
Starts-lstrip (c ∷ cs) s = ground (arith, s)

-- what is taken from the front
lstrip_rest : (t : Text) → (front : Text) × (front ++ lstrip t ≡ t)
unfolding lstrip
lstrip_rest [] = ([], refl)
lstrip_rest (c ∷ cs) = elim (Bool-cases (is_space c)) [
  | inl e ↦ let (front, h) = lstrip_rest cs in (c ∷ front, ground (arith, e, h))
  | inr e ↦ ([], ground (arith, e))
]

Starts-append : (s t : Text) → Starts (s ++ t) → Starts s
Starts-append [] t h = tt
Starts-append (c ∷ s) t h = h

strip-strip : (t : Text) → strip (strip t) ≡ strip t
unfolding strip
strip-strip t =
    let u = lstrip t in
    let core = lstrip (reverse u) in
    let (front, h) = lstrip_rest (reverse u) in
    let whole : reverse core ++ reverse front ≡ u =
      sym (reverse-append front core) ∙ ap reverse h ∙ reverse-reverse u in
    let starts : Starts (reverse core) =
      Starts-append (reverse core) (reverse front) (subst Starts (sym whole) (lstrip-Starts t)) in
    ap (λ x. reverse (lstrip (reverse x))) (Starts-lstrip (reverse core) starts)
    ∙ ap (λ x. reverse (lstrip x)) (reverse-reverse core)
    ∙ ap reverse (Starts-lstrip core (lstrip-Starts (reverse u)))

clean_name-clean_field :
    (max_chars : ℕ) (t v : Text)
    → max_chars ≤ 1024
    → clean_name max_chars t ≡ ok v
    → (clean_field v ≡ ok v) × (all (λ ch. not (is_control ch)) v ≡ true)
unfolding clean_name clean_field
clean_name-clean_field max_chars t v m e =
    let same : strip t ≡ v = ground (arith, e) in
    let again : strip v ≡ v = sym (ap strip same) ∙ strip-strip t ∙ same in
    let filled : is_blank (strip t) ≡ false = ground (arith, e) in
    let short : ltb max_chars (length (strip t)) ≡ false = ground (arith, e) in
    let clean : all (λ ch. not (is_control ch)) (strip t) ≡ true = ground (arith, e) in
    let filled : is_blank (strip v) ≡ false = ap is_blank again ∙ sym (ap is_blank same) ∙ filled in
    let short : length v ≤ 1024 = subst (λ x. length x ≤ 1024) same (ground (arith, short, m)) in
    (
      ground (arith, filled, short, again),
      subst (λ x. all (λ ch. not (is_control ch)) x ≡ true) same clean,
    )

-- If the limit of the server is at most that of the cache, then the book or the chapter of a request that
-- has passed the check is a field of a cache scope as it stands, and has no control character.
pub name_of-clean_field :
    (max_chars : ℕ) (field : Field) (v : Text)
    → max_chars ≤ 1024
    → name_of max_chars field ≡ ok v
    → (clean_field v ≡ ok v) × (all (λ ch. not (is_control ch)) v ≡ true)
unfolding name_of
name_of-clean_field max_chars absent v m e =
    clean_name-clean_field max_chars (codes "unscoped") v m e
name_of-clean_field max_chars other v m e = ground (arith, e)
name_of-clean_field max_chars (text t) v m e = clean_name-clean_field max_chars t v m e

-- In a mode with session cookies, the origin that is answered is one that is listed, whatever the policy
-- for private networks.
pub is_origin_allowed-is_listed :
    (allowed : List Text) (allow_lan : Bool) (is_private : Text → Bool) (mode : Mode)
    (origin : Option Text) (o : Text)
    → has_session_cookies mode ≡ true
    → is_origin_allowed allowed allow_lan is_private mode origin ≡ some o
    → (origin ≡ some o) × (is_listed o allowed ≡ true)
unfolding is_origin_allowed
is_origin_allowed-is_listed allowed lan is_private mode none o m e = ground (arith, e)
is_origin_allowed-is_listed allowed lan is_private mode (some origin) o m e =
    elim (Bool-cases (is_listed origin allowed)) [
      | inl l ↦
          let same : origin ≡ o = ground (arith, l, e) in
          (ap some same, subst (λ t. is_listed t allowed ≡ true) same l)
      | inr l ↦ ground (arith, l, m, e)
    ]
