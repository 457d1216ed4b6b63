-- ===== src/Validation/Tests.antt =====
-- server.py: a book that is named with spaces around it.
use cwa_e_book_translate_plu.Prelude.{
  ◌≡◌, refl, arith, not, true, ok, codes, all, strip, lstrip, is_space, is_blank,
}
use cwa_e_book_translate_plu.Auth.{is_control}
use cwa_e_book_translate_plu.Cache.{clean_field}
use cwa_e_book_translate_plu.Validation.{clean_name, text, name_of}
use cwa_e_book_translate_plu.Validation.Namespace.{name_of-clean_field}

named : name_of 512 (text (codes " book 1 ")) ≡ ok (codes "book 1")
unfolding name_of clean_name strip lstrip is_space is_blank is_control
named = refl

name_of-clean_field_example :
    (clean_field (codes "book 1") ≡ ok (codes "book 1"))
    × (all (λ ch. not (is_control ch)) (codes "book 1") ≡ true)
name_of-clean_field_example =
    name_of-clean_field 512 (text (codes " book 1 ")) (codes "book 1") (omega arith) named
