-- ===== src/Cache/Bounded.antt =====
-- cache.py: how many rows the table holds, also where transactions are rolled back.
use Prim.Native.Nat.{◌≤◌}
use cwa_e_book_translate_plu.Prelude.{
  ℕ, suc, ◌+◌, ◌≡◌, refl, arith, Bool, List, [], ◌∷◌, ◌++◌, Text, text_eq_refl, length,
  length-take-le, take, drop, take-append-drop, ap, ◌∙◌,
}
use cwa_e_book_translate_plu.Cache.{
  Row, delete_where, upsert, upsert_all, insert_sorted, order_by, is_key, enforce_cap, add_hits,
  add_all_hits,
}

pub length-delete_where :
    (test : Row → Bool) (rows : List Row) → length (delete_where test rows) ≤ length rows
unfolding delete_where
length-delete_where test [] = omega arith
length-delete_where test (r ∷ rows) = ground (arith, length-delete_where test rows)

length-delete_where-insert_sorted :
    (test : Row → Bool) (r : Row) (xs : List Row)
    → length (delete_where test (insert_sorted r xs)) ≡ length (delete_where test (r ∷ xs))
unfolding delete_where insert_sorted
length-delete_where-insert_sorted test r [] = refl
length-delete_where-insert_sorted test r (x ∷ xs) =
    ground (arith, length-delete_where-insert_sorted test r xs)

length-delete_where-order_by :
    (test : Row → Bool) (rows : List Row)
    → length (delete_where test (order_by rows)) ≡ length (delete_where test rows)
unfolding delete_where order_by
length-delete_where-order_by test [] = refl
length-delete_where-order_by test (r ∷ rows) = ground (
  arith,
  length-delete_where-insert_sorted test r (order_by rows),
  length-delete_where-order_by test rows,
)

length-delete_where-append :
    (test : Row → Bool) (xs ys : List Row)
    → length (delete_where test (xs ++ ys))
      ≡ length (delete_where test xs) + length (delete_where test ys)
unfolding delete_where
length-delete_where-append test [] ys = omega arith
length-delete_where-append test (x ∷ xs) ys = ground (arith, length-delete_where-append test xs ys)

-- The rows that a delete by their own keys leaves are none.
is_key-skip :
    (v : Row) (vs xs : List Row)
    → length (delete_where (is_key vs) xs) ≡ 0
    → length (delete_where (is_key (v ∷ vs)) xs) ≡ 0
unfolding delete_where is_key
is_key-skip v vs [] h = refl
is_key-skip v vs (x ∷ xs) h = ground (arith, is_key-skip v vs xs)

length-delete_where-own : (vs : List Row) → length (delete_where (is_key vs) vs) ≡ 0
unfolding delete_where is_key
length-delete_where-own [] = refl
length-delete_where-own (v ∷ vs) =
    ground (arith, text_eq_refl v.cache_key, is_key-skip v vs vs (length-delete_where-own vs))

-- The cap leaves at most `max_entries` rows.
pub length-enforce_cap :
    (max_entries : ℕ) (rows : List Row) → length (enforce_cap max_entries rows) ≤ max_entries
unfolding enforce_cap
length-enforce_cap m rows =
    let s = order_by rows in
    let victims = drop m s in
    let whole = length-delete_where-order_by (is_key victims) rows in
    let parts = length-delete_where-append (is_key victims) (take m s) victims in
    let same = ap (λ xs. length (delete_where (is_key victims) xs)) (take-append-drop m s) in
    omega (
      arith,
      whole,
      parts,
      same,
      length-delete_where (is_key victims) (take m s),
      length-take-le m s,
      length-delete_where-own victims,
    )

length-upsert : (r : Row) (rows : List Row) → length (upsert r rows) ≤ suc (length rows)
unfolding upsert
length-upsert r [] = omega arith
length-upsert r (x ∷ rows) = ground (arith, length-upsert r rows)

pub length-upsert_all :
    (new rows : List Row) → length (upsert_all new rows) ≤ length rows + length new
unfolding upsert_all
length-upsert_all [] rows = omega arith
length-upsert_all (r ∷ new) rows =
    omega (arith, length-upsert_all new (upsert r rows), length-upsert r rows)

length-add_hits :
    (key : Text) (n at : ℕ) (rows : List Row) → length (add_hits key n at rows) ≡ length rows
unfolding add_hits
length-add_hits key n at [] = refl
length-add_hits key n at (r ∷ rows) = ground (arith, length-add_hits key n at rows)

pub length-add_all_hits :
    (pending : List (Text × ℕ)) (at : ℕ) (rows : List Row)
    → length (add_all_hits pending at rows) ≡ length rows
unfolding add_all_hits
length-add_all_hits [] at rows = refl
length-add_all_hits ((key, n) ∷ more) at rows =
    length-add_all_hits more at (add_hits key n at rows) ∙ length-add_hits key n at rows
