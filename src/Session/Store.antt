-- ===== src/Session/Store.antt =====
-- reader_session.py: lookups in the ordered dictionary of sessions after each change to it.
use Prim.Native.Nat.{◌≤◌, ◌<◌}
use mathlib.Core.Path.{◌≡◌, refl}
use cwa_e_book_translate_plu.Prelude.{
  ℕ, suc, arith, false, Bool-cases, [], ◌∷◌, ◌++◌, none, some, Text, text_eq, text_eq_refl, length,
  length-append, inl, inr,
}
use cwa_e_book_translate_plu.Session.Broker.{
  SessionRecord, Sessions, find, remove, put_last, alive, evict,
}

pub find-remove : (d : Text) (xs : Sessions) → find d (remove d xs) ≡ none
unfolding find remove
find-remove d [] = refl
find-remove d ((e, r) ∷ xs) = ground (arith, find-remove d xs)

pub find-remove-other :
    (d c : Text) (xs : Sessions) → find d xs ≡ none → find d (remove c xs) ≡ none
unfolding find remove
find-remove-other d c [] h = refl
find-remove-other d c ((e, r) ∷ xs) h = elim (Bool-cases (text_eq e d)) [
  | inl p ↦ ground arith
  | inr p ↦ ground (arith, find-remove-other d c xs)
]

pub find-alive :
    (d : Text) (now : ℕ) (xs : Sessions) → find d xs ≡ none → find d (alive now xs) ≡ none
unfolding find alive
find-alive d now [] h = refl
find-alive d now ((e, r) ∷ xs) h = ground (arith, find-alive d now xs)

pub find-evict :
    (d : Text) (limit : ℕ) (xs : Sessions) → find d xs ≡ none → find d (evict limit xs) ≡ none
unfolding find evict
find-evict d limit [] h = refl
find-evict d limit ((e, r) ∷ xs) h = ground (arith, find-evict d limit xs)

pub find-append-last :
    (d : Text) (r : SessionRecord) (xs : Sessions)
    → find d xs ≡ none
    → find d (xs ++ (d, r) ∷ []) ≡ some r
unfolding find
find-append-last d r [] h = ground (arith, text_eq_refl d)
find-append-last d r ((e, q) ∷ xs) h = ground (arith, find-append-last d r xs)

pub find-append-other :
    (d c : Text) (r : SessionRecord) (xs : Sessions)
    → text_eq c d ≡ false
    → find d xs ≡ none
    → find d (xs ++ (c, r) ∷ []) ≡ none
unfolding find
find-append-other d c r [] n h = rw n refl
find-append-other d c r ((e, q) ∷ xs) n h = ground (arith, find-append-other d c r xs n)

pub alive-append-last :
    (now : ℕ) (d : Text) (r : SessionRecord) (xs : Sessions)
    → now < r.expires_at
    → alive now (xs ++ (d, r) ∷ []) ≡ alive now xs ++ (d, r) ∷ []
unfolding alive
alive-append-last now d r [] h = ground arith
alive-append-last now d r ((e, q) ∷ xs) h = ground (arith, alive-append-last now d r xs h)

-- What is evicted is older than the newest session.
pub find-evict-last :
    (limit : ℕ) (d : Text) (r : SessionRecord) (xs : Sessions)
    → 1 ≤ limit
    → find d xs ≡ none
    → find d (evict limit (xs ++ (d, r) ∷ [])) ≡ some r
unfolding find evict
find-evict-last limit d r [] l h = ground (arith, text_eq_refl d)
find-evict-last limit d r ((e, q) ∷ xs) l h =
    ground (arith, find-evict-last limit d r xs l, find-append-last d r xs)

pub length-evict : (limit : ℕ) (xs : Sessions) → length (evict limit xs) ≤ limit
unfolding evict
length-evict limit [] = omega arith
length-evict limit (x ∷ xs) = ground (arith, length-evict limit xs)

pub length-remove : (d : Text) (xs : Sessions) → length (remove d xs) ≤ length xs
unfolding remove
length-remove d [] = omega arith
length-remove d ((e, r) ∷ xs) = ground (arith, length-remove d xs)

pub length-remove-found :
    (d : Text) (xs : Sessions) (r : SessionRecord)
    → find d xs ≡ some r
    → suc (length (remove d xs)) ≤ length xs
unfolding find remove
length-remove-found d [] r h = ground arith
length-remove-found d ((e, q) ∷ xs) r h =
    ground (arith, length-remove-found d xs r, length-remove d xs)

pub length-put_last :
    (d : Text) (r q : SessionRecord) (xs : Sessions)
    → find d xs ≡ some q
    → length (put_last d r xs) ≤ length xs
unfolding put_last
length-put_last d r q xs h =
    omega (arith, length-append (remove d xs) ((d, r) ∷ []), length-remove-found d xs q h)
