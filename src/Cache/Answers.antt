-- ===== src/Cache/Answers.antt =====
-- cache.py: a lookup answers with what was stored for the same text, languages and scope.
use Prim.Native.Nat.{◌≤◌}
use cwa_e_book_translate_plu.Prelude.{
  subst, sym, ◌∙◌, ℕ, ◌+◌, ◌≡◌, refl, arith, Bool, Option-cases, Result-cases, ◌⊎◌, inl, inr, ok,
  err, List, [], ◌∷◌, some, Text, All,
}
use cwa_e_book_translate_plu.Cache.{Row, Query, Hashing, payload, compute_key, select, is_older}
use cwa_e_book_translate_plu.Cache.Store.{
  record_hit, flush_hits, cleanup, stats, Config, CacheStore, empty, Fault, commits, insert_fails,
  commit_fails, write_rows, queue_hit, found, get, Entry, new_row, make_row, make_rows, put_many,
  Event, gets, hits, puts, flushes, cleans, counts, step, run,
}
use cwa_e_book_translate_plu.Cache.Provenance.{
  Trait, Has, select-Has, get-Has, record_hit-Has, write_rows-Has, flush_hits-Has, cleanup-Has,
  stats-Has,
}

-- One of the entries has a query with the property, and this translation.
abbrev pub Offers : (Query → Type 0) → List Entry → Text → Type 0
Offers M [] t = ⊥
Offers M (e ∷ es) t = (M e.0 × (e.1 ≡ t)) ⊎ Offers M es t

-- The write takes all its entries, and its transaction commits.
abbrev pub Takes : Hashing → List Entry → ℕ → Fault → Type 0
Takes h es now f = (f ≡ commits) × (rows : List Row) × (make_rows h now es ≡ ok rows)

-- One of the calls stores, at the time `at`, an entry with the property, and this translation: the
-- call takes its entries and commits.
abbrev pub Stored : Hashing → (Query → Type 0) → List Event → Text → ℕ → Type 0
Stored h M [] t at = ⊥
Stored h M (puts es now f ∷ more) t at =
    ((now ≡ at) × Takes h es now f × Offers M es t) ⊎ Stored h M more t at
Stored h M (_ ∷ more) t at = Stored h M more t at

Offers-map :
    (M N : Query → Type 0)
    → ((q : Query) → M q → N q)
    → (es : List Entry) (t : Text) → Offers M es t
    → Offers N es t
Offers-map M N h [] t o = o
Offers-map M N h (e ∷ es) t (inl (m, s)) = inl (h e.0 m, s)
Offers-map M N h (e ∷ es) t (inr o) = inr (Offers-map M N h es t o)

Stored-map :
    (c : Hashing) (M N : Query → Type 0)
    → ((q : Query) → M q → N q)
    → (es : List Event) (t : Text) (at : ℕ) → Stored c M es t at
    → Stored c N es t at
Stored-map c M N h [] t at o = o
Stored-map c M N h (puts es now f ∷ more) t at (inl (s, k, o)) = inl (s, k, Offers-map M N h es t o)
Stored-map c M N h (puts es now f ∷ more) t at (inr o) = inr (Stored-map c M N h more t at o)
Stored-map c M N h (gets q b now f ∷ more) t at o = Stored-map c M N h more t at o
Stored-map c M N h (hits q now f ∷ more) t at o = Stored-map c M N h more t at o
Stored-map c M N h (flushes now f ∷ more) t at o = Stored-map c M N h more t at o
Stored-map c M N h (cleans d now g f ∷ more) t at o = Stored-map c M N h more t at o
Stored-map c M N h (counts now g f ∷ more) t at o = Stored-map c M N h more t at o

-- The query has this key.
abbrev pub HasKey : Hashing → Text → Query → Type 0
HasKey h key q = h.digest (payload q) ≡ key

-- the trait of the rows that some calls have stored, or that were there before
abbrev FromCalls : Hashing → List Event → Trait → Trait
FromCalls h es P key t at = P key t at ⊎ Stored h (HasKey h key) es t at

-- the trait of the rows that the entries make
abbrev Made : Hashing → ℕ → List Entry → Trait
Made h now es key t at = (now ≡ at) × Offers (HasKey h key) es t

-- the trait of the rows of one write
abbrev Fresh : Hashing → ℕ → Fault → List Entry → Trait
Fresh h now f es key t at = (now ≡ at) × Takes h es now f × Offers (HasKey h key) es t

make_row-fresh :
    (h : Hashing) (now : ℕ) (e : Entry) (r : Row)
    → make_row h now e ≡ ok r
    → (now ≡ r.created_at) × HasKey h r.cache_key e.0 × (e.1 ≡ r.translated_text)
unfolding make_row new_row compute_key
make_row-fresh h now e r p = ground arith

module _ (P : Trait) where
  All-map :
      (Q : Trait)
      → ((k t : Text) (at : ℕ) → P k t at → Q k t at)
      → (rows : List Row) → All (Has P) rows
      → All (Has Q) rows
  All-map Q h [] a = tt
  All-map Q h (r ∷ rows) a = (h _ _ _ a.0, All-map Q h rows a.1)

make_rows-Made :
    (h : Hashing) (now : ℕ) (es : List Entry) (rows : List Row)
    → make_rows h now es ≡ ok rows
    → All (Has (Made h now es)) rows
unfolding make_rows
make_rows-Made h now [] [] p = tt
make_rows-Made h now [] (r ∷ rows) p = ground arith
make_rows-Made h now (e ∷ es) rows p = elim (Result-cases (make_row h now e)) [
  | inl (x, q) ↦ ground arith
  | inr (r, q) ↦ elim (Result-cases (make_rows h now es)) [
    | inl (x, z) ↦ ground arith
    | inr (rs, z) ↦
        let (at, key, text) = make_row-fresh h now e r q in
        let rest = make_rows-Made h now es rs z in
        let same : r ∷ rs ≡ rows = ground arith in
        subst (All (Has (Made h now (e ∷ es)))) same (
          (at, inl (key, text)),
          All-map (Made h now es) (Made h now (e ∷ es)) (λ k t a f. (f.0, inr f.1)) rs rest,
        )
  ]
]

-- the rows that have the trait, and those of one write
abbrev OrFresh : Trait → Hashing → ℕ → Fault → List Entry → Trait
OrFresh P h now f es k t at = P k t at ⊎ Fresh h now f es k t at

write_rows-OrFresh :
    (P : Trait) (c : Config) (s : CacheStore) (es : List Entry) (rows : List Row) (now : ℕ)
    (f : Fault)
    → make_rows c.hashing now es ≡ ok rows
    → All (Has P) s.rows
    → All (Has (OrFresh P c.hashing now f es)) (write_rows c s rows now f).0.rows
unfolding write_rows
write_rows-OrFresh P c s es rows now insert_fails q a =
    All-map P (OrFresh P c.hashing now insert_fails es) (λ k t at p. inl p) s.rows a
write_rows-OrFresh P c s es rows now commit_fails q a =
    All-map P (OrFresh P c.hashing now commit_fails es) (λ k t at p. inl p) s.rows a
write_rows-OrFresh P c s es rows now commits q a =
    let Q : Trait = OrFresh P c.hashing now commits es in
    let new =
      All-map (Made c.hashing now es) Q (λ k t at p. inr (p.0, (refl, rows, q), p.1)) rows
        (make_rows-Made c.hashing now es rows q) in
    write_rows-Has Q c s rows now commits new (All-map P Q (λ k t at p. inl p) s.rows a)

put_many-Has :
    (P : Trait) (c : Config) (s : CacheStore) (es : List Entry) (now : ℕ) (f : Fault)
    → All (Has P) s.rows
    → All (Has (OrFresh P c.hashing now f es)) (put_many c s es now f).0.rows
unfolding put_many
put_many-Has P c s [] now f a =
    All-map P (OrFresh P c.hashing now f []) (λ k t at p. inl p) s.rows a
put_many-Has P c s (e ∷ es) now f a =
    let Q : Trait = OrFresh P c.hashing now f (e ∷ es) in
    elim (Result-cases (make_rows c.hashing now (e ∷ es))) [
      | inl (x, q) ↦
          let same : put_many c s (e ∷ es) now f ≡ (s, err x) = rw (q, put_many) refl in
          subst (λ r. All (Has Q) r.0.rows) (sym same) (All-map P Q (λ k t at p. inl p) s.rows a)
      | inr (rows, q) ↦
          let same : put_many c s (e ∷ es) now f ≡ write_rows c s rows now f =
            rw (q, put_many) refl in
          subst (λ r. All (Has Q) r.0.rows) (sym same)
            (write_rows-OrFresh P c s (e ∷ es) rows now f q a)
    ]

module _ {X Y Z : Type 0} where
  shuffle : (X ⊎ Y) ⊎ Z → X ⊎ (Y ⊎ Z)
  shuffle (inl (inl x)) = inl x
  shuffle (inl (inr y)) = inr (inl y)
  shuffle (inr z) = inr (inr z)

run-FromCalls :
    (c : Config) (es : List Event) (P : Trait) (s : CacheStore)
    → All (Has P) s.rows
    → All (Has (FromCalls c.hashing es P)) (run c s es).rows
unfolding run step
run-FromCalls c [] P s a = All-map P _ (λ k t at p. inl p) s.rows a
run-FromCalls c (gets q b now f ∷ es) P s a =
    run-FromCalls c es P (get c s q b now f).0 (get-Has P c s q b now f a)
run-FromCalls c (hits q now f ∷ es) P s a =
    run-FromCalls c es P (record_hit c s q now f).0 (record_hit-Has P c s q now f a)
run-FromCalls c (puts xs now f ∷ es) P s a =
    let Q = OrFresh P c.hashing now f xs in
    let t = (put_many c s xs now f).0 in
    let rest = run-FromCalls c es Q t (put_many-Has P c s xs now f a) in
    All-map (FromCalls c.hashing es Q) (FromCalls c.hashing (puts xs now f ∷ es) P)
      (λ k t at p. shuffle p) (run c t es).rows rest
run-FromCalls c (flushes now f ∷ es) P s a =
    run-FromCalls c es P (flush_hits s now f).0 (flush_hits-Has P s now f a)
run-FromCalls c (cleans d now g f ∷ es) P s a =
    run-FromCalls c es P (cleanup c s d now g f).0 (cleanup-Has P c s d now g f a)
run-FromCalls c (counts now g f ∷ es) P s a =
    run-FromCalls c es P (stats c s now g f).0 (stats-Has P c s now g f a)

-- What a lookup that answers has found.
pub get-found :
    (c : Config) (s : CacheStore) (q : Query) (b : Bool) (now : ℕ) (f : Fault) (t : Text)
    → (get c s q b now f).1 ≡ ok (some t)
    → (r : Row) × (select (c.hashing.digest (payload q)) s.rows ≡ some r)
      × (r.translated_text ≡ t)
      × (now ≤ r.created_at + c.ttl)
unfolding get found compute_key is_older
get-found c s q b now f t e = elim (Option-cases (select (c.hashing.digest (payload q)) s.rows)) [
  | inl o ↦ ground arith
  | inr (r, o) ↦ elim (Result-cases (queue_hit c s (c.hashing.digest (payload q)) now f).1) [
    | inl (x, z) ↦ (r, o, ground arith, ground arith)
    | inr (n, z) ↦ (r, o, ground arith, ground arith)
  ]
]

-- If no two lists of texts have the same digest, then after any calls, failed transactions and
-- evictions included, a lookup answers only with a translation of one of the writes, for the same text,
-- languages, tenant, book, chapter, provider, model, prompt, protocol and context, no longer than the
-- time to live before; and that write accepted all its entries, and its transaction committed.
pub get-Stored :
    (c : Config) (events : List Event) (q : Query) (b : Bool) (now : ℕ) (f : Fault) (t : Text)
    → ((u v : List Text) → c.hashing.digest u ≡ c.hashing.digest v → u ≡ v)
    → (get c (run c empty events) q b now f).1 ≡ ok (some t)
    → (at : ℕ) × (now ≤ at + c.ttl) × Stored c.hashing (λ p. payload p ≡ payload q) events t at
get-Stored c events q b now f t inj e =
    let s = run c empty events in
    let key = c.hashing.digest (payload q) in
    let (r, o, same, live) = get-found c s q b now f t e in
    let none_before : Trait = λ k u a. ⊥ in
    let (found_key, from) =
      select-Has (FromCalls c.hashing events none_before) key s.rows r
        (run-FromCalls c events none_before empty tt) o in
    elim from [
      | inl impossible ↦ absurd impossible
      | inr stored ↦ (
        r.created_at,
        live,
        subst (λ u. Stored c.hashing (λ p. payload p ≡ payload q) events u r.created_at) same
            (Stored-map c.hashing (HasKey c.hashing r.cache_key) (λ p. payload p ≡ payload q)
              (λ p h. inj (payload p) (payload q) (h ∙ found_key)) events r.translated_text
              r.created_at stored),
      )
    ]
