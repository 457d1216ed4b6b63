-- ===== src/Flight/Registry.antt =====
-- singleflight.py: what expiry and eviction do to the registry. Both drop only completed entries.
use cwa_e_book_translate_plu.Prelude.{
  ℕ, zero, suc, ◌≤◌, ◌<◌, ◌≡◌, refl, ◌⊎◌, inl, inr, Bool, true, false, not, String, List, [], ◌∷◌,
  Option, none, some, length, ltb, str_eq, eq_iff, eq_refl, arith, All, Bool-cases, Option-cases,
  some_inj, ap, sym, ◌∙◌, subst,
}
use mathlib.Core.Option
use cwa_e_book_translate_plu.Flight.{
  Flight, Entry, find, keep, delete, completed, lesser, oldest, evict_oldest_completed, make_room,
}

-- No entry has the key.
abbrev pub NoKey : String → List Entry → Type 0
NoKey key = All (λ e. str_eq e.0 key ≡ false)

-- No two entries have one key.
abbrev pub KeysDiffer : List Entry → Type 0
KeysDiffer [] = Unit
KeysDiffer (e ∷ es) = NoKey e.0 es × KeysDiffer es

All-keep : (P : Entry → Type 0) (p : Entry → Bool) (es : List Entry) → All P es → All P (keep p es)
unfolding keep
All-keep P p [] h = tt
All-keep P p (e ∷ es) h = elim (Bool-cases (p e)) [
  | inl y ↦ rw y (h.0, All-keep P p es h.1)
  | inr n ↦ rw n (All-keep P p es h.1)
]

pub keep-KeysDiffer : (p : Entry → Bool) (es : List Entry) → KeysDiffer es → KeysDiffer (keep p es)
unfolding keep
keep-KeysDiffer p [] d = tt
keep-KeysDiffer p (e ∷ es) d = elim (Bool-cases (p e)) [
  | inl y ↦ rw y (All-keep _ p es d.0, keep-KeysDiffer p es d.1)
  | inr n ↦ rw n (keep-KeysDiffer p es d.1)
]

pub length-keep-le : (p : Entry → Bool) (es : List Entry) → length (keep p es) ≤ length es
unfolding keep
length-keep-le p [] = omega arith
length-keep-le p (e ∷ es) = ground (arith, length-keep-le p es)

-- An entry whose reference passes whatever its key is found as before.
pub find-keep :
    (p : Entry → Bool) (key : String) (r : ℕ) (es : List Entry)
    → ((k : String) → p (k, r) ≡ true)
    → find key es ≡ some r
    → find key (keep p es) ≡ some r
unfolding find keep
find-keep p key r [] pass h = cc
find-keep p key r ((k, x) ∷ es) pass h = elim (Bool-cases (str_eq k key)) [
  | inl y ↦ let e : x ≡ r = ground arith in rw e (rw (pass k) (rw y refl))
  | inr n ↦ ground (arith, find-keep p key r es pass)
]

pub find-delete_ne :
    (key k : String) (es : List Entry) → str_eq key k ≡ false → find key (delete k es) ≡ find key es
unfolding find keep
find-delete_ne key k [] h = refl
find-delete_ne key k ((j, x) ∷ es) h =
    ground (arith, find-delete_ne key k es, eq_iff j k, eq_iff j key, eq_iff key k)

length-delete-lt :
    (k : String) (r : ℕ) (es : List Entry) → find k es ≡ some r → length (delete k es) < length es
unfolding find keep
length-delete-lt k r [] h = cc
length-delete-lt k r ((j, x) ∷ es) h =
    ground (arith, length-delete-lt k r es, length-keep-le (λ e. not (str_eq e.0 k)) es)

NoKey-find : (k : String) (es : List Entry) → NoKey k es → find k es ≡ none
unfolding find
NoKey-find k [] h = refl
NoKey-find k ((j, x) ∷ es) h = ground (arith, NoKey-find k es h.1, h.0)

pub find-NoKey : (k : String) (es : List Entry) → find k es ≡ none → NoKey k es
unfolding find
find-NoKey k [] h = tt
find-NoKey k ((j, x) ∷ es) h = elim (Bool-cases (str_eq j k)) [
  | inl y ↦ absurd (ground arith)
  | inr n ↦ (n, find-NoKey k es (ground arith))
]

lesser-cases : (x y : ℕ × String) → (lesser x y ≡ x) ⊎ (lesser x y ≡ y)
unfolding lesser
lesser-cases x y = ground arith

pub find-none-keep :
    (p : Entry → Bool) (k : String) (es : List Entry) → find k es ≡ none → find k (keep p es) ≡ none
find-none-keep p k es n = NoKey-find k (keep p es) (All-keep _ p es (find-NoKey k es n))

module _ {A E : Type 0} (store : List (Flight A E)) where
  -- The key is that of a completed entry.
  abbrev Finds : List Entry → ℕ × String → Type 0
  Finds es o = (r : ℕ) × (find o.1 es ≡ some r) × (completed store r ≡ some o.0)

  Finds-lesser :
      (es : List Entry) (x y : ℕ × String) → Finds es x → Finds es y → Finds es (lesser x y)
  Finds-lesser es x y fx fy = elim (lesser-cases x y) [
    | inl e ↦ subst (Finds es) (sym e) fx
    | inr e ↦ subst (Finds es) (sym e) fy
  ]

  Finds-cons :
      (k : String) (x : ℕ) (es : List Entry) (o : ℕ × String)
      → NoKey k es
      → Finds es o
      → Finds ((k, x) ∷ es) o
  unfolding find
  Finds-cons k x es o n (r, found, done) = elim (Bool-cases (str_eq k o.1)) [
    | inl y ↦
        let same : k ≡ o.1 = (eq_iff k o.1).0 y in
        absurd (ground (arith, NoKey-find k es n, ap (λ q. find q es) same))
    | inr y ↦ (r, rw y found, done)
  ]

  pub oldest-Finds :
      (es : List Entry) (o : ℕ × String) → KeysDiffer es → oldest store es ≡ some o → Finds es o
  unfolding oldest find
  oldest-Finds [] o d h = cc
  oldest-Finds ((k, x) ∷ es) o d h = elim (Option-cases (completed store x)) [
    | inl active ↦ Finds-cons k x es o d.0 (oldest-Finds es o d.1 (ground arith))
    | inr (c, done) ↦
        let here : Finds ((k, x) ∷ es) (c, k) = (x, rw (eq_refl k) refl, done) in
        elim (Option-cases (oldest store es)) [
          | inl nothing ↦ subst (Finds ((k, x) ∷ es)) (some_inj (ground arith)) here
          | inr (m, found) ↦ subst (Finds ((k, x) ∷ es)) (some_inj (ground arith)) (
              Finds-lesser ((k, x) ∷ es) (c, k) m here
                (Finds-cons k x es m d.0 (oldest-Finds es m d.1 found)))
        ]
  ]

  -- What an eviction keeps: an active entry is found as before, the keys still differ, and there is
  -- one entry less at least.
  evict-keeps :
      (es rest : List Entry)
      → KeysDiffer es
      → evict_oldest_completed store es ≡ some rest
      → ((k : String) (r : ℕ)
          → find k es ≡ some r
          → completed store r ≡ none
          → find k rest ≡ some r)
        × KeysDiffer rest
        × (length rest < length es)
  unfolding evict_oldest_completed
  evict-keeps es rest d h = go (oldest store es) refl h
    where
      go :
          (o : Option (ℕ × String))
          → oldest store es ≡ o
          → Option.map (λ x. delete x.1 es) o ≡ some rest
          → ((k : String) (r : ℕ)
              → find k es ≡ some r
              → completed store r ≡ none
              → find k rest ≡ some r)
            × KeysDiffer rest
            × (length rest < length es)
      go none e g = cc
      go (some o) e g =
          let (r', found, done) = oldest-Finds es o d e in
          let same : delete o.1 es ≡ rest = some_inj g in
          (
            λ k r f active. elim (Bool-cases (str_eq k o.1)) [
              | inl y ↦
                  let q : k ≡ o.1 = (eq_iff k o.1).0 y in
                  absurd (
                    ground (
                      arith,
                      ap (λ z. find z es) q,
                      ap (completed store) (some_inj (sym f ∙ ap (λ z. find z es) q ∙ found)),
                    ))
              | inr n ↦ subst (λ z. find k z ≡ some r) same (find-delete_ne k o.1 es n ∙ f)
            ],
            subst KeysDiffer same (keep-KeysDiffer _ es d),
            subst (λ z. length z < length es) same (length-delete-lt o.1 r' es found),
          )

  -- What is left of the entries `es`: what is active is found as before, and the keys differ.
  pub record Keeps (es rest : List Entry) : Type 0 where
    pub active :
        (k : String) (r : ℕ) → find k es ≡ some r → completed store r ≡ none → find k rest ≡ some r
    pub absent : (k : String) → find k es ≡ none → find k rest ≡ none
    pub differ : KeysDiffer rest
    pub fewer : length rest ≤ length es

  pub Keeps-refl : (es : List Entry) → KeysDiffer es → Keeps es es
  Keeps-refl es d = record {
    active = λ k r f a. f;
    absent = λ k n. n;
    differ = d;
    fewer = omega arith;
  }

  evict-absent :
      (es rest : List Entry) (k : String)
      → evict_oldest_completed store es ≡ some rest
      → find k es ≡ none
      → find k rest ≡ none
  unfolding evict_oldest_completed
  evict-absent es rest k e n = elim (Option-cases (oldest store es)) [
    | inl o ↦ absurd (ground arith)
    | inr (o, q) ↦
        let same : delete o.1 es ≡ rest = ground arith in
        subst (λ z. find k z ≡ none) same (find-none-keep _ k es n)
  ]

  Keeps-evict :
      (es mid rest : List Entry)
      → Keeps es mid
      → evict_oldest_completed store mid ≡ some rest
      → Keeps es rest
  Keeps-evict es mid rest kept e =
      let (active, differ, fewer) = evict-keeps mid rest kept.differ e in
      record {
        active = λ k r f a. active k r (kept.active k r f a) a;
        absent = λ k n. evict-absent mid rest k e (kept.absent k n);
        differ = differ;
        fewer = omega (arith, kept.fewer, fewer);
      }

  pub make_room-Keeps :
      (rounds max_entries : ℕ) (es mid : List Entry)
      → Keeps es mid
      → Keeps es (make_room rounds max_entries store mid).0
  unfolding make_room
  make_room-Keeps zero max_entries es mid kept = kept
  make_room-Keeps (suc rounds) max_entries es mid kept =
      elim (Bool-cases (ltb (length mid) max_entries)) [
        | inl room ↦ rw room kept
        | inr full ↦ rw full (elim (Option-cases (evict_oldest_completed store mid)) [
          | inl e ↦ rw e kept
          | inr (rest, e) ↦
              rw e (make_room-Keeps rounds max_entries es rest (Keeps-evict es mid rest kept e))
        ])
      ]

  evict-none : (es : List Entry) → evict_oldest_completed store es ≡ none → oldest store es ≡ none
  unfolding evict_oldest_completed
  evict-none es e = elim (Option-cases (oldest store es)) [
    | inl o ↦ o
    | inr (o, q) ↦ absurd (ground arith)
  ]

  -- As many rounds as there are entries are enough: either there is room, or no completed entry is
  -- left and the registry is full.
  pub make_room-decides :
      (rounds max_entries : ℕ) (es : List Entry)
      → KeysDiffer es
      → length es ≤ rounds
      → 0 < max_entries
      → let (rest, room) = make_room rounds max_entries store es in
        ((room ≡ true) × (length rest < max_entries))
        ⊎ ((room ≡ false) × (max_entries ≤ length rest) × (oldest store rest ≡ none))
  unfolding make_room
  make_room-decides zero max_entries [] d h p = inl (ground arith, p)
  make_room-decides zero max_entries (e ∷ es) d h p = absurd (omega arith)
  make_room-decides (suc rounds) max_entries es d h p =
      elim (Bool-cases (ltb (length es) max_entries)) [
        | inl room ↦ rw room (inl (refl, ground arith))
        | inr full ↦ rw full (elim (Option-cases (evict_oldest_completed store es)) [
          | inl e ↦ rw e (inr (refl, ground arith, evict-none es e))
          | inr (rest, e) ↦
              let (active, differ, fewer) = evict-keeps es rest d e in
              rw e (make_room-decides rounds max_entries rest differ (omega arith) p)
        ])
      ]
