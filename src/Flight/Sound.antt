-- ===== src/Flight/Sound.antt =====
-- singleflight.py: the invariant of the registry, its leaders and its followers.
use cwa_e_book_translate_plu.Prelude.{
  ℕ, zero, suc, ◌≤◌, ◌<◌, ◌≡◌, refl, ◌≢◌, false, String, List, [], ◌∷◌, ◌++◌, Option, none, some,
  length, str_eq, arith, All, ap,
}
use cwa_e_book_translate_plu.Flight.{
  Flight, Entry, find, completed, error_at, read, is_expired, expire_completed, update,
}
use cwa_e_book_translate_plu.Flight.Registry.{
  KeysDiffer, keep-KeysDiffer, length-keep-le, find-keep, find-none-keep, Keeps,
}
use cwa_e_book_translate_plu.Flight.Steps.{System}

-- No two leaders have one key or one flight.
abbrev pub IsOther : Entry → Entry → Type 0
IsOther e x = (str_eq x.0 e.0 ≡ false) × (x.1 ≢ e.1)

abbrev pub Apart : List Entry → Type 0
Apart [] = Unit
Apart (e ∷ es) = All (IsOther e) es × Apart es

module _ {A E : Type 0} where
  -- A leader's flight is active and is the one that the registry has under its key.
  pub record IsLeading (store : List (Flight A E)) (flights : List Entry) (e : Entry) : Type 0 where
    pub registered : find e.0 flights ≡ some e.1
    pub active : completed store e.1 ≡ none
    pub unset : error_at store e.1 ≡ none
    pub stored : e.1 < length store

  pub record IsSound (s : System A E) : Type 0 where
    pub differ : KeysDiffer s.registry.flights
    pub positive : 0 < s.registry.max_entries
    pub bounded : length s.registry.flights ≤ s.registry.max_entries
    pub leading : All (IsLeading s.registry.store s.registry.flights) s.running
    pub apart : Apart s.running
    pub counted : s.registry.followers_waiting ≡ length s.waiting

  pub read-update :
      {B : Type 0} (g : Flight A E → Option B) (f : Flight A E → Flight A E)
      (store : List (Flight A E)) (r q : ℕ)
      → ((x : Flight A E) → g (f x) ≡ g x)
      → read g (update f store r) q ≡ read g store q
  unfolding read update
  read-update g f [] r q h = refl
  read-update g f (x ∷ store) zero zero h = h x
  read-update g f (x ∷ store) zero (suc q) h = refl
  read-update g f (x ∷ store) (suc r) zero h = refl
  read-update g f (x ∷ store) (suc r) (suc q) h = read-update g f store r q h

  pub read-update_ne :
      {B : Type 0} (g : Flight A E → Option B) (f : Flight A E → Flight A E)
      (store : List (Flight A E)) (r q : ℕ)
      → q ≢ r
      → read g (update f store r) q ≡ read g store q
  unfolding read update
  read-update_ne g f [] r q h = refl
  read-update_ne g f (x ∷ store) zero zero h = absurd (h refl)
  read-update_ne g f (x ∷ store) zero (suc q) h = refl
  read-update_ne g f (x ∷ store) (suc r) zero h = refl
  read-update_ne g f (x ∷ store) (suc r) (suc q) h =
      read-update_ne g f store r q (λ e. h (ap suc e))

  pub read-append :
      {B : Type 0} (g : Flight A E → Option B) (store : List (Flight A E)) (x : Flight A E) (q : ℕ)
      → q < length store
      → read g (store ++ x ∷ []) q ≡ read g store q
  unfolding read
  read-append g [] x q h = elim h [ ]
  read-append g (y ∷ store) x zero h = refl
  read-append g (y ∷ store) x (suc q) h = read-append g store x q (omega arith)

  pub read-new :
      {B : Type 0} (g : Flight A E → Option B) (store : List (Flight A E)) (x : Flight A E)
      → read g (store ++ x ∷ []) (length store) ≡ g x
  unfolding read
  read-new g [] x = refl
  read-new g (y ∷ store) x = read-new g store x

  pub length-update :
      (f : Flight A E → Flight A E) (store : List (Flight A E)) (r : ℕ)
      → length (update f store r) ≡ length store
  unfolding update
  length-update f [] r = refl
  length-update f (x ∷ store) zero = refl
  length-update f (x ∷ store) (suc r) = ap suc (length-update f store r)

  pub IsLeading-move :
      (store store' : List (Flight A E)) (es es' : List Entry) (running : List Entry)
      → ((k : String) (r : ℕ) → find k es ≡ some r → completed store r ≡ none → find k es' ≡ some r)
      → ((r : ℕ) → r < length store → completed store r ≡ none → completed store' r ≡ none)
      → ((r : ℕ) → r < length store → error_at store r ≡ none → error_at store' r ≡ none)
      → length store ≤ length store'
      → All (IsLeading store es) running
      → All (IsLeading store' es') running
  IsLeading-move store store' es es' [] keeps same blank grows h = tt
  IsLeading-move store store' es es' (e ∷ running) keeps same blank grows h = (
    record {
      registered = keeps e.0 e.1 h.0.registered h.0.active;
      active = same e.1 h.0.stored h.0.active;
      unset = blank e.1 h.0.stored h.0.unset;
      stored = omega (arith, h.0.stored);
    },
    IsLeading-move store store' es es' running keeps same blank grows h.1,
  )

  pub expire-Keeps :
      (store : List (Flight A E)) (ttl now : ℕ) (es : List Entry)
      → KeysDiffer es
      → Keeps store es (expire_completed store ttl now es)
  unfolding expire_completed is_expired
  expire-Keeps store ttl now es d = record {
    active = λ k r f a. find-keep _ k r es (λ j. ground arith) f;
    absent = λ k n. find-none-keep _ k es n;
    differ = keep-KeysDiffer _ es d;
    fewer = length-keep-le _ es;
  }
