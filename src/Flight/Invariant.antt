-- ===== src/Flight/Invariant.antt =====
-- singleflight.py: every event keeps the registry, its leaders and its followers sound.
use cwa_e_book_translate_plu.Prelude.{
  ℕ, zero, suc, ◌+◌, ◌-◌, ◌≡◌, refl, ◌≢◌, inl, inr, Bool, true, String, Result, ok, List, [], ◌∷◌,
  some, length, get_elem?, str_eq, eq_iff, if◌then◌else◌, arith, All, Bool-cases, Option-cases,
  some_inj, ap, sym, ◌∙◌, subst, Value,
}
use cwa_e_book_translate_plu.Flight.{
  Flight, SingleFlight, Entry, find, delete, completed, update, init, finish, stop_waiting,
  invalidate, stats,
}
use cwa_e_book_translate_plu.Flight.Registry.{
  KeysDiffer, keep-KeysDiffer, length-keep-le, find-delete_ne, find-none-keep, Keeps,
}
use cwa_e_book_translate_plu.Flight.Steps.{
  System, Event, enters, finishes, stops, invalidates, reads, remove_at, step, run, start,
}
use cwa_e_book_translate_plu.Flight.Enter.{enter-IsSound, retained}
use cwa_e_book_translate_plu.Flight.Sound.{
  IsOther, Apart, IsLeading, IsSound, read-update, read-update_ne, length-update, IsLeading-move,
  expire-Keeps,
}

All-remove_at : (P : Entry → Type 0) (i : ℕ) (es : List Entry) → All P es → All P (remove_at i es)
All-remove_at P i [] h = tt
All-remove_at P zero (e ∷ es) h = h.1
All-remove_at P (suc i) (e ∷ es) h = (h.0, All-remove_at P i es h.1)

pub All-get :
    (P : Entry → Type 0) (i : ℕ) (es : List Entry) (e : Entry)
    → All P es
    → get_elem? es i ≡ some e
    → P e
All-get P i [] e h q = cc
All-get P zero (x ∷ es) e h q = subst P (some_inj q) h.0
All-get P (suc i) (x ∷ es) e h q = All-get P i es e h.1 q

-- The leaders that stay have other flights than the one that leaves.
Apart-remove_at :
    (i : ℕ) (es : List Entry) (e : Entry)
    → Apart es
    → get_elem? es i ≡ some e
    → Apart (remove_at i es) × All (λ x. x.1 ≢ e.1) (remove_at i es)
Apart-remove_at i [] e a q = cc
Apart-remove_at zero (x ∷ es) e a q = (a.1, others x e es a.0 (some_inj q))
  where
    others : (x e : Entry) (es : List Entry) → All (IsOther x) es → x ≡ e → All (λ y. y.1 ≢ e.1) es
    others x e [] h same = tt
    others x e (y ∷ es) h same =
        ((λ z. h.0.1 (z ∙ ap (λ t. t.1) (sym same))), others x e es h.1 same)
Apart-remove_at (suc i) (x ∷ es) e a q =
    let (rest, differ) = Apart-remove_at i es e a.1 q in
    ((All-remove_at _ i es a.0, rest), (λ z. (All-get (IsOther x) i es e a.0 q).1 (sym z), differ))

length-remove_at :
    (i r : ℕ) (xs : List ℕ) → get_elem? xs i ≡ some r → length (remove_at i xs) + 1 ≡ length xs
length-remove_at i r [] h = cc
length-remove_at zero r (x ∷ xs) h = omega arith
length-remove_at (suc i) r (x ∷ xs) h = omega (arith, length-remove_at i r xs h)

module _ {A E : Type 0} where
  -- A write to one flight that leaves the others' leaders as they are.
  IsLeading-update :
      (f : Flight A E → Flight A E) (store : List (Flight A E)) (es : List Entry) (r : ℕ)
      (running : List Entry)
      → All (λ x. x.1 ≢ r) running
      → All (IsLeading store es) running
      → All (IsLeading (update f store r) es) running
  IsLeading-update f store es r [] n h = tt
  IsLeading-update f store es r (e ∷ running) n h = (
    record {
      registered = h.0.registered;
      active = read-update_ne _ f store r e.1 n.0 ∙ h.0.active;
      unset = read-update_ne _ f store r e.1 n.0 ∙ h.0.unset;
      stored = omega (arith, h.0.stored, length-update f store r);
    },
    IsLeading-update f store es r running n.1 h.1,
  )

  finish-IsSound :
      (s : System A E) (i : ℕ) (e : Entry) (outcome : Result E A) (now : ℕ)
      → IsSound s
      → get_elem? s.running i ≡ some e
      → IsSound (record s {
        registry = finish s.registry e.1 outcome now;
        running = remove_at i s.running;
      })
  unfolding finish
  finish-IsSound s i e outcome now h q =
      let (apart, others) = Apart-remove_at i s.running e h.apart q in
      record {
        differ = h.differ;
        positive = h.positive;
        bounded = h.bounded;
        leading =
            IsLeading-update _ s.registry.store s.registry.flights e.1 (remove_at i s.running)
              others (All-remove_at _ i s.running h.leading);
        apart = apart;
        counted = h.counted;
      }

  stop_waiting-IsSound :
      (s : System A E) (i r : ℕ) (done : Bool)
      → IsSound s
      → get_elem? s.waiting i ≡ some r
      → IsSound (record s {
        registry = stop_waiting s.registry r true done;
        waiting = remove_at i s.waiting;
      })
  unfolding stop_waiting
  stop_waiting-IsSound s i r done h q = record {
    differ = h.differ;
    positive = h.positive;
    bounded = h.bounded;
    leading =
        IsLeading-move s.registry.store _ s.registry.flights s.registry.flights s.running
          (λ k x f a. f) (λ x l a. read-update _ _ s.registry.store r x (λ y. refl) ∙ a)
          (λ x l a. read-update _ _ s.registry.store r x (λ y. refl) ∙ a)
          (omega
            (arith, length-update (λ f. record f { waiters = f.waiters - 1 }) s.registry.store r))
          h.leading;
    apart = h.apart;
    counted = omega (arith, h.counted, length-remove_at i r s.waiting q);
  }

  invalidate-Keeps :
      (g : SingleFlight A E) (key : String) (r c : ℕ)
      → KeysDiffer g.flights
      → find key g.flights ≡ some r
      → completed g.store r ≡ some c
      → Keeps g.store g.flights (delete key g.flights)
  invalidate-Keeps g key r c d f q = record {
    active = λ k x found active. elim (Bool-cases (str_eq k key)) [
      | inl y ↦
          let same : k ≡ key = (eq_iff k key).0 y in
          let hit : r ≡ x = some_inj (sym f ∙ ap (λ z. find z g.flights) (sym same) ∙ found) in
          absurd (ground (arith, ap (completed g.store) hit, q, active))
      | inr n ↦ find-delete_ne k key g.flights n ∙ found
    ];
    absent = λ k n. find-none-keep _ k g.flights n;
    differ = keep-KeysDiffer _ g.flights d;
    fewer = length-keep-le _ g.flights;
  }

  pub invalidate_rule :
      (P : SingleFlight A E → Type 0) (g : SingleFlight A E) (key : String)
      → P g
      → ((r c : ℕ)
          → find key g.flights ≡ some r
          → completed g.store r ≡ some c
          → P (record g { flights = delete key g.flights }))
      → P (invalidate g key)
  unfolding invalidate
  invalidate_rule P g key kept gone = elim (Option-cases (find key g.flights)) [
    | inl f ↦ rw (f, invalidate) kept
    | inr (r, f) ↦ elim (Option-cases (completed g.store r)) [
      | inl a ↦ rw (f, invalidate) (rw (a, if◌then◌else◌) kept)
      | inr (c, a) ↦ rw (f, invalidate) (rw (a, if◌then◌else◌) (gone r c f a))
    ]
  ]

  pub step-IsSound : (s : System A E) (e : Event A E) → IsSound s → IsSound (step s e)
  unfolding step stats
  step-IsSound s (enters key timeout now) h = enter-IsSound s key timeout now h
  step-IsSound s (finishes i outcome now) h = elim (Option-cases (get_elem? s.running i)) [
    | inl q ↦ rw (q, step) h
    | inr (e, q) ↦ rw (q, step) (finish-IsSound s i e outcome now h q)
  ]
  step-IsSound s (stops i done) h = elim (Option-cases (get_elem? s.waiting i)) [
    | inl q ↦ rw (q, step) h
    | inr (r, q) ↦ rw (q, step) (stop_waiting-IsSound s i r done h q)
  ]
  step-IsSound s (invalidates key) h =
      invalidate_rule (λ g. IsSound (record s { registry = g })) s.registry key h
        (λ r c f q.
          retained s _ s.registry.shared_results s.registry.capacity_rejections h
            (invalidate-Keeps s.registry key r c h.differ f q))
  step-IsSound s (reads now) h =
      retained s _ s.registry.shared_results s.registry.capacity_rejections h
        (expire-Keeps s.registry.store s.registry.result_ttl now s.registry.flights h.differ)

  pub run-IsSound : (s : System A E) (es : List (Event A E)) → IsSound s → IsSound (run s es)
  unfolding run
  run-IsSound s [] h = h
  run-IsSound s (e ∷ es) h = run-IsSound (step s e) es (step-IsSound s e h)

  init-IsSound :
      (entries ttl : Value) (g : SingleFlight A E) → init entries ttl ≡ ok g → IsSound (start g)
  unfolding init
  init-IsSound entries ttl g e = ground arith

  -- Whatever the threads do, and in whatever order: no two operations run for one key, the registry
  -- has no key twice and never more than `max_entries` entries, every running operation has the
  -- active flight that the registry keeps under its key, and `followers_waiting` is the number of
  -- followers that wait.
  pub init-run-IsSound :
      (entries ttl : Value) (g : SingleFlight A E) (es : List (Event A E))
      → init entries ttl ≡ ok g
      → IsSound (run (start g) es)
  init-run-IsSound entries ttl g es e = run-IsSound (start g) es (init-IsSound entries ttl g e)
