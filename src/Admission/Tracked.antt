-- ===== src/Admission/Tracked.antt =====
-- server.py: the buckets hold the admitted calls of the window.
use Prim.Native.Nat.{◌≤◌, ◌<◌}
use cwa_e_book_translate_plu.Prelude.{
  subst, sym, ap, ◌∙◌, ℕ, ◌≡◌, refl, arith, ◌⊎◌, inl, inr, Bool, true, false, Bool-cases, not, ◌&&◌,
  List, [], ◌∷◌, ◌++◌, Text, text_eq, text_eq_refl, length, length-append, leb, if◌then◌else◌,
}
use cwa_e_book_translate_plu.Dict.{
  has_key, get_or, assign, keep_values, UniqueKeys, same_key, keep_values-UniqueKeys,
  assign-UniqueKeys, get_or-assign_same, get_or-assign_other, length-keep_values,
  length-assign_known, length-assign_le, get_or-keep_values,
}
use cwa_e_book_translate_plu.Admission.{
  Limits, Store, active, is_active, reclaim, admit, is_filled, map_values, cleanup_rate_limits,
  Progress,
}
use cwa_e_book_translate_plu.Admission.Active.{
  times_of, times_of-append, active-append, active-active, length-active, active-is_active,
  empty_of, get_or-map_values, map_values-UniqueKeys, length-map_values,
}  -- At the time `now`, the store knows the calls of the window, and none has more than the limit.

pub record IsTracked (c : Limits) (now : ℕ) (p : Progress) : Type 0 where
  pub unique : UniqueKeys p.store
  pub room : length p.store ≤ c.max_clients
  pub tracked :
      (ip : Text)
      → active c.window now (get_or [] ip p.store) ≡ active c.window now (times_of ip p.admitted)
  pub within : (ip : Text) → length (active c.window now (times_of ip p.admitted)) ≤ c.limit

pub later-IsTracked :
    (c : Limits) (now later : ℕ) (p : Progress)
    → now ≤ later
    → IsTracked c now p
    → IsTracked c later p
later-IsTracked c now later p h t = record {
  unique = t.unique;
  room = t.room;
  tracked = λ ip.
      sym (active-active c.window now later (get_or [] ip p.store) h)
      ∙ ap (active c.window later) (t.tracked ip)
      ∙ active-active c.window now later (times_of ip p.admitted) h;
  within =
      λ ip. omega (arith, length-active c.window now later (times_of ip p.admitted) h, t.within ip);
}

-- Dropping buckets in which nothing is active loses no call of the window.
pub keep_active-IsTracked :
    (c : Limits) (now : ℕ) (p : Progress) (test : List ℕ → Bool) (store : Store)
    → ((xs : List ℕ) → test xs ≡ false → active c.window now xs ≡ [])
    → UniqueKeys store
    → length store ≤ c.max_clients
    → ((ip : Text)
        → active c.window now (get_or [] ip store) ≡ active c.window now (times_of ip p.admitted))
    → ((ip : Text) → length (active c.window now (times_of ip p.admitted)) ≤ c.limit)
    → IsTracked c now (record p { store = keep_values test store })
unfolding active
keep_active-IsTracked c now p test store h u r t w = record {
  unique = keep_values-UniqueKeys test store u;
  room = omega (arith, length-keep_values test store, r);
  tracked = λ ip. elim (get_or-keep_values test [] ip store u) [
    | inl e ↦ ap (active c.window now) e ∙ t ip
    | inr (f, e) ↦ ap (active c.window now) e ∙ sym (h (get_or [] ip store) f) ∙ t ip
  ];
  within = w;
}

pub reclaim-IsTracked :
    (c : Limits) (now : ℕ) (p : Progress) (ip : Text)
    → IsTracked c now p
    → IsTracked c now (record p { store = reclaim c p.store ip now })
unfolding reclaim
reclaim-IsTracked c now p ip t =
    elim (Bool-cases (not (has_key ip p.store) && leb c.max_clients (length p.store))) [
      | inl e ↦
          rw (e, reclaim)
            (keep_active-IsTracked c now p (is_active c.window now) p.store
              (active-is_active c.window now) t.unique t.room t.tracked t.within)
      | inr e ↦
          rw (e, reclaim)
            (record { unique = t.unique; room = t.room; tracked = t.tracked; within = t.within })
    ]

pub cleanup-IsTracked :
    (c : Limits) (now : ℕ) (p : Progress)
    → IsTracked c now p
    → IsTracked c now (record p { store = cleanup_rate_limits c p.store now })
unfolding cleanup_rate_limits active
cleanup-IsTracked c now p t =
    let f = active c.window now in
    keep_active-IsTracked c now p is_filled (map_values f p.store)
      (λ xs h. ap f (empty_of c.window xs h)) (map_values-UniqueKeys f p.store t.unique)
      (omega (arith, length-map_values f p.store, t.room))
      (λ ip.
        ap f (get_or-map_values f ip p.store refl)
        ∙ active-active c.window now now (get_or [] ip p.store) (omega arith)
        ∙ t.tracked ip)
      t.within

-- the state after a verdict
abbrev pub after : Progress → Store × Bool → Text → ℕ → Progress
after p r ip now = record {
  store = r.0;
  admitted = if r.1 then p.admitted ++ (ip, now) ∷ [] else p.admitted;
}

module _ (c : Limits) (now : ℕ) (p : Progress) (ip : Text) (t : IsTracked c now p)
    (room : (has_key ip p.store ≡ true) ⊎ (length p.store < c.max_clients)) where
  assign_room : (v : List ℕ) → length (assign ip v p.store) ≤ c.max_clients
  assign_room v = elim room [
    | inl h ↦ omega (arith, length-assign_known ip v p.store h, t.room)
    | inr l ↦ omega (arith, length-assign_le ip v p.store, l)
  ]

  pub refused-IsTracked :
      IsTracked c now
        (record p { store = assign ip (active c.window now (get_or [] ip p.store)) p.store })
  refused-IsTracked = record {
    unique = assign-UniqueKeys ip _ p.store t.unique;
    room = assign_room (active c.window now (get_or [] ip p.store));
    tracked = λ k. elim (Bool-cases (text_eq ip k)) [
      | inl e ↦
          subst
            (λ j.
              active c.window now
                (get_or [] j (assign ip (active c.window now (get_or [] ip p.store)) p.store))
              ≡ active c.window now (times_of j p.admitted))
            (same_key e)
            (ap (active c.window now)
                (get_or-assign_same [] ip (active c.window now (get_or [] ip p.store)) p.store)
              ∙ active-active c.window now now (get_or [] ip p.store) (omega arith)
              ∙ t.tracked ip)
      | inr e ↦ ap (active c.window now) (get_or-assign_other [] k ip _ p.store e) ∙ t.tracked k
    ];
    within = t.within;
  }

  pub active-admitted :
      (xs : List ℕ)
      → 0 < c.window
      → active c.window now (xs ++ now ∷ []) ≡ active c.window now xs ++ now ∷ []
  unfolding active
  active-admitted xs h = ground (arith, active-append c.window now xs (now ∷ []))

  pub admitted-IsTracked :
      0 < c.window
      → length (active c.window now (get_or [] ip p.store)) < c.limit
      → IsTracked c now (record {
        store = assign ip (active c.window now (get_or [] ip p.store) ++ now ∷ []) p.store;
        admitted = p.admitted ++ (ip, now) ∷ [];
      })
  admitted-IsTracked h l = record {
    unique = assign-UniqueKeys ip _ p.store t.unique;
    room = assign_room (active c.window now (get_or [] ip p.store) ++ now ∷ []);
    tracked = λ k. elim (Bool-cases (text_eq ip k)) [
      | inl e ↦
          subst
            (λ j.
              active c.window now (
                get_or [] j
                  (assign ip (active c.window now (get_or [] ip p.store) ++ now ∷ []) p.store))
              ≡ active c.window now (times_of j (p.admitted ++ (ip, now) ∷ [])))
            (same_key e)
            (ap (active c.window now) (
                get_or-assign_same [] ip (active c.window now (get_or [] ip p.store) ++ now ∷ [])
                  p.store)
              ∙ active-admitted (active c.window now (get_or [] ip p.store)) h
              ∙ ap (λ xs. xs ++ now ∷ [])
                  (active-active c.window now now (get_or [] ip p.store) (omega arith)
                    ∙ t.tracked ip)
              ∙ sym (own_times h))
      | inr e ↦
          ap (active c.window now) (get_or-assign_other [] k ip _ p.store e)
          ∙ t.tracked k
          ∙ ap (active c.window now) (sym (other_times k e))
    ];
    within = λ k. elim (Bool-cases (text_eq ip k)) [
      | inl e ↦
          subst
            (λ j.
              length (active c.window now (times_of j (p.admitted ++ (ip, now) ∷ []))) ≤ c.limit)
            (same_key e) (subst (λ xs. length xs ≤ c.limit) (sym (own_times h)) own_count)
      | inr e ↦
          subst (λ xs. length (active c.window now xs) ≤ c.limit) (sym (other_times k e))
            (t.within k)
    ];
  }
    where
      own_times :
          0 < c.window
          → active c.window now (times_of ip (p.admitted ++ (ip, now) ∷ []))
            ≡ active c.window now (times_of ip p.admitted) ++ now ∷ []
      own_times h =
          ap (active c.window now)
            (ground (arith, times_of-append ip ip now p.admitted, text_eq_refl ip))
          ∙ active-admitted (times_of ip p.admitted) h

      other_times :
          (k : Text)
          → text_eq ip k ≡ false
          → times_of k (p.admitted ++ (ip, now) ∷ []) ≡ times_of k p.admitted
      other_times k e = ground (arith, times_of-append k ip now p.admitted, e)

      own_count : length (active c.window now (times_of ip p.admitted) ++ now ∷ []) ≤ c.limit
      own_count = omega (
        arith,
        length-append (active c.window now (times_of ip p.admitted)) (now ∷ []),
        ap length (t.tracked ip),
        l,
      )

  pub admit-IsTracked : 0 < c.window → IsTracked c now (after p (admit c p.store ip now) ip now)
  unfolding admit
  admit-IsTracked h =
      elim (Bool-cases (leb c.limit (length (active c.window now (get_or [] ip p.store))))) [
        | inl e ↦ rw (e, admit) refused-IsTracked
        | inr e ↦ rw (e, admit) (admitted-IsTracked h (ground (arith, e)))
      ]
