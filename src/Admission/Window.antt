-- ===== src/Admission/Window.antt =====
-- server.py: what the sliding window admits.
use Prim.Native.Nat.{◌≤◌, ◌<◌}
use cwa_e_book_translate_plu.Prelude.{
  subst, sym, ap, ◌∙◌, ℕ, ◌≡◌, refl, arith, ◌⊎◌, inl, inr, Bool, true, false, Bool-cases, List, [],
  ◌∷◌, Text, length, ltb, leb,
}
use cwa_e_book_translate_plu.Dict.{has_key, get_or}
use cwa_e_book_translate_plu.Admission.{
  Limits, Store, active, reclaim, admit, check_window_rate_limit, Event, checks, cleans, Progress,
  fresh, step, run,
}
use cwa_e_book_translate_plu.Admission.Active.{times_of}
use cwa_e_book_translate_plu.Admission.Tracked.{
  IsTracked, later-IsTracked, reclaim-IsTracked, cleanup-IsTracked, after, admit-IsTracked,
}

-- The calls take their turns in the order of the times that they have read, from `lo` to `now`.
abbrev pub InOrder : ℕ → List Event → ℕ → Type 0
InOrder lo [] now = lo ≤ now
InOrder lo (checks ip t ∷ es) now = (lo ≤ t) × InOrder t es now
InOrder lo (cleans t ∷ es) now = (lo ≤ t) × InOrder t es now

reclaim-known :
    (c : Limits) (store : Store) (ip : Text) (now : ℕ)
    → has_key ip store ≡ true
    → reclaim c store ip now ≡ store
unfolding reclaim
reclaim-known c store ip now h = ground (arith, h)

-- The ways that a check goes: it is refused for want of room, or the client's window decides.
check_cases :
    (c : Limits) (store : Store) (ip : Text) (now : ℕ)
    → let reclaimed = reclaim c store ip now in
      ((check_window_rate_limit c store ip now ≡ (reclaimed, false))
        × (has_key ip store ≡ false)
        × (c.max_clients ≤ length reclaimed))
      ⊎ (check_window_rate_limit c store ip now ≡ admit c reclaimed ip now)
        × ((has_key ip reclaimed ≡ true) ⊎ (length reclaimed < c.max_clients))
unfolding check_window_rate_limit
check_cases c store ip now = elim (Bool-cases (has_key ip store)) [
  | inl h ↦
      let kept : reclaim c store ip now ≡ store = reclaim-known c store ip now h in
      inr (ground (arith, h), inl (ap (has_key ip) kept ∙ h))
  | inr h ↦ elim (Bool-cases (leb c.max_clients (length (reclaim c store ip now)))) [
    | inl f ↦ inl (ground (arith, h, f), h, ground (arith, f))
    | inr f ↦ inr (ground (arith, h, f), inr (ground (arith, f)))
  ]
]

check-IsTracked :
    (c : Limits) (now : ℕ) (p : Progress) (ip : Text)
    → 0 < c.window
    → IsTracked c now p
    → IsTracked c now (after p (check_window_rate_limit c p.store ip now) ip now)
check-IsTracked c now p ip w t =
    let q : Progress = record p { store = reclaim c p.store ip now } in
    let r = reclaim-IsTracked c now p ip t in
    elim (check_cases c p.store ip now) [
      | inl (e, h, f) ↦
          subst (λ v. IsTracked c now (after p v ip now)) (sym e)
            (record { unique = r.unique; room = r.room; tracked = r.tracked; within = r.within })
      | inr (e, room) ↦
          subst (λ v. IsTracked c now (after p v ip now)) (sym e)
            (admit-IsTracked c now q ip r room w)
    ]

run-IsTracked :
    (c : Limits) (es : List Event) (lo now : ℕ) (p : Progress)
    → 0 < c.window
    → InOrder lo es now
    → IsTracked c lo p
    → IsTracked c now (run c p es)
unfolding run step
run-IsTracked c [] lo now p w o t = later-IsTracked c lo now p o t
run-IsTracked c (checks ip u ∷ es) lo now p w o t =
    run-IsTracked c es u now (step c p (checks ip u)) w o.1
      (check-IsTracked c u p ip w (later-IsTracked c lo u p o.0 t))
run-IsTracked c (cleans u ∷ es) lo now p w o t =
    run-IsTracked c es u now (step c p (cleans u)) w o.1
      (cleanup-IsTracked c u p (later-IsTracked c lo u p o.0 t))

fresh-IsTracked : (c : Limits) → IsTracked c 0 fresh
unfolding get_or active
fresh-IsTracked c = record {
  unique = tt;
  room = omega arith;
  tracked = λ ip. refl;
  within = λ ip. omega arith;
}

-- With a positive window, whatever clients call and whenever the cleanup runs, if the calls take their
-- turns in the order of the times that they have read, then in the window that ends at any time after
-- the last call, no client has been admitted more often than the limit, and the store holds no more
-- clients than its maximum.
pub run-within :
    (c : Limits) (events : List Event) (now : ℕ) (ip : Text)
    → 0 < c.window
    → InOrder 0 events now
    → (length (active c.window now (times_of ip (run c fresh events).admitted)) ≤ c.limit)
      × (length (run c fresh events).store ≤ c.max_clients)
run-within c events now ip w o =
    let t = run-IsTracked c events 0 now fresh w o (fresh-IsTracked c) in (t.within ip, t.room)

admit-verdict :
    (c : Limits) (store : Store) (ip : Text) (now : ℕ)
    → (admit c store ip now).1 ≡ ltb (length (active c.window now (get_or [] ip store))) c.limit
unfolding admit
admit-verdict c store ip now = ground arith

-- With a positive window and calls in the order of their times, a call is admitted exactly if its
-- client was admitted fewer times than the limit in the window before it, unless the client has no
-- bucket and the store is full of clients that are active.
pub check_window_rate_limit-verdict :
    (c : Limits) (events : List Event) (now : ℕ) (ip : Text)
    → 0 < c.window
    → InOrder 0 events now
    → let p = run c fresh events in
      ((check_window_rate_limit c p.store ip now).1
        ≡ ltb (length (active c.window now (times_of ip p.admitted))) c.limit)
      ⊎ ((check_window_rate_limit c p.store ip now).1 ≡ false)
        × (has_key ip p.store ≡ false)
        × (c.max_clients ≤ length (reclaim c p.store ip now))
check_window_rate_limit-verdict c events now ip w o =
    let p = run c fresh events in
    let t = run-IsTracked c events 0 now fresh w o (fresh-IsTracked c) in
    let r = reclaim-IsTracked c now p ip t in
    elim (check_cases c p.store ip now) [
      | inl (e, h, f) ↦ inr (ap (λ (v : Store × Bool). v.1) e, h, f)
      | inr (e, room) ↦ inl (
          ap (λ (v : Store × Bool). v.1) e
          ∙ admit-verdict c (reclaim c p.store ip now) ip now
          ∙ ap (λ xs. ltb (length xs) c.limit) (r.tracked ip))
    ]
