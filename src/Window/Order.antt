-- ===== src/Window/Order.antt =====
-- translator.py, translate_batch_detailed: the results do not depend on the order in which the groups
-- end. `in_order` is the loop that runs one group after the other.
use cwa_e_book_translate_plu.Prelude.{
  subst, sym, ap, ◌∙◌, ℕ, zero, suc, ◌-◌, ◌≡◌, refl, arith, true, Option-cases, ◌⊎◌, inl, inr, ok,
  err, List, [], ◌∷◌, map, Option, none, some, some_inj, Text, get_elem?, set, all, All,
}
use cwa_e_book_translate_plu.Envelope.Group.{BatchTranslationItem, GroupResult}
use cwa_e_book_translate_plu.Window.{
  pending, running, done, Slot, empty_item, do_group, write_group, refill, count_running, Progress,
  Event, refills, ends, end_group, step, run, is_done, is_finished, start, answered, answer,
}
use cwa_e_book_translate_plu.Window.Results.{Apart, write_group_comm}

-- the groups, one after the other; `none` where one of them does not deliver
abbrev pub in_order :
    (List ℕ → GroupResult)
    → List (List ℕ)
    → List BatchTranslationItem
    → Option (List BatchTranslationItem)
in_order outcome [] results = some results
in_order outcome (g ∷ gs) results = elim (do_group g (outcome g)) [
  | some (ok items) ↦ in_order outcome gs (write_group g items results)
  | _ ↦ none
]

abbrev finished : List Slot → List (List ℕ)
finished [] = []
finished ((g, done) ∷ slots) = g ∷ finished slots
finished ((g, pending) ∷ slots) = finished slots
finished ((g, running) ∷ slots) = finished slots

abbrev pub groups_of : List Slot → List (List ℕ)
groups_of [] = []
groups_of ((g, s) ∷ slots) = g ∷ groups_of slots

-- No two groups share an index.
abbrev pub AllApart : List (List ℕ) → Type 0
AllApart [] = Unit
AllApart (g ∷ gs) = All (Apart g) gs × AllApart gs

-- A group that ends last can be written first.
in_order-write :
    (outcome : List ℕ → GroupResult) (g : List ℕ) (new : List BatchTranslationItem)
    (hs : List (List ℕ)) (results last : List BatchTranslationItem)
    → All (Apart g) hs
    → in_order outcome hs results ≡ some last
    → in_order outcome hs (write_group g new results) ≡ some (write_group g new last)
in_order-write outcome g new [] results last a e = ap (λ r. some (write_group g new r)) (some_inj e)
in_order-write outcome g new (h ∷ hs) results last a e =
    elim (Option-cases (do_group h (outcome h))) [
      | inl q ↦ ground arith
      | inr (err r, q) ↦ ground arith
      | inr (ok items, q) ↦
          rw (q, write_group_comm g h new items results a.0, in_order)
            (in_order-write outcome g new hs (write_group h items results) last a.1
              (reduced items q))
    ]
  where
    reduced :
        (items : List BatchTranslationItem)
        → do_group h (outcome h) ≡ some (ok items)
        → in_order outcome hs (write_group h items results) ≡ some last
    reduced items q = ground (arith, q, e)

finished-Apart :
    (g : List ℕ) (slots : List Slot)
    → All (Apart g) (groups_of slots)
    → All (Apart g) (finished slots)
finished-Apart g [] a = tt
finished-Apart g ((h, done) ∷ slots) a = (a.0, finished-Apart g slots a.1)
finished-Apart g ((h, pending) ∷ slots) a = finished-Apart g slots a.1
finished-Apart g ((h, running) ∷ slots) a = finished-Apart g slots a.1

finished-refill : (free : ℕ) (slots : List Slot) → finished (refill free slots) ≡ finished slots
unfolding refill
finished-refill free [] = refl
finished-refill zero (s ∷ slots) = refl
finished-refill (suc free) ((g, pending) ∷ slots) = finished-refill free slots
finished-refill (suc free) ((g, running) ∷ slots) = finished-refill (suc free) slots
finished-refill (suc free) ((g, done) ∷ slots) = ap (◌∷◌ g) (finished-refill (suc free) slots)

pub groups_of-refill :
    (free : ℕ) (slots : List Slot) → groups_of (refill free slots) ≡ groups_of slots
unfolding refill
groups_of-refill free [] = refl
groups_of-refill zero (s ∷ slots) = refl
groups_of-refill (suc free) ((g, pending) ∷ slots) = ap (◌∷◌ g) (groups_of-refill free slots)
groups_of-refill (suc free) ((g, running) ∷ slots) = ap (◌∷◌ g) (groups_of-refill (suc free) slots)
groups_of-refill (suc free) ((g, done) ∷ slots) = ap (◌∷◌ g) (groups_of-refill (suc free) slots)

pub groups_of-set :
    (slots : List Slot) (i : ℕ) (g : List ℕ)
    → get_elem? slots i ≡ some (g, running)
    → groups_of (set slots i (g, done)) ≡ groups_of slots
groups_of-set [] i g e = refl
groups_of-set (s ∷ slots) zero g e = ap (λ (t : Slot). t.0 ∷ groups_of slots) (sym (some_inj e))
groups_of-set (s ∷ slots) (suc i) g e = ap (◌∷◌ s.0) (groups_of-set slots i g e)

-- The group that ends is written in its place in the order.
in_order-set :
    (outcome : List ℕ → GroupResult) (g : List ℕ) (items : List BatchTranslationItem)
    (slots : List Slot) (i : ℕ) (results last : List BatchTranslationItem)
    → AllApart (groups_of slots)
    → get_elem? slots i ≡ some (g, running)
    → do_group g (outcome g) ≡ some (ok items)
    → in_order outcome (finished slots) results ≡ some last
    → in_order outcome (finished (set slots i (g, done))) results ≡ some (write_group g items last)
in_order-set outcome g items [] i results last a e q r = ground arith
in_order-set outcome g items ((h, pending) ∷ slots) zero results last a e q r = ground arith
in_order-set outcome g items ((h, done) ∷ slots) zero results last a e q r = ground arith
in_order-set outcome g items ((h, running) ∷ slots) zero results last a e q r =
    rw (q, in_order)
      (in_order-write outcome g items (finished slots) results last
        (finished-Apart g slots
          (subst (λ (t : Slot). All (Apart t.0) (groups_of slots)) (some_inj e) a.0))
        r)
in_order-set outcome g items ((h, pending) ∷ slots) (suc i) results last a e q r =
    in_order-set outcome g items slots i results last a.1 e q r
in_order-set outcome g items ((h, running) ∷ slots) (suc i) results last a e q r =
    in_order-set outcome g items slots i results last a.1 e q r
in_order-set outcome g items ((h, done) ∷ slots) (suc i) results last a e q r =
    elim (Option-cases (do_group h (outcome h))) [
      | inl z ↦ ground arith
      | inr (err w, z) ↦ ground arith
      | inr (ok more, z) ↦
          rw (z, in_order)
            (in_order-set outcome g items slots i (write_group h more results) last a.1 e q
              (ground (arith, z, r)))
    ]

pub record IsOrdered (outcome : List ℕ → GroupResult) (groups : List (List ℕ))
    (first : List BatchTranslationItem) (p : Progress) : Type 0 where
  pub same : groups_of p.slots ≡ groups
  pub good : in_order outcome (finished p.slots) first ≡ some p.results

end_group-IsOrdered :
    (outcome : List ℕ → GroupResult) (groups : List (List ℕ)) (first : List BatchTranslationItem)
    (i : ℕ) (g : List ℕ) (p : Progress)
    → AllApart groups
    → get_elem? p.slots i ≡ some (g, running)
    → IsOrdered outcome groups first p
    → IsOrdered outcome groups first (end_group outcome i g p)
unfolding end_group
end_group-IsOrdered outcome groups first i g p a e h =
    elim (Option-cases (do_group g (outcome g))) [
      | inl q ↦ rw (q, end_group) h
      | inr (err r, q) ↦ rw (q, end_group) (record { same = h.same; good = h.good })
      | inr (ok items, q) ↦
          rw (q, end_group)
            (record {
              same = groups_of-set p.slots i g e ∙ h.same;
              good =
                  in_order-set outcome g items p.slots i first p.results
                    (subst AllApart (sym h.same) a) e q h.good;
            })
    ]

pub step-ends :
    (m : ℕ) (outcome : List ℕ → GroupResult) (p : Progress) (i : ℕ)
    → (step m outcome p (ends i) ≡ p)
      ⊎ (g : List ℕ) × (get_elem? p.slots i ≡ some (g, running))
        × (step m outcome p (ends i) ≡ end_group outcome i g p)
unfolding step
step-ends m outcome p i = elim (Option-cases p.stopped) [
  | inr (r, q) ↦ inl (ground arith)
  | inl q ↦ elim (Option-cases (get_elem? p.slots i)) [
    | inl z ↦ inl (ground arith)
    | inr ((g, pending), z) ↦ inl (ground arith)
    | inr ((g, running), z) ↦ inr (g, z, ground arith)
    | inr ((g, done), z) ↦ inl (ground arith)
  ]
]

step-refills :
    (m : ℕ) (outcome : List ℕ → GroupResult) (p : Progress)
    → (step m outcome p refills ≡ p)
      ⊎ (step m outcome p refills ≡ record p { slots = refill (m - count_running p.slots) p.slots })
unfolding step
step-refills m outcome p = elim (Option-cases p.stopped) [
  | inr (r, q) ↦ inl (ground arith)
  | inl q ↦ inr (ground arith)
]

step-IsOrdered :
    (m : ℕ) (outcome : List ℕ → GroupResult) (groups : List (List ℕ))
    (first : List BatchTranslationItem) (p : Progress) (e : Event)
    → AllApart groups
    → IsOrdered outcome groups first p
    → IsOrdered outcome groups first (step m outcome p e)
step-IsOrdered m outcome groups first p refills a h = elim (step-refills m outcome p) [
  | inl q ↦ subst (IsOrdered outcome groups first) (sym q) h
  | inr q ↦ subst (IsOrdered outcome groups first) (sym q) (record {
    same = groups_of-refill (m - count_running p.slots) p.slots ∙ h.same;
    good =
        ap (λ gs. in_order outcome gs first) (finished-refill (m - count_running p.slots) p.slots)
        ∙ h.good;
  })
]
step-IsOrdered m outcome groups first p (ends i) a h = elim (step-ends m outcome p i) [
  | inl q ↦ subst (IsOrdered outcome groups first) (sym q) h
  | inr (g, z, q) ↦
      subst (IsOrdered outcome groups first) (sym q)
        (end_group-IsOrdered outcome groups first i g p a z h)
]

pub run-IsOrdered :
    (m : ℕ) (outcome : List ℕ → GroupResult) (groups : List (List ℕ))
    (first : List BatchTranslationItem) (p : Progress) (es : List Event)
    → AllApart groups
    → IsOrdered outcome groups first p
    → IsOrdered outcome groups first (run m outcome p es)
unfolding run
run-IsOrdered m outcome groups first p [] a h = h
run-IsOrdered m outcome groups first p (e ∷ es) a h =
    run-IsOrdered m outcome groups first (step m outcome p e) es a
      (step-IsOrdered m outcome groups first p e a h)

start-IsOrdered :
    (outcome : List ℕ → GroupResult) (texts : List Text) (groups : List (List ℕ))
    → IsOrdered outcome groups (start texts groups).results (start texts groups)
start-IsOrdered outcome texts groups = record {
  same = same_groups groups;
  good = ap (λ gs. in_order outcome gs (start texts groups).results) (no_done groups);
}
  where
    same_groups : (gs : List (List ℕ)) → groups_of (map (λ g. (g, pending)) gs) ≡ gs
    same_groups [] = refl
    same_groups (g ∷ gs) = ap (◌∷◌ g) (same_groups gs)

    no_done : (gs : List (List ℕ)) → finished (map (λ g. (g, pending)) gs) ≡ []
    no_done [] = refl
    no_done (g ∷ gs) = no_done gs

finished-is_done : (slots : List Slot) → all is_done slots ≡ true → finished slots ≡ groups_of slots
finished-is_done [] h = refl
finished-is_done ((g, done) ∷ slots) h = ap (◌∷◌ g) (finished-is_done slots h)
finished-is_done ((g, pending) ∷ slots) h = ground arith
finished-is_done ((g, running) ∷ slots) h = ground arith

pub answer-in_order :
    (m : ℕ) (outcome : List ℕ → GroupResult) (texts : List Text) (groups : List (List ℕ))
    (es : List Event) (results : List BatchTranslationItem)
    → AllApart groups
    → answer (run m outcome (start texts groups) es) ≡ answered results
    → in_order outcome groups (map (λ _. empty_item) texts) ≡ some results
unfolding answer is_finished
answer-in_order m outcome texts groups es results a h =
    let p = run m outcome (start texts groups) es in
    let ordered : IsOrdered outcome groups (start texts groups).results p =
      run-IsOrdered m outcome groups _ (start texts groups) es a
        (start-IsOrdered outcome texts groups) in
    let complete : all is_done p.slots ≡ true = ground arith in
    let same : p.results ≡ results = ground arith in
    ap (λ gs. in_order outcome gs (start texts groups).results)
      (sym (finished-is_done p.slots complete ∙ ordered.same))
    ∙ ordered.good
    ∙ ap some same
