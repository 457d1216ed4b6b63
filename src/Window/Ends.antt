-- ===== src/Window/Ends.antt =====
-- translator.py, translate_batch_detailed: the loop can go on to its end.
use Prim.Native.Nat.{◌<◌}
use cwa_e_book_translate_plu.Prelude.{
  subst, sym, ap, ◌∙◌, ℕ, zero, suc, ◌-◌, max, ◌≡◌, refl, arith, true, ◌⊎◌, inl, inr, ok, List, [],
  ◌∷◌, ◌++◌, map, none, some, some_inj, Text, get_elem?, set, all, All,
}
use cwa_e_book_translate_plu.Batch.{Config, is_valid_selection}
use cwa_e_book_translate_plu.Envelope.Group.{BatchTranslationItem, GroupResult}
use cwa_e_book_translate_plu.Window.{
  pending, running, done, Slot, do_group, write_group, count_running, refill, Progress, Event,
  refills, ends, end_group, step, run, is_done, is_finished, start, answered, answer,
  translate_batch_detailed,
}
use cwa_e_book_translate_plu.Window.Order.{groups_of, groups_of-refill, groups_of-set, step-ends}

-- the groups that have items in the end
abbrev pub Delivers : (List ℕ → GroupResult) → List ℕ → Type 0
Delivers outcome g =
    (items : List BatchTranslationItem) × (do_group g (outcome g) ≡ some (ok items))

abbrev Runs : List Slot → ℕ → List ℕ → Type 0
Runs slots i g = get_elem? slots i ≡ some (g, running)

abbrev undone : List Slot → ℕ
undone [] = 0
undone ((g, done) ∷ slots) = undone slots
undone ((g, pending) ∷ slots) = suc (undone slots)
undone ((g, running) ∷ slots) = suc (undone slots)

undone-set :
    (slots : List Slot) (i : ℕ) (g : List ℕ)
    → Runs slots i g
    → suc (undone (set slots i (g, done))) ≡ undone slots
undone-set [] i g e = ground arith
undone-set ((h, pending) ∷ slots) zero g e = ground arith
undone-set ((h, running) ∷ slots) zero g e = refl
undone-set ((h, done) ∷ slots) zero g e = ground arith
undone-set ((h, pending) ∷ slots) (suc i) g e = ap suc (undone-set slots i g e)
undone-set ((h, running) ∷ slots) (suc i) g e = ap suc (undone-set slots i g e)
undone-set ((h, done) ∷ slots) (suc i) g e = undone-set slots i g e

undone-refill : (free : ℕ) (slots : List Slot) → undone (refill free slots) ≡ undone slots
unfolding refill
undone-refill free [] = refl
undone-refill zero (s ∷ slots) = refl
undone-refill (suc free) ((g, pending) ∷ slots) = ap suc (undone-refill free slots)
undone-refill (suc free) ((g, running) ∷ slots) = ap suc (undone-refill (suc free) slots)
undone-refill (suc free) ((g, done) ∷ slots) = undone-refill (suc free) slots

is_done-undone : (slots : List Slot) → undone slots ≡ 0 → all is_done slots ≡ true
is_done-undone [] h = refl
is_done-undone ((g, pending) ∷ slots) h = absurd (omega (arith, h))
is_done-undone ((g, running) ∷ slots) h = absurd (omega (arith, h))
is_done-undone ((g, done) ∷ slots) h = is_done-undone slots h

find_running :
    (slots : List Slot) → ((i : ℕ) × (g : List ℕ) × Runs slots i g) ⊎ (count_running slots ≡ 0)
unfolding count_running
find_running [] = inr refl
find_running ((g, running) ∷ slots) = inl (0, g, refl)
find_running ((g, pending) ∷ slots) = elim (find_running slots) [
  | inl (i, h, e) ↦ inl (suc i, h, e)
  | inr z ↦ inr (ground (arith, z))
]
find_running ((g, done) ∷ slots) = elim (find_running slots) [
  | inl (i, h, e) ↦ inl (suc i, h, e)
  | inr z ↦ inr (ground (arith, z))
]

-- An empty window takes a group.
refill-Runs :
    (k : ℕ) (slots : List Slot)
    → 0 < undone slots
    → count_running slots ≡ 0
    → (i : ℕ) × (g : List ℕ) × Runs (refill (suc k) slots) i g
unfolding refill count_running
refill-Runs k [] n z = absurd (omega (arith, n))
refill-Runs k ((g, pending) ∷ slots) n z = (0, g, refl)
refill-Runs k ((g, running) ∷ slots) n z = (0, g, refl)
refill-Runs k ((g, done) ∷ slots) n z =
    let (i, h, e) = refill-Runs k slots n (omega arith) in (suc i, h, e)

All-get :
    (P : List ℕ → Type 0) (slots : List Slot) (i : ℕ) (g : List ℕ)
    → Runs slots i g
    → All P (groups_of slots)
    → P g
All-get P [] i g e a = ground arith
All-get P (s ∷ slots) zero g e a = subst (λ (t : Slot). P t.0) (some_inj e) a.0
All-get P (s ∷ slots) (suc i) g e a = All-get P slots i g e a.1

-- what a state needs so that the loop can end
record IsLive (outcome : List ℕ → GroupResult) (p : Progress) : Type 0 where
  going : p.stopped ≡ none
  delivers : All (Delivers outcome) (groups_of p.slots)

ends_done :
    (m : ℕ) (outcome : List ℕ → GroupResult) (p : Progress) (i : ℕ) (g : List ℕ)
    → IsLive outcome p
    → Runs p.slots i g
    → IsLive outcome (step m outcome p (ends i))
      × (suc (undone (step m outcome p (ends i)).slots) ≡ undone p.slots)
unfolding step end_group
ends_done m outcome p i g l e =
    let (items, d) = All-get (Delivers outcome) p.slots i g e l.delivers in
    let after : step m outcome p (ends i)
        ≡ record p { slots = set p.slots i (g, done); results = write_group g items p.results } =
      ground (arith, l.going, e, d) in
    rw after (
      record {
        going = l.going;
        delivers = subst (All (Delivers outcome)) (sym (groups_of-set p.slots i g e)) l.delivers;
      },
      undone-set p.slots i g e,
    )

refills-IsLive :
    (m : ℕ) (outcome : List ℕ → GroupResult) (p : Progress)
    → IsLive outcome p
    → IsLive outcome (step m outcome p refills)
      × ((step m outcome p refills).slots ≡ refill (m - count_running p.slots) p.slots)
unfolding step
refills-IsLive m outcome p l =
    let after : step m outcome p refills
        ≡ record p { slots = refill (m - count_running p.slots) p.slots } =
      ground (arith, l.going) in
    rw after (
      record {
        going = l.going;
        delivers =
            subst (All (Delivers outcome))
              (sym (groups_of-refill (m - count_running p.slots) p.slots)) l.delivers;
      },
      refl,
    )

LiveEnd : ℕ → (List ℕ → GroupResult) → Progress → Type 0
LiveEnd m outcome p =
    (es : List Event) × ((run m outcome p es).stopped ≡ none)
    × (all is_done (run m outcome p es).slots ≡ true)

-- a running group ends, and the rest goes on
then_ends :
    (m : ℕ) (outcome : List ℕ → GroupResult) (n : ℕ)
    → ((p : Progress) → IsLive outcome p → undone p.slots ≡ n → LiveEnd m outcome p)
    → (p : Progress) → IsLive outcome p
    → undone p.slots ≡ suc n
    → (i : ℕ) × (g : List ℕ) × Runs p.slots i g
    → LiveEnd m outcome p
unfolding run LiveEnd
then_ends m outcome n rest p l u (i, g, e) =
    let d = ends_done m outcome p i g l e in
    let (es, s, f) = rest (step m outcome p (ends i)) d.0 (omega (arith, d.1, u)) in
    (ends i ∷ es, s, f)

loop_ends :
    (k : ℕ) (outcome : List ℕ → GroupResult) (n : ℕ) (p : Progress)
    → IsLive outcome p
    → undone p.slots ≡ n
    → LiveEnd (suc k) outcome p
unfolding run LiveEnd
loop_ends k outcome zero p l u = ([], l.going, is_done-undone p.slots u)
loop_ends k outcome (suc n) p l u = elim (find_running p.slots) [
  | inl r ↦ then_ends (suc k) outcome n (loop_ends k outcome n) p l u r
  | inr z ↦
      let next = refills-IsLive (suc k) outcome p l in
      let free : suc k - count_running p.slots ≡ suc k = omega (arith, z) in
      let slots : (step (suc k) outcome p refills).slots ≡ refill (suc k) p.slots =
        next.1 ∙ ap (λ f. refill f p.slots) free in
      let (es, s, f) =
        then_ends (suc k) outcome n (loop_ends k outcome n) (step (suc k) outcome p refills) next.0
          (ap undone slots ∙ undone-refill (suc k) p.slots ∙ u)
          (subst (λ (ts : List Slot). (i : ℕ) × (g : List ℕ) × Runs ts i g) (sym slots)
            (refill-Runs k p.slots (omega (arith, u)) z)) in
      (refills ∷ es, s, f)
]

step-IsLive :
    (m : ℕ) (outcome : List ℕ → GroupResult) (p : Progress) (e : Event)
    → IsLive outcome p
    → IsLive outcome (step m outcome p e)
step-IsLive m outcome p refills l = (refills-IsLive m outcome p l).0
step-IsLive m outcome p (ends i) l = elim (step-ends m outcome p i) [
  | inl q ↦ subst (IsLive outcome) (sym q) l
  | inr (g, z, q) ↦ (ends_done m outcome p i g l z).0
]

run-IsLive :
    (m : ℕ) (outcome : List ℕ → GroupResult) (p : Progress) (es : List Event)
    → IsLive outcome p
    → IsLive outcome (run m outcome p es)
unfolding run
run-IsLive m outcome p [] l = l
run-IsLive m outcome p (e ∷ es) l =
    run-IsLive m outcome (step m outcome p e) es (step-IsLive m outcome p e l)

run-append :
    (m : ℕ) (outcome : List ℕ → GroupResult) (p : Progress) (es more : List Event)
    → run m outcome p (es ++ more) ≡ run m outcome (run m outcome p es) more
unfolding run
run-append m outcome p [] more = refl
run-append m outcome p (e ∷ es) more = run-append m outcome (step m outcome p e) es more

groups_of-start : (groups : List (List ℕ)) → groups_of (map (λ g. (g, pending)) groups) ≡ groups
groups_of-start [] = refl
groups_of-start (g ∷ gs) = ap (◌∷◌ g) (groups_of-start gs)

answer_of_end :
    (p : Progress) → p.stopped ≡ none → all is_done p.slots ≡ true → answer p ≡ answered p.results
unfolding answer is_finished
answer_of_end p s f = ground (arith, s, f)

run_ends :
    (k : ℕ) (outcome : List ℕ → GroupResult) (texts : List Text) (groups : List (List ℕ))
    (es : List Event)
    → All (Delivers outcome) groups
    → (more : List Event) × (results : List BatchTranslationItem) × (answer
          (run (suc k) outcome (start texts groups) (es ++ more))
        ≡ answered results)
unfolding LiveEnd
run_ends k outcome texts groups es d =
    let live : IsLive outcome (start texts groups) = record {
      going = refl;
      delivers = subst (All (Delivers outcome)) (sym (groups_of-start groups)) d;
    } in
    let p = run (suc k) outcome (start texts groups) es in
    let (more, s, f) =
      loop_ends k outcome (undone p.slots) p
        (run-IsLive (suc k) outcome (start texts groups) es live) refl in
    (
      more,
      (run (suc k) outcome p more).results,
      ap answer (run-append (suc k) outcome (start texts groups) es more)
          ∙ answer_of_end (run (suc k) outcome p more) s f,
    )

-- With valid selected groups that all deliver, no run of the loop is stuck: after any events it can go
-- on to an end with results.
pub translate_batch_detailed-ends :
    (c : Config) (texts : List Text) (groups : List (List ℕ)) (m : ℕ)
    (outcome : List ℕ → GroupResult) (es : List Event)
    → is_valid_selection c texts groups ≡ true
    → All (Delivers outcome) groups
    → (more : List Event) × (results : List BatchTranslationItem) × (translate_batch_detailed c
          texts
          (some groups)
          m
          outcome
          (es ++ more)
        ≡ answered results)
unfolding translate_batch_detailed
translate_batch_detailed-ends c texts groups m outcome es v d =
    let (more, results, e) = run_ends (max 1 m - 1) outcome texts groups es d in
    let window : suc (max 1 m - 1) ≡ max 1 m = omega arith in
    (
      more,
      results,
      ground (
        arith,
        v,
        subst (λ k. answer (run k outcome (start texts groups) (es ++ more)) ≡ answered results)
            window e,
      ),
    )
