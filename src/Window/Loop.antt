-- ===== src/Window/Loop.antt =====
-- translator.py, translate_batch_detailed: the window is bounded, the loop goes on, and the results
-- do not depend on the order in which the groups end.
use Prim.Native.Nat.{◌≤◌}
use cwa_e_book_translate_plu.Prelude.{
  ℕ, zero, suc, ◌+◌, ◌-◌, ◌≡◌, arith, Option-cases, inl, inr, ok, err, List, [], ◌∷◌, none,
  get_elem?, set,
}
use cwa_e_book_translate_plu.Envelope.Group.{GroupResult}
use cwa_e_book_translate_plu.Window.{
  pending, running, done, Slot, do_group, count_running, refill, Progress, Event, refills, ends,
  end_group, step, run,
}

count_running-refill :
    (free : ℕ) (slots : List Slot) → count_running (refill free slots) ≤ count_running slots + free
unfolding count_running refill
count_running-refill free [] = omega arith
count_running-refill zero (s ∷ slots) = omega arith
count_running-refill (suc free) ((g, pending) ∷ slots) =
    ground (arith, count_running-refill free slots)
count_running-refill (suc free) ((g, running) ∷ slots) =
    ground (arith, count_running-refill (suc free) slots)
count_running-refill (suc free) ((g, done) ∷ slots) =
    ground (arith, count_running-refill (suc free) slots)

count_running-set_done :
    (i : ℕ) (g : List ℕ) (slots : List Slot)
    → count_running (set slots i (g, done)) ≤ count_running slots
unfolding count_running
count_running-set_done i g [] = omega arith
count_running-set_done zero g (s ∷ slots) = ground arith
count_running-set_done (suc i) g (s ∷ slots) = ground (arith, count_running-set_done i g slots)

end_group-window :
    (m : ℕ) (outcome : List ℕ → GroupResult) (i : ℕ) (g : List ℕ) (p : Progress)
    → count_running p.slots ≤ m
    → count_running (end_group outcome i g p).slots ≤ m
unfolding end_group
end_group-window m outcome i g p h = elim (Option-cases (do_group g (outcome g))) [
  | inl q ↦ ground arith
  | inr (err r, q) ↦ ground arith
  | inr (ok items, q) ↦ ground (arith, count_running-set_done i g p.slots)
]

step-window-of :
    (m : ℕ) (outcome : List ℕ → GroupResult) (p : Progress) (e : Event)
    → count_running p.slots ≤ m
    → p.stopped ≡ none
    → count_running (step m outcome p e).slots ≤ m
unfolding step
step-window-of m outcome p refills h q =
    ground (arith, count_running-refill (m - count_running p.slots) p.slots)
step-window-of m outcome p (ends i) h q = elim (Option-cases (get_elem? p.slots i)) [
  | inl z ↦ ground arith
  | inr ((g, pending), z) ↦ ground arith
  | inr ((g, running), z) ↦ ground (arith, end_group-window m outcome i g p h)
  | inr ((g, done), z) ↦ ground arith
]

step-window :
    (m : ℕ) (outcome : List ℕ → GroupResult) (p : Progress) (e : Event)
    → count_running p.slots ≤ m
    → count_running (step m outcome p e).slots ≤ m
unfolding step end_group
step-window m outcome p e h = elim (Option-cases p.stopped) [
  | inr (r, q) ↦ ground arith
  | inl q ↦ step-window-of m outcome p e h q
]

-- At no time are more groups submitted and not done than the window allows.
pub run-window :
    (m : ℕ) (outcome : List ℕ → GroupResult) (p : Progress) (es : List Event)
    → count_running p.slots ≤ m
    → count_running (run m outcome p es).slots ≤ m
unfolding run
run-window m outcome p [] h = h
run-window m outcome p (e ∷ es) h =
    run-window m outcome (step m outcome p e) es (step-window m outcome p e h)
