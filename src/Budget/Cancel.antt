-- ===== src/Budget/Cancel.antt =====
-- work_budget.py: a cancelled or late budget starts no more work.
use cwa_e_book_translate_plu.Prelude.{
  ℕ, ◌≤◌, ◌≡◌, refl, ◌∙◌, List, [], ◌∷◌, some, arith, String, All, ap, subst, sym,
}
use cwa_e_book_translate_plu.Budget.{
  Budget, Call, cancels, checks, reserves, cancel, reserve_sized, reserve_attempt, snapshot, step,
  run,
}

step-cancelled :
    (b : Budget) (c : ℕ × Call) (r : String) → b.cancel_reason ≡ some r → (step b c).0 ≡ b
unfolding step cancel reserve_attempt reserve_sized
step-cancelled b (now, cancels reason) r h = ground arith
step-cancelled b (now, checks) r h = refl
step-cancelled b (now, reserves text tokens) r h = ground arith

-- On a cancelled budget no history of calls changes anything, the reason included: nothing is
-- charged any more, and a later cancellation does not replace the first reason.
pub run-cancelled :
    (b : Budget) (cs : List (ℕ × Call)) (r : String) → b.cancel_reason ≡ some r → run b cs ≡ b
unfolding run
run-cancelled b [] r h = refl
run-cancelled b (c ∷ cs) r h =
    let e = step-cancelled b c r h in ap (λ x. run x cs) e ∙ run-cancelled b cs r h

step-late :
    (b : Budget) (c : ℕ × Call)
    → b.deadline ≤ c.0
    → (snapshot (step b c).0 ≡ snapshot b) × ((step b c).0.deadline ≡ b.deadline)
unfolding step cancel reserve_attempt reserve_sized snapshot
step-late b (now, cancels reason) h = ground arith
step-late b (now, checks) h = (refl, refl)
step-late b (now, reserves text tokens) h = ground arith

-- From the deadline on no history of calls charges the budget.
pub run-late :
    (b : Budget) (cs : List (ℕ × Call))
    → All (λ c. b.deadline ≤ c.0) cs
    → snapshot (run b cs) ≡ snapshot b
unfolding run
run-late b [] h = refl
run-late b (c ∷ cs) h =
    let (kept, same) = step-late b c h.0 in
    run-late (step b c).0 cs (subst (λ d. All (λ c. d ≤ c.0) cs) (sym same) h.1) ∙ kept
