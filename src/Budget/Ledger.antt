-- ===== src/Budget/Ledger.antt =====
-- work_budget.py: the counters are the sums over the reservations that were granted.
use cwa_e_book_translate_plu.Prelude.{
  ℕ, ◌+◌, ◌≡◌, ok, as_positive_int, List, [], ◌∷◌, none, some, arith, utf8_size, length, ◌++◌,
  length-append,
}
use cwa_e_book_translate_plu.Budget.{
  Budget, Call, cancels, checks, reserves, Reply, Snapshot, cancel, reserve_sized, reserve_attempt,
  snapshot, step, run,
}

-- The bytes and tokens of a call that asked for work and got the reply `r`.
unfoldable pub granted : Call → Reply (Unit {0}) → List (ℕ × ℕ)
granted (reserves text tokens) (ok _) = elim (as_positive_int tokens) [
  | none ↦ []
  | some n ↦ elim (utf8_size text) [ none ↦ [] | some bytes ↦ (bytes, n) ∷ [] ]
]
granted c r = []

-- The work that a history of calls was granted, in order.
unfoldable pub granted_all : Budget → List (ℕ × Call) → List (ℕ × ℕ)
granted_all b [] = []
granted_all b (c ∷ cs) = granted c.1 (step b c).1 ++ granted_all (step b c).0 cs

abbrev pub sum : (ℕ × ℕ → ℕ) → List (ℕ × ℕ) → ℕ
sum f [] = 0
sum f (x ∷ xs) = f x + sum f xs

-- a snapshot with granted work added
abbrev pub add_work : Snapshot → List (ℕ × ℕ) → Snapshot
add_work s work = record {
  attempts = s.attempts + length work;
  input_bytes = s.input_bytes + sum (λ w. w.0) work;
  output_tokens = s.output_tokens + sum (λ w. w.1) work;
}

sum-append : (f : ℕ × ℕ → ℕ) (xs ys : List (ℕ × ℕ)) → sum f (xs ++ ys) ≡ sum f xs + sum f ys
sum-append f [] ys = omega arith
sum-append f (x ∷ xs) ys = omega (arith, sum-append f xs ys)

step-granted :
    (b : Budget) (c : ℕ × Call)
    → snapshot (step b c).0 ≡ add_work (snapshot b) (granted c.1 (step b c).1)
unfolding step cancel reserve_attempt reserve_sized snapshot granted
step-granted b (now, cancels reason) = ground arith
step-granted b (now, checks) = ground arith
step-granted b (now, reserves text tokens) = ground arith

-- After any history the counters are those of the start plus one attempt, the bytes and the tokens
-- of each reservation that was granted, and of nothing else.
pub run-granted :
    (b : Budget) (cs : List (ℕ × Call))
    → snapshot (run b cs) ≡ add_work (snapshot b) (granted_all b cs)
unfolding run granted_all
run-granted b [] = ground arith
run-granted b (c ∷ cs) = ground (
  arith,
  step-granted b c,
  run-granted (step b c).0 cs,
  length-append (granted c.1 (step b c).1) (granted_all (step b c).0 cs),
  sum-append (λ w. w.0) (granted c.1 (step b c).1) (granted_all (step b c).0 cs),
  sum-append (λ w. w.1) (granted c.1 (step b c).1) (granted_all (step b c).0 cs),
)
