-- ===== src/Recovery/Tracked.antt =====
-- translator.py, BatchRecoveryTracker: the sink is told of every increment exactly once.
use cwa_e_book_translate_plu.Prelude.{
  ℕ, ◌+◌, ◌≡◌, refl, arith, true, false, Option-cases, Value, as_positive_int, List, [], ◌∷◌, inl,
  inr,
}
use cwa_e_book_translate_plu.Recovery.{
  Metric, Counts, Tracker, init, add, record_count, attach_sink, publish, Event, records, attaches,
  publishes, step, run,
}

abbrev pub total : List Counts → Metric → ℕ
total [] m = 0
total (c ∷ cs) m = c m + total cs m

-- With a sink, what it was told and what is on its way add up to the counters; without one there is
-- neither.
pub record Agrees (t : Tracker) : Type 0 where
  pub told : (m : Metric) → t.sink ≡ true → t.published m + total t.sending m ≡ t.counts m
  pub untold : (m : Metric) → t.sink ≡ false → t.published m + total t.sending m ≡ 0

record_count-Agrees :
    (t : Tracker) (name : Metric) (count : Value) → Agrees t → Agrees (record_count t name count).0
unfolding record_count add
record_count-Agrees t name count a = elim (Option-cases (as_positive_int count)) [
  | inl e ↦ rw (e, record_count) a
  | inr (n, e) ↦ record {
    told = λ m s. ground (arith, a.told m, a.untold m);
    untold = λ m s. ground (arith, a.told m, a.untold m);
  }
]

attach_sink-Agrees : (t : Tracker) → Agrees t → Agrees (attach_sink t).0
unfolding attach_sink
attach_sink-Agrees t a = record {
  told = λ m s. ground (arith, a.told m, a.untold m);
  untold = λ m s. ground (arith, a.told m, a.untold m);
}

publish-Agrees : (t : Tracker) → Agrees t → Agrees (publish t)
unfolding publish add
publish-Agrees t a = record {
  told = λ m s. ground (arith, a.told m, a.untold m);
  untold = λ m s. ground (arith, a.told m, a.untold m);
}

run-Agrees : (t : Tracker) (es : List Event) → Agrees t → Agrees (run t es)
unfolding run step
run-Agrees t [] a = a
run-Agrees t (records name count ∷ es) a =
    run-Agrees (record_count t name count).0 es (record_count-Agrees t name count a)
run-Agrees t (attaches ∷ es) a = run-Agrees (attach_sink t).0 es (attach_sink-Agrees t a)
run-Agrees t (publishes ∷ es) a = run-Agrees (publish t) es (publish-Agrees t a)

-- Once a sink is attached and no thread is about to call it, it was told of every increment exactly
-- once, those before it was attached included, whatever the order of the threads.
pub run-published :
    (es : List Event) (m : Metric)
    → (run init es).sink ≡ true
    → (run init es).sending ≡ []
    → (run init es).published m ≡ (run init es).counts m
run-published es m s e = ground (
  arith,
  (run-Agrees init es (record { told = λ n t. ground arith; untold = λ n t. refl })).told m s,
)
