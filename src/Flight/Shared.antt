-- ===== src/Flight/Shared.antt =====
-- singleflight.py: a follower joins the running operation of its key, and gets its outcome.
use cwa_e_book_translate_plu.Prelude.{
  ℕ, zero, suc, ◌+◌, ◌<◌, ◌≡◌, refl, ◌≢◌, inl, inr, true, false, String, Result, ok, err, List, [],
  ◌∷◌, ◌++◌, Option, none, some, length, get_elem?, str_eq, arith, Option-cases, ap, sym, ◌∙◌,
  subst, Value, as_ticks,
}
use cwa_e_book_translate_plu.Flight.{
  Flight, SingleFlight, Entry, Role, leading, following, Error, Reply, shared, raised, find,
  completed, error_at, read, expire_completed, update, new_flight, lead, follow, enter, finish,
  stop_waiting, stats, follower_reply,
}
use cwa_e_book_translate_plu.Flight.Steps.{
  System, Event, enters, finishes, stops, invalidates, reads, joined, step, run,
}
use cwa_e_book_translate_plu.Flight.Sound.{
  IsLeading, IsSound, read-update, read-update_ne, read-append, expire-Keeps,
}
use cwa_e_book_translate_plu.Flight.Enter.{enter_rule, follow-active, follow-completed}
use cwa_e_book_translate_plu.Flight.Invariant.{step-IsSound, All-get, invalidate_rule}

module _ {A E : Type 0} where
  enter-find :
      (g : SingleFlight A E) (key : String) (timeout : Value) (now n r : ℕ)
      → as_ticks timeout ≡ some n
      → str_eq key "" ≡ false
      → find key (expire_completed g.store g.result_ttl now g.flights) ≡ some r
      → enter g key timeout now ≡ follow g r (expire_completed g.store g.result_ttl now g.flights)
  unfolding enter
  enter-find g key timeout now n r t k f = rw (t, enter) (rw (k, enter) (rw (f, enter) refl))

  -- While an operation runs for a key, every caller with that key and valid arguments joins it as
  -- a waiting follower of its flight: no second leader is made, and no caller is rejected.
  pub enter-joins :
      (s : System A E) (i : ℕ) (key : String) (r : ℕ) (timeout : Value) (now n : ℕ)
      → IsSound s
      → get_elem? s.running i ≡ some (key, r)
      → as_ticks timeout ≡ some n
      → str_eq key "" ≡ false
      → ((enter s.registry key timeout now).1 ≡ ok (following r true))
        × ((enter s.registry key timeout now).0.leaders ≡ s.registry.leaders)
        × ((enter s.registry key timeout now).0.followers_waiting
            ≡ s.registry.followers_waiting + 1)
  enter-joins s i key r timeout now n h q t k =
      rw (enter-find g key timeout now n r t k kept, follow-active g r _ lead_of.active)
        (refl, refl, refl)
    where
      g : SingleFlight A E
      g = s.registry

      lead_of : IsLeading g.store g.flights (key, r)
      lead_of = All-get (IsLeading g.store g.flights) i s.running (key, r) h.leading q

      kept : find key (expire_completed g.store g.result_ttl now g.flights) ≡ some r
      kept =
          (expire-Keeps g.store g.result_ttl now g.flights h.differ).active key r lead_of.registered
            lead_of.active

  -- A completed flight of the store `v` is completed in `w` with the same outcome.
  record Frozen (v w : List (Flight A E)) (r c : ℕ) : Type 0 where
    still : completed w r ≡ some c
    failed : error_at w r ≡ error_at v r
    valued : read (λ f. f.value) w r ≡ read (λ f. f.value) v r

  read-bound :
      {B : Type 0} (g : Flight A E → Option B) (store : List (Flight A E)) (r : ℕ) (b : B)
      → read g store r ≡ some b
      → r < length store
  unfolding read
  read-bound g [] r b h = cc
  read-bound g (x ∷ store) zero b h = omega arith
  read-bound g (x ∷ store) (suc r) b h = omega (arith, read-bound g store r b h)

  Frozen-update :
      (f : Flight A E → Flight A E) (v : List (Flight A E)) (x r c : ℕ)
      → ((y : Flight A E) → (f y).completed_at ≡ y.completed_at)
      → ((y : Flight A E) → (f y).error ≡ y.error)
      → ((y : Flight A E) → (f y).value ≡ y.value)
      → completed v r ≡ some c
      → Frozen v (update f v x) r c
  Frozen-update f v x r c hc he hv q = record {
    still = read-update _ f v x r hc ∙ q;
    failed = read-update _ f v x r he;
    valued = read-update _ f v x r hv;
  }

  Frozen-append :
      (v : List (Flight A E)) (x : Flight A E) (r c : ℕ)
      → completed v r ≡ some c
      → Frozen v (v ++ x ∷ []) r c
  Frozen-append v x r c q =
      let inside = read-bound _ v r c q in
      record {
        still = read-append _ v x r inside ∙ q;
        failed = read-append _ v x r inside;
        valued = read-append _ v x r inside;
      }

  Frozen-follow :
      (g : SingleFlight A E) (x : ℕ) (es : List Entry) (r c : ℕ)
      → completed g.store r ≡ some c
      → Frozen g.store (follow g x es).0.store r c
  Frozen-follow g x es r c q = elim (Option-cases (completed g.store x)) [
    | inl a ↦
        rw (follow-active g x es a)
          (Frozen-update _ g.store x r c (λ y. refl) (λ y. refl) (λ y. refl) q)
    | inr (d, a) ↦
        rw (follow-completed g x d es a) (record { still = q; failed = refl; valued = refl })
  ]

  joined-registry :
      (s : System A E) (key : String) (g : SingleFlight A E) (role : Result Error Role)
      → (joined s key g role).registry ≡ g
  joined-registry s key g (err e) = refl
  joined-registry s key g (ok (leading r)) = refl
  joined-registry s key g (ok (following r true)) = refl
  joined-registry s key g (ok (following r false)) = refl

  Frozen-finish :
      (s : System A E) (i : ℕ) (e : Entry) (outcome : Result E A) (now r c : ℕ)
      → IsSound s
      → get_elem? s.running i ≡ some e
      → completed s.registry.store r ≡ some c
      → Frozen s.registry.store (finish s.registry e.1 outcome now).store r c
  unfolding finish
  Frozen-finish s i e outcome now r c h p q =
      let store = s.registry.store in
      let active =
        (All-get (IsLeading store s.registry.flights) i s.running e h.leading p).active in
      let other : r ≢ e.1 = λ z. cc (ap (completed store) z) in
      record {
        still = read-update_ne _ _ store e.1 r other ∙ q;
        failed = read-update_ne _ _ store e.1 r other;
        valued = read-update_ne _ _ store e.1 r other;
      }

  step-Frozen :
      (s : System A E) (e : Event A E) (r c : ℕ)
      → IsSound s
      → completed s.registry.store r ≡ some c
      → Frozen s.registry.store (step s e).registry.store r c
  unfolding step stop_waiting stats lead
  step-Frozen s (enters key timeout now) r c h q =
      subst (λ g. Frozen s.registry.store g.store r c) (sym (joined-registry s key _ _))
        (enter_rule (λ x. Frozen s.registry.store x.0.store r c) s.registry key timeout now
          (record { still = q; failed = refl; valued = refl })
          (λ x f. Frozen-follow s.registry x _ r c q)
          (λ f room. Frozen-append s.registry.store (new_flight now) r c q)
          (λ f full. record { still = q; failed = refl; valued = refl }))
  step-Frozen s (finishes i outcome now) r c h q = elim (Option-cases (get_elem? s.running i)) [
    | inl p ↦ rw (p, step) (record { still = q; failed = refl; valued = refl })
    | inr (e, p) ↦ rw (p, step) (Frozen-finish s i e outcome now r c h p q)
  ]
  step-Frozen s (stops i done) r c h q = elim (Option-cases (get_elem? s.waiting i)) [
    | inl p ↦ rw (p, step) (record { still = q; failed = refl; valued = refl })
    | inr (x, p) ↦
        rw (p, step) (Frozen-update _ s.registry.store x r c (λ y. refl) (λ y. refl) (λ y. refl) q)
  ]
  step-Frozen s (invalidates key) r c h q =
      invalidate_rule (λ g. Frozen s.registry.store g.store r c) s.registry key
        (record { still = q; failed = refl; valued = refl })
        (λ x d f p. record { still = q; failed = refl; valued = refl })
  step-Frozen s (reads now) r c h q = record { still = q; failed = refl; valued = refl }

  run-Frozen :
      (s : System A E) (es : List (Event A E)) (r c : ℕ)
      → IsSound s
      → completed s.registry.store r ≡ some c
      → Frozen s.registry.store (run s es).registry.store r c
  unfolding run
  run-Frozen s [] r c h q = record { still = q; failed = refl; valued = refl }
  run-Frozen s (e ∷ es) r c h q =
      let first = step-Frozen s e r c h q in
      let rest = run-Frozen (step s e) es r c (step-IsSound s e h) first.still in
      record {
        still = rest.still;
        failed = rest.failed ∙ first.failed;
        valued = rest.valued ∙ first.valued;
      }

  read-update_self :
      {B : Type 0} (g : Flight A E → Option B) (f : Flight A E → Flight A E)
      (store : List (Flight A E)) (r : ℕ) (b : Option B)
      → r < length store
      → ((x : Flight A E) → g (f x) ≡ b)
      → read g (update f store r) r ≡ b
  unfolding read update
  read-update_self g f [] r b l h = elim l [ ]
  read-update_self g f (x ∷ store) zero b l h = h x
  read-update_self g f (x ∷ store) (suc r) b l h = read-update_self g f store r b (omega arith) h

  abbrev reply_of : Result E A → Reply A E
  reply_of (ok v) = shared v
  reply_of (err e) = raised e

  -- The fields of the leader's flight after its writes.
  record Written (store : List (Flight A E)) (r now : ℕ) (outcome : Result E A) : Type 0 where
    done : completed store r ≡ some now
    errors : error_at store r ≡ elim outcome [ ok v ↦ none | err e ↦ some e ]
    values : (v : A) → outcome ≡ ok v → read (λ f. f.value) store r ≡ some v

  finishes-Written :
      (s : System A E) (i : ℕ) (key : String) (r : ℕ) (outcome : Result E A) (now : ℕ)
      → IsSound s
      → get_elem? s.running i ≡ some (key, r)
      → Written (step s (finishes i outcome now)).registry.store r now outcome
  unfolding step finish
  finishes-Written s i key r (ok v) now h p =
      let led =
        All-get (IsLeading s.registry.store s.registry.flights) i s.running (key, r) h.leading p in
      rw (p, step)
        (record {
          done = read-update_self _ _ s.registry.store r (some now) led.stored (λ x. refl);
          errors = read-update _ _ s.registry.store r r (λ x. refl) ∙ led.unset;
          values = λ w e. read-update_self _ _ s.registry.store r (some w) led.stored (λ x. cc);
        })
  finishes-Written s i key r (err e) now h p =
      let led =
        All-get (IsLeading s.registry.store s.registry.flights) i s.running (key, r) h.leading p in
      rw (p, step)
        (record {
          done = read-update_self _ _ s.registry.store r (some now) led.stored (λ x. refl);
          errors = read-update_self _ _ s.registry.store r (some e) led.stored (λ x. refl);
          values = λ w q. cc;
        })

  -- A follower of a flight gets what the leader's operation returned or raised, whatever the threads
  -- do between the leader's end and the follower's read: later callers, expiry, eviction and
  -- invalidation may drop the entry, and the flight keeps its outcome.
  pub follower_reply-finish :
      (s : System A E) (i : ℕ) (key : String) (r : ℕ) (outcome : Result E A) (now : ℕ)
      (es : List (Event A E))
      → IsSound s
      → get_elem? s.running i ≡ some (key, r)
      → follower_reply (run (step s (finishes i outcome now)) es).registry r true ≡ reply_of outcome
  unfolding follower_reply
  follower_reply-finish s i key r (ok v) now es h p =
      let s' = step s (finishes i (ok v) now) in
      let w = finishes-Written s i key r (ok v) now h p in
      let f = run-Frozen s' es r now (step-IsSound s (finishes i (ok v) now) h) w.done in
      ground (arith, f.failed ∙ w.errors, f.valued ∙ w.values v refl)
  follower_reply-finish s i key r (err e) now es h p =
      let s' = step s (finishes i (err e) now) in
      let w = finishes-Written s i key r (err e) now h p in
      let f = run-Frozen s' es r now (step-IsSound s (finishes i (err e) now) h) w.done in
      ground (arith, f.failed ∙ w.errors)
