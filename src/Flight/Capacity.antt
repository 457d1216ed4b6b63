-- ===== src/Flight/Capacity.antt =====
-- singleflight.py: when a caller is rejected for capacity.
use cwa_e_book_translate_plu.Prelude.{
  ℕ, ◌≤◌, ◌<◌, ◌≡◌, ◌≢◌, inl, inr, String, err, List, none, length, arith, Option-cases, Value,
}
use cwa_e_book_translate_plu.Flight.{
  SingleFlight, Entry, Error, completed, oldest, expire_completed, follow, lead, enter,
}
use cwa_e_book_translate_plu.Flight.Registry.{KeysDiffer, make_room-decides}
use cwa_e_book_translate_plu.Flight.Sound.{expire-Keeps}
use cwa_e_book_translate_plu.Flight.Enter.{enter_rule, follow-active, follow-completed}

module _ {A E : Type 0} where
  -- The registry is full, and none of its entries is completed.
  pub record IsFull (g : SingleFlight A E) : Type 0 where
    pub full : g.max_entries ≤ length g.flights
    pub none_completed : oldest g.store g.flights ≡ none

  follow-accepts :
      (g : SingleFlight A E) (r : ℕ) (es : List Entry)
      → (follow g r es).1 ≢ err Error.capacity_error
  follow-accepts g r es = elim (Option-cases (completed g.store r)) [
    | inl a ↦ rw (follow-active g r es a) (λ e. cc)
    | inr (c, a) ↦ rw (follow-completed g r c es a) (λ e. cc)
  ]

  -- A caller is rejected for capacity only where the registry, once its completed entries that can
  -- go are gone, holds `max_entries` operations that all still run.
  pub enter-capacity :
      (g : SingleFlight A E) (key : String) (timeout : Value) (now : ℕ)
      → KeysDiffer g.flights
      → 0 < g.max_entries
      → (enter g key timeout now).1 ≡ err Error.capacity_error
      → IsFull (enter g key timeout now).0
  unfolding lead
  enter-capacity g key timeout now d p =
      enter_rule (λ q. q.1 ≡ err Error.capacity_error → IsFull q.0) g key timeout now
        (λ e. absurd (ground arith)) (λ r f e. absurd (follow-accepts g r _ e))
        (λ f room e. absurd (ground arith))
        (λ f full e. ground (
          arith,
          make_room-decides g.store (length live) g.max_entries live
              (expire-Keeps g.store g.result_ttl now g.flights d).differ (omega arith) p,
        ))
    where
      live : List Entry
      live = expire_completed g.store g.result_ttl now g.flights
