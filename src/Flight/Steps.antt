-- ===== src/Flight/Steps.antt =====
-- singleflight.py: the threads that call `run`, `invalidate` and `stats` on one registry. What a
-- thread does under the lock is one event; a history is any order of events that the lock allows.
use cwa_e_book_translate_plu.Prelude.{
  ℕ, zero, suc, Bool, true, false, String, Result, ok, err, List, [], ◌∷◌, none, some, get_elem?,
  Value,
}
use cwa_e_book_translate_plu.Flight.{
  SingleFlight, Entry, Role, leading, following, Error, enter, finish, stop_waiting, invalidate,
  stats,
}

-- `running` are the keys and flights of the leaders whose operation has not ended; `waiting` are
-- the flights of the followers that joined an active flight and have not stopped waiting.
pub record System (A E : Type 0) : Type 0 where
  pub registry : SingleFlight A E
  pub running : List Entry
  pub waiting : List ℕ

-- A leader or a follower is named by its position.
pub data Event (A E : Type 0) : Type 0 where
  enters : String → Value → ℕ → Event A E
  finishes : ℕ → Result E A → ℕ → Event A E
  stops : ℕ → Bool → Event A E
  invalidates : String → Event A E
  reads : ℕ → Event A E

abbrev pub remove_at {ℓ} : {A : Type ℓ} → ℕ → List A → List A
remove_at i [] = []
remove_at zero (x ∷ xs) = xs
remove_at (suc i) (x ∷ xs) = x ∷ remove_at i xs

module _ {A E : Type 0} where
  abbrev pub joined : System A E → String → SingleFlight A E → Result Error Role → System A E
  joined s key g (err e) = record s { registry = g }
  joined s key g (ok (leading r)) = record s { registry = g; running = (key, r) ∷ s.running }
  joined s key g (ok (following r true)) = record s { registry = g; waiting = r ∷ s.waiting }
  joined s key g (ok (following r false)) = record s { registry = g }

  unfoldable pub step : System A E → Event A E → System A E
  step s (enters key timeout now) =
      let (g, role) = enter s.registry key timeout now in joined s key g role
  step s (finishes i outcome now) = elim (get_elem? s.running i) [
    | none ↦ s
    | some e ↦ record s {
      registry = finish s.registry e.1 outcome now;
      running = remove_at i s.running;
    }
  ]
  step s (stops i done) = elim (get_elem? s.waiting i) [
    | none ↦ s
    | some r ↦ record s {
      registry = stop_waiting s.registry r true done;
      waiting = remove_at i s.waiting;
    }
  ]
  step s (invalidates key) = record s { registry = invalidate s.registry key }
  step s (reads now) = record s { registry = (stats s.registry now).0 }

  unfoldable pub run : System A E → List (Event A E) → System A E
  run s [] = s
  run s (e ∷ es) = run (step s e) es

  abbrev pub start : SingleFlight A E → System A E
  start g = record { registry = g; running = []; waiting = [] }
