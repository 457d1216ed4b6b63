-- ===== src/Admission.antt =====
-- server.py: the rate limiter, a sliding window of timestamps for each client, and the slots of the
-- authentication that is under way. What a call does under `_rate_limit_lock` is one step. A timestamp
-- is a number of ticks.
mod Tests
pub mod Active
pub mod Tracked
pub mod Window
pub mod Inflight
use cwa_e_book_translate_plu.Prelude.{
  ℕ, zero, suc, ◌+◌, ◌-◌, Bool, true, false, not, ◌&&◌, List, [], ◌∷◌, ◌++◌, Text, length, ltb, leb,
  if◌then◌else◌,
}
use cwa_e_book_translate_plu.Dict
use cwa_e_book_translate_plu.Dict.{has_key, get_or, assign, keep_values, delete_key}

-- RATE_LIMIT_WINDOW in ticks, BT_RATE_LIMIT_MAX_CLIENTS, the limit of the store, and
-- BT_AUTH_MAX_INFLIGHT_PER_CLIENT
pub record Limits : Type 0 where
  pub window : ℕ
  pub max_clients : ℕ
  pub limit : ℕ
  pub max_inflight : ℕ

abbrev pub Store : Type 0
Store = List (Text × List ℕ)

-- `[t for t in timestamps if t > cutoff]`, with the cutoff a window before `now`
unfoldable pub active : ℕ → ℕ → List ℕ → List ℕ
active window now [] = []
active window now (t ∷ ts) =
    let rest = active window now ts in if ltb now (t + window) then t ∷ rest else rest

-- `any(timestamp > cutoff for timestamp in values)`
unfoldable pub is_active : ℕ → ℕ → List ℕ → Bool
is_active window now [] = false
is_active window now (t ∷ ts) =
    let rest = is_active window now ts in if ltb now (t + window) then true else rest

-- the store after the stale buckets are reclaimed, where that is done
unfoldable pub reclaim : Limits → Store → Text → ℕ → Store
unfolding is_active
reclaim c store ip now =
    if not (has_key ip store) && leb c.max_clients (length store)
    then keep_values (is_active c.window now) store
    else store

-- the end of `_check_window_rate_limit`
unfoldable pub admit : Limits → Store → Text → ℕ → Store × Bool
unfolding active
admit c store ip now =
    let timestamps = active c.window now (get_or [] ip store) in
    if leb c.limit (length timestamps)
    then (assign ip timestamps store, false)
    else (assign ip (timestamps ++ now ∷ []) store, true)

unfoldable pub check_window_rate_limit : Limits → Store → Text → ℕ → Store × Bool
unfolding reclaim admit
check_window_rate_limit c store ip now =
    let reclaimed = reclaim c store ip now in
    if not (has_key ip store) && leb c.max_clients (length reclaimed)
    then (reclaimed, false)
    else admit c reclaimed ip now

abbrev pub is_filled : List ℕ → Bool
is_filled [] = false
is_filled (t ∷ ts) = true

abbrev pub map_values : (List ℕ → List ℕ) → Store → Store
map_values f [] = []
map_values f ((k, v) ∷ d) = (k, f v) ∷ map_values f d

-- one round of `_cleanup_rate_limits`, on one store
unfoldable pub cleanup_rate_limits : Limits → Store → ℕ → Store
unfolding active
cleanup_rate_limits c store now = keep_values is_filled (map_values (active c.window now) store)

-- What happens to a store, with the time that the call has read.
pub data Event : Type 0 where
  checks : Text → ℕ → Event
  cleans : ℕ → Event

-- The store, and the admitted calls in their order, with their clients and times.
pub record Progress : Type 0 where
  pub store : Store
  pub admitted : List (Text × ℕ)

abbrev pub fresh : Progress
fresh = record { store = []; admitted = [] }

unfoldable pub step : Limits → Progress → Event → Progress
unfolding check_window_rate_limit cleanup_rate_limits
step c p (checks ip now) =
    let (store, verdict) = check_window_rate_limit c p.store ip now in
    record {
      store = store;
      admitted = if verdict then p.admitted ++ (ip, now) ∷ [] else p.admitted;
    }
step c p (cleans now) = record p { store = cleanup_rate_limits c p.store now }

unfoldable pub run : Limits → Progress → List Event → Progress
run c p [] = p
run c p (e ∷ es) = run c (step c p e) es

-- `_auth_inflight_store`
abbrev pub Slots : Type 0
Slots = List (Text × ℕ)

unfoldable pub acquire_auth_inflight : Limits → Slots → Text → Slots × Bool
acquire_auth_inflight c slots client_key =
    let current = get_or 0 client_key slots in
    if leb c.max_inflight current
    then (slots, false)
    else if leb current 0 && leb c.max_clients (length slots)
    then (slots, false)
    else (assign client_key (current + 1) slots, true)

unfoldable pub release_auth_inflight : Slots → Text → Slots
release_auth_inflight slots client_key =
    let current = get_or 0 client_key slots in
    if leb current 1 then delete_key client_key slots else assign client_key (current - 1) slots
