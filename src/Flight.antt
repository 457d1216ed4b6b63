-- ===== src/Flight.antt =====
-- singleflight.py: the registry that lets callers with one key share one run of an operation. The
-- flights are mutable objects that the registry, the leader and the followers refer to: they live
-- in a store, and a reference is a position in it. What a call does under the lock is one step.
mod Tests
pub mod Registry
pub mod Steps
pub mod Sound
pub mod Enter
pub mod Invariant
pub mod Shared
pub mod Capacity
use cwa_e_book_translate_plu.Prelude.{
  ℕ, zero, suc, ◌+◌, ◌-◌, Bool, true, false, not, ◌&&◌, ◌||◌, String, Result, ok, err, List, [],
  ◌∷◌, ◌++◌, Option, none, some, length, get_elem?, set, ltb, leb, ◌==◌, str_eq, if◌then◌else◌,
  Value, as_positive_int, as_ticks, ok_or, ◌>>=◌,
}
use mathlib.Core.Option
use Prim.Native.Nat.{Ordering}
use Prim.Native.String.{compare as string_compare}

pub record Flight (A E : Type 0) : Type 0 where
  pub created_at : ℕ
  pub event : Bool
  pub completed_at : Option ℕ
  pub value : Option A
  pub error : Option E
  pub waiters : ℕ

abbrev pub Entry : Type 0
Entry = String × ℕ

pub record SingleFlight (A E : Type 0) : Type 0 where
  pub max_entries : ℕ
  pub result_ttl : ℕ
  pub store : List (Flight A E)
  pub flights : List Entry
  pub leaders : ℕ
  pub shared_results : ℕ
  pub followers_waiting : ℕ
  pub wait_timeouts : ℕ
  pub capacity_rejections : ℕ

pub data Error : Type 0 where
  value_error capacity_error timeout_error : Error

unfoldable pub init : {A E : Type 0} → Value → Value → Result Error (SingleFlight A E)
unfolding ok_or as_positive_int as_ticks
init max_entries result_ttl_seconds = do
  entries ← ok_or (as_positive_int max_entries) value_error
  ttl ← ok_or (as_ticks result_ttl_seconds) value_error
  ok (record {
    max_entries = entries;
    result_ttl = ttl;
    store = [];
    flights = [];
    leaders = 0;
    shared_results = 0;
    followers_waiting = 0;
    wait_timeouts = 0;
    capacity_rejections = 0;
  })

-- `self._flights.get(key)`
unfoldable pub find : String → List Entry → Option ℕ
find key [] = none
find key ((k, r) ∷ es) = if str_eq k key then some r else find key es

-- the entries that pass a test, in order
unfoldable pub keep : (Entry → Bool) → List Entry → List Entry
keep p [] = []
keep p (e ∷ es) = if p e then e ∷ keep p es else keep p es

-- `del self._flights[key]`, where a key stands once at most
abbrev pub delete : String → List Entry → List Entry
delete key = keep (λ e. not (str_eq e.0 key))

-- The lesser of two pairs of a time and a key. The order of strings is that of their code points,
-- which is that of their UTF-8 bytes.
unfoldable pub lesser : ℕ × String → ℕ × String → ℕ × String
lesser (c, k) (d, l) =
    if ltb c d
    then (c, k)
    else if ltb d c
    then (d, l)
    else elim (string_compare l k) [ Ordering.lt ↦ (d, l) | _ ↦ (c, k) ]

module _ {A E : Type 0} where
  -- a field of the flight at a reference
  unfoldable pub read : {B : Type 0} → (Flight A E → Option B) → List (Flight A E) → ℕ → Option B
  read g [] r = none
  read g (f ∷ store) zero = g f
  read g (f ∷ store) (suc r) = read g store r

  abbrev pub completed : List (Flight A E) → ℕ → Option ℕ
  completed = read (λ f. f.completed_at)

  abbrev pub error_at : List (Flight A E) → ℕ → Option E
  error_at = read (λ f. f.error)

  abbrev pub is_active : List (Flight A E) → ℕ → Bool
  is_active store r = elim (completed store r) [ none ↦ true | some _ ↦ false ]

  -- `completed_at is not None and now - completed_at >= ttl`
  unfoldable pub is_expired : List (Flight A E) → ℕ → ℕ → ℕ → Bool
  is_expired store ttl now r = elim (completed store r) [
    | none ↦ false
    | some c ↦ leb (c + ttl) now
  ]

  unfoldable pub expire_completed : List (Flight A E) → ℕ → ℕ → List Entry → List Entry
  expire_completed store ttl now = keep (λ e. not (is_expired store ttl now e.1))

  -- `min` of the completed entries, if there is one
  unfoldable pub oldest : List (Flight A E) → List Entry → Option (ℕ × String)
  oldest store [] = none
  oldest store ((k, r) ∷ es) = elim (completed store r) [
    | none ↦ oldest store es
    | some c ↦ elim (oldest store es) [ none ↦ some (c, k) | some d ↦ some (lesser (c, k) d) ]
  ]

  -- `_evict_oldest_completed`: `none` is False
  unfoldable pub evict_oldest_completed : List (Flight A E) → List Entry → Option (List Entry)
  evict_oldest_completed store es = Option.map (λ o. delete o.1 es) (oldest store es)

  -- `while len(flights) >= max_entries: ...`: the entries, and whether there is room. Each round
  -- drops an entry, so as many rounds as there are entries are enough.
  unfoldable pub make_room : ℕ → ℕ → List (Flight A E) → List Entry → List Entry × Bool
  make_room zero max_entries store es = (es, ltb (length es) max_entries)
  make_room (suc rounds) max_entries store es =
      let evicted = evict_oldest_completed store es in
      if ltb (length es) max_entries
      then (es, true)
      else elim evicted [ none ↦ (es, false) | some rest ↦ make_room rounds max_entries store rest ]

  -- a write to the flight at a reference
  unfoldable pub update : (Flight A E → Flight A E) → List (Flight A E) → ℕ → List (Flight A E)
  update f [] r = []
  update f (x ∷ store) zero = f x ∷ store
  update f (x ∷ store) (suc r) = x ∷ update f store r

  abbrev pub new_flight : ℕ → Flight A E
  new_flight now = record {
    created_at = now;
    event = false;
    completed_at = none;
    value = none;
    error = none;
    waiters = 0;
  }

-- What a follower returns or raises; `no_value` is a result without a value.
pub data Reply (A E : Type 0) : Type 0 where
  shared : A → Reply A E
  raised : E → Reply A E
  no_value timed_out : Reply A E

pub record Stats : Type 0 where
  pub counters : List ℕ
  pub active_entries : ℕ
  pub retained_entries : ℕ

-- What a caller is once it has left the first lock: the leader of a new flight, or a follower, and
-- then whether it joined while the flight was active.
pub data Role : Type 0 where
  leading : ℕ → Role
  following : ℕ → Bool → Role

module _ {A E : Type 0} where
  unfoldable pub lead :
      SingleFlight A E → String → ℕ → List Entry → SingleFlight A E × Result Error Role
  lead s key now es = (
    record s {
      store = s.store ++ new_flight now ∷ [];
      flights = es ++ (key, length s.store) ∷ [];
      leaders = s.leaders + 1;
    },
    ok (leading (length s.store)),
  )

  unfoldable pub follow : SingleFlight A E → ℕ → List Entry → SingleFlight A E × Result Error Role
  follow s r es =
      if is_active s.store r
      then (
        record s {
          store = update (λ f. record f { waiters = f.waiters + 1 }) s.store r;
          flights = es;
          shared_results = s.shared_results + 1;
          followers_waiting = s.followers_waiting + 1;
        },
        ok (following r true),
      )
      else (
        record s { flights = es; shared_results = s.shared_results + 1 },
        ok (following r false),
      )

  -- `run`, up to the end of the first lock; `timeout` is checked before it
  unfoldable pub enter :
      SingleFlight A E → String → Value → ℕ → SingleFlight A E × Result Error Role
  unfolding lead follow
  enter s key timeout now =
      let live = expire_completed s.store s.result_ttl now s.flights in
      let room = make_room (length live) s.max_entries s.store live in
      elim (as_ticks timeout) [
        | none ↦ (s, err value_error)
        | some _ ↦ if str_eq key "" then (s, err value_error) else elim (find key live) [
          | some r ↦ follow s r live
          | none ↦ if room.1 then lead s key now room.0 else (
            record s { flights = room.0; capacity_rejections = s.capacity_rejections + 1 },
            err capacity_error,
          )
        ]
      ]

  -- the leader's writes, after its operation returned a value or raised
  unfoldable pub finish : SingleFlight A E → ℕ → Result E A → ℕ → SingleFlight A E
  finish s r outcome now = record s {
    store =
        update
          (λ f. elim outcome [
            | ok v ↦ record f { value = some v; completed_at = some now; event = true }
            | err e ↦ record f { error = some e; completed_at = some now; event = true }
          ])
          s.store r;
  }

  -- the bookkeeping of a follower after `event.wait(timeout)` returned `done`
  unfoldable pub stop_waiting : SingleFlight A E → ℕ → Bool → Bool → SingleFlight A E
  stop_waiting s r false done = s
  stop_waiting s r true done = record s {
    store = update (λ f. record f { waiters = f.waiters - 1 }) s.store r;
    followers_waiting = s.followers_waiting - 1;
    wait_timeouts = if done then s.wait_timeouts else s.wait_timeouts + 1;
  }

  -- what the follower returns or raises
  unfoldable pub follower_reply : SingleFlight A E → ℕ → Bool → Reply A E
  follower_reply s r false = timed_out
  follower_reply s r true = elim (error_at s.store r) [
    | some e ↦ raised e
    | none ↦ elim (read (λ f. f.value) s.store r) [ some v ↦ shared v | none ↦ no_value ]
  ]

  unfoldable pub invalidate : SingleFlight A E → String → SingleFlight A E
  invalidate s key = elim (find key s.flights) [
    | none ↦ s
    | some r ↦ if is_active s.store r then s else record s { flights = delete key s.flights }
  ]

  -- The counters stand in the order of the dictionary that the source returns.
  unfoldable pub stats : SingleFlight A E → ℕ → SingleFlight A E × Stats
  stats s now =
      let live = expire_completed s.store s.result_ttl now s.flights in
      (
        record s { flights = live },
        record {
          counters =
              s.leaders ∷ s.shared_results ∷ s.followers_waiting ∷ s.wait_timeouts
              ∷ s.capacity_rejections ∷ [];
          active_entries = length (keep (λ e. is_active s.store e.1) live);
          retained_entries = length live;
        },
      )
