-- ===== src/Flight/Tests.antt =====
-- singleflight.py: two callers with one key, and a registry of one entry.
use cwa_e_book_translate_plu.Prelude.{
  ◌≡◌, refl, ℕ, Value, int_value, pos, ok, ok_or, as_positive_int, as_ticks, List, [], ◌∷◌, some,
  none, true, Bool,
}
use cwa_e_book_translate_plu.Flight.{
  SingleFlight, Entry, Flight, shared, init, find, keep, read, is_expired, expire_completed, oldest,
  make_room, enter, lead, follow, finish, follower_reply, update, evict_oldest_completed,
}
use cwa_e_book_translate_plu.Flight.Steps.{System, Event, enters, finishes, run, step, start}
use cwa_e_book_translate_plu.Flight.Sound.{IsSound}
use cwa_e_book_translate_plu.Flight.Invariant.{init-run-IsSound}
use cwa_e_book_translate_plu.Flight.Shared.{follower_reply-finish}

abbrev whole : ℕ → Value
whole n = int_value (pos n)

abbrev empty : SingleFlight ℕ ℕ
empty = record {
  max_entries = 1;
  result_ttl = 2000;
  store = [];
  flights = [];
  leaders = 0;
  shared_results = 0;
  followers_waiting = 0;
  wait_timeouts = 0;
  capacity_rejections = 0;
}

program : Unit {0}
unfolding init ok_or as_positive_int as_ticks run step enter lead follow find keep read is_expired
    expire_completed oldest make_room update finish evict_oldest_completed
program = tt

abbrev one_leads : List (Event ℕ ℕ)
one_leads = enters "k" (whole 1) 0 ∷ []

abbrev busy : System ℕ ℕ
busy = run (start empty) one_leads

init-run-IsSound_example : IsSound busy
unfolding program
init-run-IsSound_example = init-run-IsSound (whole 1) (whole 2) empty one_leads refl

busy-IsSound : IsSound busy
unfolding program
busy-IsSound = init-run-IsSound (whole 1) (whole 2) empty one_leads refl

follower_reply-finish_example :
    follower_reply
      (run (step busy (finishes 0 (ok 7) 9)) (enters "other" (whole 1) 9000 ∷ [])).registry
      0
      true
    ≡ shared 7
unfolding program
follower_reply-finish_example =
    follower_reply-finish busy 0 "k" 0 (ok 7) 9 (enters "other" (whole 1) 9000 ∷ []) busy-IsSound
      refl

abbrev done : List (Flight ℕ ℕ)
done =
    record {
      created_at = 0;
      event = true;
      completed_at = some 4;
      value = some 7;
      error = none;
      waiters = 0;
    }
    ∷ []

abbrev rest : List Entry × Bool
rest = make_room 1 1 done (("k", 0) ∷ [])
