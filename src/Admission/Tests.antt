-- ===== src/Admission/Tests.antt =====
-- server.py: two clients under a limit of two calls in a window.
use Prim.Native.Nat.{◌≤◌}
use cwa_e_book_translate_plu.Prelude.{
  ◌≡◌, refl, arith, ◌⊎◌, false, List, [], ◌∷◌, codes, text_eq, length, ltb,
}
use cwa_e_book_translate_plu.Dict.{has_key, get_or, assign, keep_values, delete_key}
use cwa_e_book_translate_plu.Admission.{
  Limits, active, is_active, reclaim, admit, check_window_rate_limit, cleanup_rate_limits, Event,
  checks, cleans, fresh, step, run, acquire_auth_inflight, release_auth_inflight,
}
use cwa_e_book_translate_plu.Admission.Active.{times_of}
use cwa_e_book_translate_plu.Admission.Window.{InOrder, run-within, check_window_rate_limit-verdict}
use cwa_e_book_translate_plu.Admission.Inflight
use cwa_e_book_translate_plu.Admission.Inflight.{count_of, run-held}

abbrev limits : Limits
limits = record { window = 60; max_clients = 2; limit = 2; max_inflight = 1 }

-- The third call of the first client is refused, and a third client has no room.
abbrev calls : List Event
calls =
    checks (codes "a") 1
    ∷ checks (codes "a") 2
    ∷ checks (codes "a") 3
    ∷ checks (codes "b") 4
    ∷ checks (codes "c") 5
    ∷ cleans 62
    ∷ []

program : Unit {0}
unfolding has_key get_or assign keep_values delete_key active is_active reclaim admit
    check_window_rate_limit cleanup_rate_limits step run acquire_auth_inflight release_auth_inflight
    text_eq
program = tt

who_is_admitted :
    (run limits fresh calls).admitted ≡ (codes "a", 1) ∷ (codes "a", 2) ∷ (codes "b", 4) ∷ []
unfolding program
who_is_admitted = refl

in_order : InOrder 0 calls 62
in_order = ground arith

run-within_example :
    (length (active 60 62 (times_of (codes "b") (run limits fresh calls).admitted)) ≤ 2)
    × (length (run limits fresh calls).store ≤ 2)
run-within_example = run-within limits calls 62 (codes "b") (omega arith) in_order

check_window_rate_limit-verdict_example :
    ((check_window_rate_limit limits (run limits fresh calls).store (codes "c") 62).1
      ≡ ltb (length (active 60 62 (times_of (codes "c") (run limits fresh calls).admitted))) 2)
    ⊎ ((check_window_rate_limit limits (run limits fresh calls).store (codes "c") 62).1 ≡ false)
      × (has_key (codes "c") (run limits fresh calls).store ≡ false)
      × (2 ≤ length (reclaim limits (run limits fresh calls).store (codes "c") 62))
check_window_rate_limit-verdict_example =
    check_window_rate_limit-verdict limits calls 62 (codes "c") (omega arith) in_order

abbrev requests : List Inflight.Event
requests =
    Inflight.enters (codes "a")
    ∷ Inflight.enters (codes "a")
    ∷ Inflight.enters (codes "b")
    ∷ Inflight.leaves 1
    ∷ []

run-held_example :
    (count_of (codes "a") (Inflight.run limits Inflight.fresh requests).holders ≤ 1)
    × (length (Inflight.run limits Inflight.fresh requests).slots ≤ 2)
    × ((Inflight.run limits Inflight.fresh requests).holders ≡ []
        → (Inflight.run limits Inflight.fresh requests).slots ≡ [])
run-held_example = run-held limits requests (codes "a")
