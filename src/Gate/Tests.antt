-- ===== src/Gate/Tests.antt =====
-- server.py: a request through a trusted proxy, and the hook on an empty state.
use cwa_e_book_translate_plu.Prelude.{
  ◌≡◌, refl, ◌⊎◌, true, false, ◌&&◌, [], ◌∷◌, ◌++◌, some, Text, codes, text_eq, strip, lstrip,
  is_space, split_on, split_parts,
}
use cwa_e_book_translate_plu.Dict.{has_key, get_or, assign, keep_values, delete_key}
use cwa_e_book_translate_plu.Admission.{
  Limits, active, is_active, reclaim, admit, check_window_rate_limit, acquire_auth_inflight,
  release_auth_inflight,
}
use cwa_e_book_translate_plu.Gate.{
  Proxies, client_ip, last_hop, Request, is_session_exchange, is_protected, is_counted, identity,
  rejected, proceeds, auth_limited, State, Config, authenticated_key, admit_auth, admit_api,
  settle_auth, before_request_hook,
}
use cwa_e_book_translate_plu.Gate.Address.{client_ip-is_trusted, client_ip-last_hop}
use cwa_e_book_translate_plu.Gate.Admitted.{
  before_request_hook-proceeds, before_request_hook-refused, before_request_hook-inflight,
}

abbrev proxies : Proxies
proxies = record {
  has_networks = true;
  host = [];
  trust_any = true;
  is_ip = λ t. true;
  same_address = text_eq;
  in_networks = λ t. text_eq t (codes "10.0.0.1");
}

program : Unit {0}
unfolding text_eq strip lstrip is_space split_on split_parts last_hop client_ip is_session_exchange
    is_protected is_counted has_key get_or assign keep_values delete_key active is_active reclaim
    admit check_window_rate_limit acquire_auth_inflight release_auth_inflight admit_auth admit_api
    settle_auth before_request_hook
program = tt

client_ip-is_trusted_example :
    client_ip proxies [] (some (codes "10.0.0.9")) (codes "1.2.3.4") ≡ codes "10.0.0.9"
unfolding program
client_ip-is_trusted_example =
    client_ip-is_trusted proxies [] (some (codes "10.0.0.9")) (codes "1.2.3.4") refl

client_ip-last_hop_example :
    client_ip proxies [] (some (codes "10.0.0.1")) (codes "9.9.9.9" ++ 44 ∷ codes " 1.2.3.4")
    ≡ strip (codes " 1.2.3.4")
unfolding program
client_ip-last_hop_example =
    client_ip-last_hop proxies [] (some (codes "10.0.0.1")) (codes "9.9.9.9") (codes " 1.2.3.4")
      refl refl refl

abbrev limits : Limits
limits = record { window = 60; max_clients = 2; limit = 1; max_inflight = 1 }

abbrev config : Config
config = record { auth = limits; api = limits }

abbrev idle : State
idle = record { auth_rates = []; inflight = []; rates = []; outcomes = [] }

abbrev spent : State
spent = record idle { auth_rates = (codes "ip", 5 ∷ []) ∷ [] }

abbrev request : Request
request = record { is_reader_session = false; method = codes "POST"; path = codes "/translate" }

is_guarded : is_protected request ≡ true
unfolding program
is_guarded = refl

through :
    (before_request_hook config idle request (codes "ip") 5 (identity (codes "u")) 6).1
    ≡ proceeds (some (codes "u"))
unfolding program
through = refl

before_request_hook-proceeds_example :
    (name : Text) × (some (codes "u") ≡ some name)
    × (identity (codes "u") ≡ identity name)
    × ((check_window_rate_limit limits [] (codes "ip") 5).1 ≡ true)
    × ((acquire_auth_inflight limits [] (codes "ip")).1 ≡ true)
    × ((is_counted request ≡ false)
        ⊎ ((check_window_rate_limit limits [] (authenticated_key name) 6).1 ≡ true))
before_request_hook-proceeds_example =
    before_request_hook-proceeds config idle request (codes "ip") 5 (identity (codes "u")) 6
      (some (codes "u")) is_guarded through

is_spent :
    ((check_window_rate_limit limits spent.auth_rates (codes "ip") 6).1
      && (acquire_auth_inflight limits [] (codes "ip")).1)
    ≡ false
unfolding program
is_spent = refl

before_request_hook-refused_example :
    (before_request_hook config spent request (codes "ip") 6 rejected 7
      ≡ before_request_hook config spent request (codes "ip") 6 (identity (codes "u")) 8)
    × ((before_request_hook config spent request (codes "ip") 6 rejected 7).1 ≡ auth_limited)
    × ((before_request_hook config spent request (codes "ip") 6 rejected 7).0.rates ≡ [])
    × ((before_request_hook config spent request (codes "ip") 6 rejected 7).0.inflight ≡ [])
before_request_hook-refused_example =
    before_request_hook-refused config spent request (codes "ip") 6 rejected (identity (codes "u"))
      7 8 is_guarded is_spent

before_request_hook-inflight_example :
    get_or 0
      (codes "ip")
      (before_request_hook config idle request (codes "ip") 5 rejected 6).0.inflight
    ≡ get_or 0 (codes "ip") []
before_request_hook-inflight_example =
    before_request_hook-inflight config idle request (codes "ip") 5 rejected 6 (codes "ip")
