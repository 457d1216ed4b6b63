-- ===== src/Auth/Tests.antt =====
-- auth.py: a session that was admitted before, and a forwarded request.
use Prim.Native.Nat.{◌<◌}
use cwa_e_book_translate_plu.Prelude.{
  ℕ, ◌+◌, ◌≡◌, refl, ◌⊎◌, true, ok, List, [], ◌∷◌, ◌++◌, Option, none, some, Text, codes, text_eq,
  strip, lstrip, is_space, is_blank, split_on, split_parts, join_by,
}
use cwa_e_book_translate_plu.Dict.{delete_key}
use cwa_e_book_translate_plu.Digest.{encode, encode_inj}
use cwa_e_book_translate_plu.Auth.{
  forwarded, cwa_session, AuthIdentity, CwaSessionBinding, Headers, Config, find, get, put,
  is_control, is_safe_token, is_valid_address, is_valid_agent, validated_cwa_binding, agent_part,
  cwa_decision_key, selected, selected_cookies, cwa_keys, decide, authenticate_cwa_session,
  is_alphanumeric, is_role_char, is_role, is_subject, authenticate_forwarded,
}
use cwa_e_book_translate_plu.Auth.Bounded.{Attempt, run}
use cwa_e_book_translate_plu.Auth.Forwarded.{IsTrusted, authenticate_forwarded-IsTrusted}
use cwa_e_book_translate_plu.Auth.Vouched.{Vouched, authenticate_cwa_session-Vouched}

abbrev config : Config
config = record {
  mode = cwa_session;
  api_token = codes "k";
  cookie_names = codes "session" ∷ [];
  ttl = 10;
  max_entries = 2;
  session_hash = λ t. t;
  decision_hash = encode;
  parse_cookies = λ t. some ((codes "session", t) ∷ []);
  is_ip = λ t. true;
  in_networks = λ t. true;
}

abbrev headers : Headers
headers = record {
  x_bt_token = [];
  cookie = codes "v";
  forwarded_subject = [];
  forwarded_roles = [];
}

abbrev binding : Option CwaSessionBinding
binding = some (record { cwa_remote_addr = codes "1.2.3.4"; user_agent = none })

abbrev attempts : List Attempt
attempts =
    record { headers = headers; binding = binding; now = 1; probed = some true; put_now = 2 } ∷ []

abbrev identity : AuthIdentity
identity = record { subject = codes "cwa-session:session=v"; roles = []; mode = cwa_session }

program : Unit {0}
unfolding text_eq strip lstrip is_space is_blank split_on split_parts join_by delete_key find get
    put is_control is_safe_token is_valid_address is_valid_agent validated_cwa_binding agent_part
    cwa_decision_key selected selected_cookies cwa_keys decide authenticate_cwa_session
    is_alphanumeric is_role_char is_role is_subject authenticate_forwarded run
program = tt

from_cache :
    (authenticate_cwa_session config (run config [] attempts) headers binding 11 none 0).1
    ≡ ok identity
unfolding program
from_cache = refl

authenticate_cwa_session-Vouched_example :
    (session_key : Text) × (key : Text) × (cwa_keys config headers binding ≡ ok (session_key, key))
    × (identity.subject ≡ codes "cwa-session:" ++ session_key)
    × ((none ≡ some true)
        ⊎ ((at : ℕ) × (11 < at + 10) × Vouched config attempts session_key binding at))
authenticate_cwa_session-Vouched_example =
    authenticate_cwa_session-Vouched config attempts headers binding 11 none 0 identity encode_inj
      from_cache

abbrev edge : Headers
edge = record {
  x_bt_token = [];
  cookie = [];
  forwarded_subject = codes "ann";
  forwarded_roles = codes "reader, admin";
}

abbrev ann : AuthIdentity
ann = record {
  subject = codes "forwarded:ann";
  roles = codes "reader" ∷ codes "admin" ∷ [];
  mode = forwarded;
}

is_forwarded : authenticate_forwarded config edge (some (codes "10.0.0.1")) ≡ ok ann
unfolding program
is_forwarded = refl

authenticate_forwarded-IsTrusted_example : IsTrusted config edge (some (codes "10.0.0.1")) ann
authenticate_forwarded-IsTrusted_example =
    authenticate_forwarded-IsTrusted config edge (some (codes "10.0.0.1")) ann is_forwarded
