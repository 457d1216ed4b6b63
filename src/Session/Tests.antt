-- ===== src/Session/Tests.antt =====
-- reader_session.py: a broker for Calibre-Web-Automated, and one browser.
use cwa_e_book_translate_plu.Prelude.{
  All, ◌≡◌, refl, ◌<◌, ◌≤◌, ◌+◌, arith, Text, codes, text_eq, is_blank, strip, lstrip, is_space,
  split_once, split_on, ok, err, List, [], ◌∷◌, ◌++◌, some, length,
}
use cwa_e_book_translate_plu.Session.{
  rejected, Headers, Binding, get, without, parse_cookie_header, parse_parts, parse_cookie,
  is_token, is_clean, is_cookie_name, is_name_char, binding_parts, agent_bytes,
}
use cwa_e_book_translate_plu.Session.Credentials.{
  cwa, pick, is_cwa_name, cwa_credentials, credentials,
}
use cwa_e_book_translate_plu.Session.Broker.{
  Broker, Exchange, SessionIssue, Sessions, hmac, token_digest, hex, subject_of, validate_origin,
  find, remove, put_last, alive, evict, remove_token, remove_prior, new_record, prepare, store,
  exchange, sole_token, presented, admit, authenticate, revoke, revoke_token,
}
use cwa_e_book_translate_plu.Session.Credentials.{Credentials, cookies}
use cwa_e_book_translate_plu.Session.Probe.{items, Response, absent, Authority}
use cwa_e_book_translate_plu.Session.Forwarded.{IsForeign, credentials-IsForeign}
use cwa_e_book_translate_plu.Session.Owner.{Presents, exchange-authenticate}
use cwa_e_book_translate_plu.Session.Kept.{DrawsOther, authenticate-same_owner}
use cwa_e_book_translate_plu.Session.Revoked.{
  Event, exchanged, authenticated, revoked, step, run, revoke-authenticate, run-bounded,
}

abbrev broker : Broker
broker = record {
  reader_type = cwa;
  connector_id = codes "c";
  public_origin = codes "https://b";
  cookie_name = codes "bt";
  ttl = 300000;
  max_entries = 2;
  mac = λ m. m;
  compress = some;
}

abbrev token_a : Text
token_a = codes "aaaaaaaaaaaaaaaaaaaaaaaaaaaaaaaa"

abbrev token_b : Text
token_b = codes "bbbbbbbbbbbbbbbbbbbbbbbbbbbbbbbb"

abbrev gets : Text → Exchange
gets t = record { probe = λ c b. ok (codes "u"); token = t; now = 1000 }

abbrev login : Headers
login = record {
  origin = codes "https://b";
  fetch_site = [];
  authorization = [];
  cookie = codes "session=s";
}

abbrev again : Headers
again = record login { cookie = codes "session=s; bt=" ++ token_a }

abbrev shows : Text → Headers
shows t = record { origin = []; fetch_site = []; authorization = []; cookie = codes "bt=" ++ t }

abbrev browser : Binding
browser = record { cwa_remote_addr = codes "1.2.3.4"; user_agent = some (codes "ua") }

program : Unit {0}
unfolding text_eq is_blank strip lstrip is_space split_once split_on get without parse_cookie_header
    parse_parts parse_cookie is_token is_clean is_cookie_name is_name_char binding_parts agent_bytes
    pick is_cwa_name cwa_credentials credentials hmac token_digest hex subject_of validate_origin
    find remove put_last alive evict remove_token remove_prior new_record prepare store exchange
    sole_token presented admit authenticate revoke revoke_token Presents step run
program = tt

abbrev subject : Text
subject = subject_of broker (codes "u")

abbrev issue : SessionIssue
issue = record { token = token_a; subject = subject; expires_in = 300000 }

abbrev logged_in : Sessions
logged_in = (exchange broker (gets token_a) login browser []).0

issued : (exchange broker (gets token_a) login browser []).1 ≡ ok issue
unfolding program
issued = refl

exchange-authenticate_example :
    (authenticate broker 2000 (shows token_a) browser logged_in).1 ≡ ok subject
unfolding Presents program
exchange-authenticate_example =
    exchange-authenticate broker (gets token_a) login (shows token_a) browser [] issue 2000
      (ground arith) issued (refl, refl) (ground arith) (ground arith)

abbrev bound : Text × Text
bound = (codes "1.2.3.4", 1 ∷ codes "ua")

-- a use of the session, and an exchange that is refused for its cookie
abbrev uses : List Event
uses = authenticated 1500 (shows token_a) browser ∷ exchanged (gets token_b) login browser ∷ []

other_tokens : All (DrawsOther token_a) uses
unfolding program
other_tokens = (tt, ((λ e. ground arith), tt))

authenticate-same_owner_example :
    (2000 < 1000 + 300000) × (subject ≡ subject) × (binding_parts some browser ≡ ok bound)
unfolding program
authenticate-same_owner_example =
    authenticate-same_owner broker (gets token_a) login (shows token_a) browser browser [] issue
      uses 2000 bound subject (λ u v e. e) issued other_tokens refl refl

revoke-authenticate_example :
    let after = (revoke broker 2000 (shows token_a) browser logged_in).0 in
    authenticate broker 3000 (shows token_a) browser after ≡ (after, err rejected)
unfolding program
revoke-authenticate_example =
    revoke-authenticate broker 2000 (shows token_a) browser logged_in ((codes "bt", token_a) ∷ [])
      token_a 3000 (shows token_a) browser bound refl refl refl refl refl

abbrev events : List Event
events =
    exchanged (gets token_a) login browser
    ∷ authenticated 2000 (shows token_a) browser
    ∷ revoked 3000 (shows token_a) browser
    ∷ []

run-bounded_example : length (run broker events []) ≤ 2
run-bounded_example = run-bounded broker events [] (ground arith)

credentials-IsForeign_example :
    All
      (IsForeign (codes "bt") ((codes "session", codes "s") ∷ (codes "bt", token_a) ∷ []))
      ((codes "session", codes "s") ∷ [])
unfolding program
credentials-IsForeign_example =
    credentials-IsForeign cwa (codes "bt") again
      ((codes "session", codes "s") ∷ (codes "bt", token_a) ∷ [])
      ((codes "session", codes "s") ∷ []) (some token_a) refl refl

abbrev authority : Authority
authority = record {
  reader_type = cwa;
  reader_version = [];
  timeout = 2000;
  max_response_bytes = 8;
  sha256 = λ t. t;
  loads = λ t. some (items []);
  compress = some;
}

abbrev answer : Response
answer = record {
  arrived = 20;
  status = 200;
  content_type = codes "application/json";
  declared = absent;
  chunks = (30, codes "[]") ∷ [];
}

abbrev proof : Credentials
proof = cookies ((codes "session", codes "s") ∷ [])
