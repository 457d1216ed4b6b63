-- ===== src/Gate.antt =====
-- server.py: the address that a request is counted under, and `before_request_hook`, which admits a
-- request to authentication, has it authenticated, and admits it to the API.
mod Tests
pub mod Address
pub mod Admitted
use cwa_e_book_translate_plu.Prelude.{
  ℕ, zero, suc, ◌+◌, Bool, true, false, not, ◌&&◌, ◌||◌, List, [], ◌∷◌, ◌++◌, Option, none, some,
  Text, codes, text_eq, strip, is_blank, split_on, ltb, if◌then◌else◌,
}
use cwa_e_book_translate_plu.Batch.{is_empty}
use cwa_e_book_translate_plu.Admission.{
  Limits, Store, Slots, check_window_rate_limit, acquire_auth_inflight, release_auth_inflight,
}

-- The settings of the trusted proxies. `is_ip`, `same_address` and `in_networks` stand for the calls of
-- the ipaddress module: a text is an address, two texts are the same address, and an address is in one
-- of BT_TRUSTED_PROXIES.
pub record Proxies : Type 0 where
  pub has_networks : Bool
  pub host : Text
  pub trust_any : Bool
  pub is_ip : Text → Bool
  pub same_address : Text → Text → Bool
  pub in_networks : Text → Bool

-- `_trusted_proxy_host_cache`; the time is in ticks
pub record HostCache : Type 0 where
  pub host : Text
  pub expires_at : ℕ
  pub addresses : List Text

abbrev pub elem_text : Text → List Text → Bool
elem_text t [] = false
elem_text t (u ∷ us) = text_eq u t || elem_text t us

-- `peer_ip in addresses`
abbrev pub among : Proxies → Text → List Text → Bool
among x peer [] = false
among x peer (a ∷ addresses) = x.same_address peer a || among x peer addresses

-- `_resolved_trusted_proxy_addresses`, with the lifetime of an entry; `resolved` is what the lookup of the
-- host gives, with no addresses where it raises
unfoldable pub resolved_trusted_proxy_addresses :
    ℕ → Proxies → HostCache → ℕ → List Text → HostCache × List Text
resolved_trusted_proxy_addresses lifetime x cache now resolved =
    if is_empty x.host
    then (cache, [])
    else if text_eq cache.host x.host && ltb now cache.expires_at
    then (cache, cache.addresses)
    else (record { host = x.host; expires_at = now + lifetime; addresses = resolved }, resolved)

-- `parts[-1]`
abbrev pub last_part : List Text → Text
last_part [] = []
last_part (t ∷ []) = t
last_part (t ∷ u ∷ us) = last_part (u ∷ us)

-- `request.remote_addr or "unknown"`
abbrev pub peer_of : Option Text → Text
peer_of none = codes "unknown"
peer_of (some t) = if is_empty t then codes "unknown" else t

-- the last hop of X-Forwarded-For, or the empty text
unfoldable pub last_hop : Text → Text
last_hop fwd = if is_empty fwd then [] else strip (last_part (split_on 44 fwd))

-- `_client_ip`; `addresses` are those of the trusted host
unfoldable pub client_ip : Proxies → List Text → Option Text → Text → Text
unfolding last_hop
client_ip x addresses remote_addr fwd =
    let peer = peer_of remote_addr in
    let hop = last_hop fwd in
    if (x.has_networks || not (is_empty x.host)) && not (is_empty hop)
    then if not (x.is_ip peer)
      then peer
      else if x.in_networks peer || among x peer addresses
      then hop
      else peer
    else if x.trust_any && not (is_empty hop)
    then hop
    else peer

-- The request, with whether the mode of authentication is `reader_session`.
pub record Request : Type 0 where
  pub is_reader_session : Bool
  pub method : Text
  pub path : Text

abbrev pub in_paths : Text → List Text → Bool
in_paths path paths = elem_text path paths

unfoldable pub is_session_exchange : Request → Bool
is_session_exchange r =
    r.is_reader_session && text_eq r.path (codes "/session") && text_eq r.method (codes "POST")

-- `protected`
unfoldable pub is_protected : Request → Bool
unfolding is_session_exchange
is_protected r =
    not (text_eq r.method (codes "OPTIONS"))
    && not (in_paths r.path (codes "/health" ∷ codes "/ready" ∷ codes "/ping" ∷ []))
    && not (is_session_exchange r)

-- what the limit on the API applies to
unfoldable pub is_counted : Request → Bool
is_counted r =
    not (text_eq r.method (codes "OPTIONS"))
    && not (
        in_paths r.path (
          codes "/health"
          ∷ codes "/ready"
          ∷ codes "/metrics"
          ∷ codes "/ping"
          ∷ codes "/stats"
          ∷ []))

-- How the authentication of a request ends: the subject of its identity, `AuthRejected`,
-- `AuthUnavailable`, or another exception.
pub data AuthEnd : Type 0 where
  identity : Text → AuthEnd
  rejected unavailable broken : AuthEnd

pub data Outcome : Type 0 where
  auth_rejected auth_unavailable auth_rate_limited api_rate_limited : Outcome

-- What the hook answers; `proceeds` is no answer, with the subject that it has set.
pub data Reply : Type 0 where
  proceeds : Option Text → Reply
  auth_limited api_limited unauthorized authentication_unavailable internal_error : Reply

pub record State : Type 0 where
  pub auth_rates : Store
  pub inflight : Slots
  pub rates : Store
  pub outcomes : List Outcome

-- the limits on attempts to authenticate, and those on the API
pub record Config : Type 0 where
  pub auth : Limits
  pub api : Limits

abbrev pub noted : State → Outcome → State
noted s o = record s { outcomes = o ∷ s.outcomes }

-- the hook as far as the slot; `none` is a request that has one
unfoldable pub admit_auth : Config → State → Text → ℕ → State × Option Reply
admit_auth c s client_key now =
    let (rates, admitted) = check_window_rate_limit c.auth s.auth_rates client_key now in
    let (slots, acquired) = acquire_auth_inflight c.auth s.inflight client_key in
    let counted = record s { auth_rates = rates } in
    if not admitted
    then (noted counted auth_rate_limited, some auth_limited)
    else if not acquired
    then (noted counted auth_rate_limited, some auth_limited)
    else (record counted { inflight = slots }, none)

-- the limit on the API, for the subject that is set
unfoldable pub admit_api : Config → State → Request → Text → Option Text → ℕ → State × Reply
unfolding is_counted
admit_api c s r rate_limit_key subject now =
    let (rates, admitted) = check_window_rate_limit c.api s.rates rate_limit_key now in
    let counted = record s { rates = rates } in
    if is_counted r
    then if admitted
      then (counted, proceeds subject)
      else (noted counted api_rate_limited, api_limited)
    else (s, proceeds subject)

-- `f"authenticated:{identity.subject}"`
abbrev pub authenticated_key : Text → Text
authenticated_key subject = codes "authenticated:" ++ subject

-- the hook from the end of the authentication on, the `finally` first
unfoldable pub settle_auth : Config → State → Request → Text → AuthEnd → ℕ → State × Reply
unfolding admit_api
settle_auth c s r client_key end now =
    let released = record s { inflight = release_auth_inflight s.inflight client_key } in
    elim end [
      | identity subject ↦ admit_api c released r (authenticated_key subject) (some subject) now
      | rejected ↦ (noted released auth_rejected, unauthorized)
      | unavailable ↦ (noted released auth_unavailable, authentication_unavailable)
      | broken ↦ (released, internal_error)
    ]

-- `before_request_hook` of one request at a time: `auth_now` and `now` are the times that the two limits
-- read, and `end` is how the authentication ends if it is asked for
unfoldable pub before_request_hook :
    Config → State → Request → Text → ℕ → AuthEnd → ℕ → State × Reply
unfolding is_protected admit_auth settle_auth admit_api
before_request_hook c s r client_key auth_now end now =
    let (held, reply) = admit_auth c s client_key auth_now in
    let settled = settle_auth c held r client_key end now in
    let direct = admit_api c s r client_key none now in
    if is_protected r then elim reply [ some answer ↦ (held, answer) | none ↦ settled ] else direct
