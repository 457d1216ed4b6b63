-- ===== src/Gate/Admitted.antt =====
-- server.py, `before_request_hook`: which requests proceed, and what a refused request costs.
use cwa_e_book_translate_plu.Prelude.{
  subst, ap, ◌∙◌, ℕ, ◌+◌, ◌-◌, ◌≡◌, refl, arith, true, false, Bool-cases, ◌&&◌, ◌⊎◌, inl, inr,
  Option, none, some, Text, text_eq,
}
use cwa_e_book_translate_plu.Dict.{
  get_or, assign, same_key, get_or-assign_same, get_or-assign_other, get_or-delete_key_same,
  get_or-delete_key_other,
}
use cwa_e_book_translate_plu.Admission.{
  Limits, Slots, check_window_rate_limit, acquire_auth_inflight, release_auth_inflight,
}
use cwa_e_book_translate_plu.Gate.{
  Request, is_protected, is_counted, AuthEnd, identity, rejected, unavailable, broken, proceeds,
  auth_limited, State, Config, authenticated_key, admit_auth, admit_api, settle_auth,
  before_request_hook,
}

-- A protected request that proceeds has been authenticated: the limits on attempts admitted its
-- address, the authority gave the subject that is set, and, where the path is counted, the limit on the
-- API admitted that subject.
pub before_request_hook-proceeds :
    (c : Config) (s : State) (r : Request) (client_key : Text) (auth_now : ℕ) (end : AuthEnd)
    (now : ℕ) (subject : Option Text)
    → is_protected r ≡ true
    → (before_request_hook c s r client_key auth_now end now).1 ≡ proceeds subject
    → (name : Text) × (subject ≡ some name)
      × (end ≡ identity name)
      × ((check_window_rate_limit c.auth s.auth_rates client_key auth_now).1 ≡ true)
      × ((acquire_auth_inflight c.auth s.inflight client_key).1 ≡ true)
      × ((is_counted r ≡ false)
          ⊎ ((check_window_rate_limit c.api s.rates (authenticated_key name) now).1 ≡ true))
unfolding before_request_hook admit_auth settle_auth admit_api
before_request_hook-proceeds c s r client_key auth_now (identity name) now subject p e =
    elim (Bool-cases (check_window_rate_limit c.auth s.auth_rates client_key auth_now).1) [
      | inl a ↦ elim (Bool-cases (acquire_auth_inflight c.auth s.inflight client_key).1) [
        | inl b ↦ elim (Bool-cases (is_counted r)) [
          | inl d ↦
              elim (Bool-cases
                (check_window_rate_limit c.api s.rates (authenticated_key name) now).1) [
                  | inl f ↦ (name, ground (arith, p, a, b, d, f, e), refl, a, b, inr f)
                  | inr f ↦ ground (arith, p, a, b, d, f, e)
                ]
          | inr d ↦ (name, ground (arith, p, a, b, d, e), refl, a, b, inl d)
        ]
        | inr b ↦ ground (arith, p, a, b, e)
      ]
      | inr a ↦ ground (arith, p, a, e)
    ]
before_request_hook-proceeds c s r client_key auth_now rejected now subject p e =
    ground (arith, p, e)
before_request_hook-proceeds c s r client_key auth_now unavailable now subject p e =
    ground (arith, p, e)
before_request_hook-proceeds c s r client_key auth_now broken now subject p e = ground (arith, p, e)

-- If the limits refuse the address of a protected request, neither the authority nor the limit on the
-- API is asked: the answer and the state are the same whatever the authority would say.
pub before_request_hook-refused :
    (c : Config) (s : State) (r : Request) (client_key : Text) (auth_now : ℕ) (end other : AuthEnd)
    (now later : ℕ)
    → is_protected r ≡ true
    → (((check_window_rate_limit c.auth s.auth_rates client_key auth_now).1
          && (acquire_auth_inflight c.auth s.inflight client_key).1)
        ≡ false)
    → (before_request_hook c s r client_key auth_now end now
        ≡ before_request_hook c s r client_key auth_now other later)
      × ((before_request_hook c s r client_key auth_now end now).1 ≡ auth_limited)
      × ((before_request_hook c s r client_key auth_now end now).0.rates ≡ s.rates)
      × ((before_request_hook c s r client_key auth_now end now).0.inflight ≡ s.inflight)
unfolding before_request_hook admit_auth
before_request_hook-refused c s r client_key auth_now end other now later p h =
    elim (Bool-cases (check_window_rate_limit c.auth s.auth_rates client_key auth_now).1) [
      | inl a ↦ elim (Bool-cases (acquire_auth_inflight c.auth s.inflight client_key).1) [
        | inl b ↦ ground (arith, a, b, h)
        | inr b ↦ ground (arith, p, a, b)
      ]
      | inr a ↦ ground (arith, p, a)
    ]

released_others :
    (d : Slots) (key k : Text)
    → text_eq key k ≡ false
    → get_or 0 k (release_auth_inflight d key) ≡ get_or 0 k d
unfolding release_auth_inflight
released_others d key k e = ground (
  arith,
  get_or-delete_key_other 0 k key d e,
  get_or-assign_other 0 k key (get_or 0 key d - 1) d e,
)

released_own :
    (d : Slots) (key : Text) (n : ℕ)
    → get_or 0 key d ≡ n + 1
    → get_or 0 key (release_auth_inflight d key) ≡ n
unfolding release_auth_inflight
released_own d key n e =
    ground
      (arith, e, get_or-delete_key_same 0 key d, get_or-assign_same 0 key (get_or 0 key d - 1) d)

release-acquire :
    (l : Limits) (slots : Slots) (key k : Text)
    → (acquire_auth_inflight l slots key).1 ≡ true
    → get_or 0 k (release_auth_inflight (acquire_auth_inflight l slots key).0 key)
      ≡ get_or 0 k slots
unfolding acquire_auth_inflight
release-acquire l slots key k h =
    let n = get_or 0 key slots in
    let taken : (acquire_auth_inflight l slots key).0 ≡ assign key (n + 1) slots =
      ground (arith, h) in
    let back : get_or 0 k (release_auth_inflight (assign key (n + 1) slots) key)
        ≡ get_or 0 k slots =
      elim (Bool-cases (text_eq key k)) [
        | inl e ↦
            subst
              (λ i.
                get_or 0 i (release_auth_inflight (assign key (n + 1) slots) key)
                ≡ get_or 0 i slots)
              (same_key e)
              (released_own (assign key (n + 1) slots) key n
                (get_or-assign_same 0 key (n + 1) slots))
        | inr e ↦
            released_others (assign key (n + 1) slots) key k e
            ∙ get_or-assign_other 0 k key (n + 1) slots e
      ] in
    ap (λ d. get_or 0 k (release_auth_inflight d key)) taken ∙ back

admit_api-inflight :
    (c : Config) (s : State) (r : Request) (key : Text) (subject : Option Text) (now : ℕ)
    → (admit_api c s r key subject now).0.inflight ≡ s.inflight
unfolding admit_api
admit_api-inflight c s r key subject now = ground arith

settle_auth-inflight :
    (c : Config) (s : State) (r : Request) (key : Text) (end : AuthEnd) (now : ℕ)
    → (settle_auth c s r key end now).0.inflight ≡ release_auth_inflight s.inflight key
unfolding settle_auth
settle_auth-inflight c s r key (identity name) now =
    admit_api-inflight c (record s { inflight = release_auth_inflight s.inflight key }) r
      (authenticated_key name) (some name) now
settle_auth-inflight c s r key rejected now = refl
settle_auth-inflight c s r key unavailable now = refl
settle_auth-inflight c s r key broken now = refl

-- However the authentication of a request ends, the request leaves no slot taken: each client has as
-- many slots after the hook as before it.
pub before_request_hook-inflight :
    (c : Config) (s : State) (r : Request) (client_key : Text) (auth_now : ℕ) (end : AuthEnd)
    (now : ℕ) (k : Text)
    → get_or 0 k (before_request_hook c s r client_key auth_now end now).0.inflight
      ≡ get_or 0 k s.inflight
unfolding before_request_hook admit_auth
before_request_hook-inflight c s r client_key auth_now end now k =
    elim (Bool-cases (is_protected r)) [
      | inr p ↦ ground (arith, p, admit_api-inflight c s r client_key none now)
      | inl p ↦
          elim (Bool-cases (check_window_rate_limit c.auth s.auth_rates client_key auth_now).1) [
            | inr a ↦ ground (arith, p, a)
            | inl a ↦ elim (Bool-cases (acquire_auth_inflight c.auth s.inflight client_key).1) [
              | inr b ↦ ground (arith, p, a, b)
              | inl b ↦
                  let held : State = record s {
                    auth_rates =
                        (check_window_rate_limit c.auth s.auth_rates client_key auth_now).0;
                    inflight = (acquire_auth_inflight c.auth s.inflight client_key).0;
                  } in
                  let settled : (before_request_hook c s r client_key auth_now end now).0
                      ≡ (settle_auth c held r client_key end now).0 =
                    ground (arith, p, a, b) in
                  ap (λ (t : State). get_or 0 k t.inflight) settled
                  ∙ ap (get_or 0 k) (settle_auth-inflight c held r client_key end now)
                  ∙ release-acquire c.auth s.inflight client_key k b
            ]
          ]
    ]
