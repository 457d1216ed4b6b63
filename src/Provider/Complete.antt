-- ===== src/Provider/Complete.antt =====
-- translator.py, _complete: the privacy boundary of the fallback, and the end of a rate-limited call.
use cwa_e_book_translate_plu.Prelude.{
  ℕ, suc, ◌+◌, ◌≡◌, refl, ◌⊎◌, inl, inr, Bool, true, false, String, Text, err, Option, none, some,
  List, [], ◌∷◌, arith, All, ap, if◌then◌else◌, Bool-cases,
}
use cwa_e_book_translate_plu.Provider.{
  Provider, Locality, local, remote, World, Attempt, request_failed, try_once, CallError,
  CallResult, translated, over_budget, call_failed, call_crashed,
}
use cwa_e_book_translate_plu.Provider.Call.{
  is_retryable, call_provider, eligible_providers, Completion, completed, ran_out, unavailable,
  complete_loop, complete, settle, unavailable_after,
}
use cwa_e_book_translate_plu.Provider.Retry.{call_provider-not_retryable}

-- The result names a provider with the property.
abbrev NamedBy : (Provider → Type 0) → World × Completion → Type 0
NamedBy P r =
    (t : Text) (ns : String)
    → r.1 ≡ completed t ns
    → (p : Provider) × P p × (ns ≡ p.cache_namespace)

complete_loop-NamedBy :
    (P : Provider → Type 0) (input : Text) (timeout max_tokens max_retries : ℕ)
    (env : ℕ → ℕ → Attempt) (i : ℕ) (ps : List Provider) (last : Option CallError) (w : World)
    → All P ps
    → NamedBy P (complete_loop input timeout max_tokens max_retries env i ps last w)
unfolding complete_loop
complete_loop-NamedBy P input timeout max_tokens max_retries env i [] last w h =
    λ t ns e. ground arith
complete_loop-NamedBy P input timeout max_tokens max_retries env i (p ∷ ps) last w h =
    go (call_provider p input timeout max_tokens max_retries (env i) w) (λ e v.
      complete_loop-NamedBy P input timeout max_tokens max_retries env (i + 1) ps (some e) v h.1)
  where
    go :
        (r : World × CallResult)
        → ((e : CallError) (v : World)
            → NamedBy P
                (complete_loop input timeout max_tokens max_retries env (i + 1) ps (some e) v))
        → NamedBy P (elim r.1 [
          | translated t ↦ (r.0, completed t p.cache_namespace)
          | over_budget r' ↦ (r.0, ran_out r')
          | call_crashed ↦ (r.0, unavailable_after last)
          | call_failed e ↦ elim e.fallback_eligible [
            | true ↦ complete_loop input timeout max_tokens max_retries env (i + 1) ps (some e) r.0
            | false ↦ (r.0, unavailable_after (some e))
          ]
        ])
    go (v, translated x) rest = λ t ns e. (p, h.0, cc)
    go (v, over_budget x) rest = λ t ns e. cc
    go (v, call_crashed) rest = λ t ns e. ground arith
    go (v, call_failed x) rest = λ t ns e. elim (Bool-cases x.fallback_eligible) [
      | inl yes_ ↦ rest x v t ns (rw yes_ at e)
      | inr no_ ↦ ground arith
    ]

-- The primary provider; the fallback if it is local, or if the request consented to the cloud.
abbrev pub MayServe : Provider → Option Provider → Bool → Provider → Type 0
MayServe primary fallback allow p =
    (p ≡ primary) ⊎ ((fallback ≡ some p) × ((p.locality ≡ local) ⊎ (allow ≡ true)))

eligible-MayServe :
    (primary : Provider) (fallback : Option Provider) (allow : Bool)
    → All (MayServe primary fallback allow) (eligible_providers primary fallback allow)
unfolding eligible_providers
eligible-MayServe primary none allow = (inl refl, tt)
eligible-MayServe primary (some fallback) allow = ground arith

-- A text is attributed to the primary provider, or to the fallback where that is local or the
-- request consented to a cloud fallback; to nothing else.
pub complete-MayServe :
    (primary : Provider) (fallback : Option Provider) (input : Text)
    (timeout max_tokens max_retries : ℕ) (allow : Bool) (env : ℕ → ℕ → Attempt) (w : World)
    (t : Text) (ns : String)
    → (complete primary fallback input timeout max_tokens max_retries allow env w).1
      ≡ completed t ns
    → (p : Provider) × MayServe primary fallback allow p × (ns ≡ p.cache_namespace)
unfolding complete
complete-MayServe primary fallback input timeout max_tokens max_retries allow env w t ns e =
    complete_loop-NamedBy (MayServe primary fallback allow) input timeout max_tokens max_retries env
      0 (eligible_providers primary fallback allow) none w
      (eligible-MayServe primary fallback allow) t ns e

-- Without consent a remote fallback is as good as none: the whole run is the same, the calls made
-- and the counters included.
pub complete-no_consent :
    (primary fallback : Provider) (input : Text) (timeout max_tokens max_retries : ℕ)
    (env : ℕ → ℕ → Attempt) (w : World)
    → fallback.locality ≡ remote
    → complete primary (some fallback) input timeout max_tokens max_retries false env w
      ≡ complete primary none input timeout max_tokens max_retries false env w
unfolding complete eligible_providers
complete-no_consent primary fallback input timeout max_tokens max_retries env w h = ground arith

eligible-cons :
    (primary : Provider) (fallback : Option Provider) (allow : Bool)
    → (ps : List Provider) × (eligible_providers primary fallback allow ≡ primary ∷ ps)
unfolding eligible_providers
eligible-cons primary none allow = ([], refl)
eligible-cons primary (some fallback) allow = go fallback.locality allow
  where
    go :
        (l : Locality) (b : Bool)
        → (ps : List Provider) × ((elim l [
          | local ↦ primary ∷ fallback ∷ []
          | remote ↦ if b then primary ∷ fallback ∷ [] else primary ∷ []
        ])
            ≡ primary ∷ ps)
    go local b = (fallback ∷ [], refl)
    go remote true = (fallback ∷ [], refl)
    go remote false = ([], refl)

-- A primary provider that answers with status 429 ends the completion: it is called once, no
-- fallback is called, and the caller gets the rate-limit code with the provider's Retry-After.
pub complete-rate_limited :
    (primary : Provider) (fallback : Option Provider) (input : Text) (timeout max_tokens n : ℕ)
    (allow : Bool) (env : ℕ → ℕ → Attempt) (w w' : World) (recorded transient : Bool)
    (after : Option ℕ)
    → try_once primary input timeout max_tokens w (env 0 0)
      ≡ (w', recorded, err (request_failed 429 transient after))
    → complete primary fallback input timeout max_tokens (suc n) allow env w ≡ (
      settle w' recorded (request_failed 429 transient after),
      unavailable "provider_rate_limited" after,
    )
unfolding complete complete_loop unavailable_after is_retryable
complete-rate_limited primary fallback input timeout max_tokens n allow env w w' recorded transient
      after e =
    let (ps, first) = eligible-cons primary fallback allow in
    let failed =
      call_provider-not_retryable primary input timeout max_tokens n (env 0) w w' recorded transient
        429 after e refl in
    rw (first, complete)
      (rw (failed, complete_loop)
        (ap (λ r. (r.0, unavailable "provider_rate_limited" after)) failed))
