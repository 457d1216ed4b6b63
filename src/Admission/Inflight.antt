-- ===== src/Admission/Inflight.antt =====
-- server.py: the slots of the authentication that is under way. A request that has acquired a slot
-- releases it once, in the `finally` of `before_request_hook`.
use Prim.Native.Nat.{◌≤◌, ◌<◌}
use cwa_e_book_translate_plu.Prelude.{
  subst, ap, ◌∙◌, ℕ, zero, suc, ◌+◌, ◌-◌, ◌≡◌, refl, arith, ◌⊎◌, inl, inr, true, false, Bool-cases,
  Option-cases, ◌&&◌, List, [], ◌∷◌, none, some, some_inj, Text, text_eq, text_eq_refl, length,
  get_elem?, leb, if◌then◌else◌,
}
use cwa_e_book_translate_plu.Dict.{
  has_key, get_or, assign, delete_key, same_key, get_or-assign_same, get_or-assign_other,
  length-assign_known, length-assign_le, get_or-delete_key_same, get_or-delete_key_other,
  length-delete_key,
}
use cwa_e_book_translate_plu.Admission.{Limits, Slots, acquire_auth_inflight, release_auth_inflight}

pub data Event : Type 0 where
  enters : Text → Event
  leaves : ℕ → Event

-- The slots, and the clients of the requests that have one.
pub record Progress : Type 0 where
  pub slots : Slots
  pub holders : List Text

abbrev pub fresh : Progress
fresh = record { slots = []; holders = [] }

abbrev remove_at : ℕ → List Text → List Text
remove_at i [] = []
remove_at zero (k ∷ ks) = ks
remove_at (suc i) (k ∷ ks) = k ∷ remove_at i ks

unfoldable pub step : Limits → Progress → Event → Progress
unfolding acquire_auth_inflight release_auth_inflight
step c p (enters key) =
    let (slots, verdict) = acquire_auth_inflight c p.slots key in
    record { slots = slots; holders = if verdict then key ∷ p.holders else p.holders }
step c p (leaves i) = elim (get_elem? p.holders i) [
  | none ↦ p
  | some key ↦ record { slots = release_auth_inflight p.slots key; holders = remove_at i p.holders }
]

unfoldable pub run : Limits → Progress → List Event → Progress
run c p [] = p
run c p (e ∷ es) = run c (step c p e) es

abbrev pub count_of : Text → List Text → ℕ
count_of k [] = 0
count_of k (j ∷ js) = (if text_eq j k then 1 else 0) + count_of k js

count_of-remove_at :
    (k j : Text) (i : ℕ) (js : List Text)
    → get_elem? js i ≡ some j
    → count_of k js ≡ (if text_eq j k then 1 else 0) + count_of k (remove_at i js)
count_of-remove_at k j i [] e = ground arith
count_of-remove_at k j zero (x ∷ js) e =
    ap (λ y. (if text_eq y k then 1 else 0) + count_of k js) (some_inj e)
count_of-remove_at k j (suc i) (x ∷ js) e = omega (arith, count_of-remove_at k j i js e)

abbrev Positive : Slots → Type 0
Positive [] = Unit
Positive ((k, n) ∷ d) = (0 < n) × Positive d

assign-Positive : (k : Text) (n : ℕ) (d : Slots) → 0 < n → Positive d → Positive (assign k n d)
unfolding assign
assign-Positive k n [] h p = (h, tt)
assign-Positive k n ((j, m) ∷ d) h p = elim (Bool-cases (text_eq j k)) [
  | inl e ↦ rw (e, assign) (h, p.1)
  | inr e ↦ rw (e, assign) (p.0, assign-Positive k n d h p.1)
]

delete_key-Positive : (k : Text) (d : Slots) → Positive d → Positive (delete_key k d)
unfolding delete_key
delete_key-Positive k [] p = tt
delete_key-Positive k ((j, m) ∷ d) p = elim (Bool-cases (text_eq j k)) [
  | inl e ↦ rw (e, delete_key) (delete_key-Positive k d p.1)
  | inr e ↦ rw (e, delete_key) (p.0, delete_key-Positive k d p.1)
]

has_key-Positive : (k : Text) (d : Slots) → Positive d → 0 < get_or 0 k d → has_key k d ≡ true
unfolding has_key get_or
has_key-Positive k [] p h = absurd (omega (arith, h))
has_key-Positive k ((j, m) ∷ d) p h = ground (arith, has_key-Positive k d p.1)

record IsHeld (c : Limits) (p : Progress) : Type 0 where
  counted : (k : Text) → get_or 0 k p.slots ≡ count_of k p.holders
  below : (k : Text) → count_of k p.holders ≤ c.max_inflight
  positive : Positive p.slots
  room : length p.slots ≤ c.max_clients

module _ (c : Limits) (p : Progress) (key : Text) (t : IsHeld c p) where
  acquired-IsHeld :
      get_or 0 key p.slots < c.max_inflight
      → (0 < get_or 0 key p.slots) ⊎ (length p.slots < c.max_clients)
      → IsHeld c (record {
        slots = assign key (get_or 0 key p.slots + 1) p.slots;
        holders = key ∷ p.holders;
      })
  acquired-IsHeld l r = record {
    counted = λ k. elim (Bool-cases (text_eq key k)) [
      | inl e ↦
          subst
            (λ j.
              get_or 0 j (assign key (get_or 0 key p.slots + 1) p.slots)
              ≡ count_of j (key ∷ p.holders))
            (same_key e)
            (get_or-assign_same 0 key (get_or 0 key p.slots + 1) p.slots
              ∙ ground (arith, text_eq_refl key, t.counted key))
      | inr e ↦
          get_or-assign_other 0 k key (get_or 0 key p.slots + 1) p.slots e
          ∙ ground (arith, e, t.counted k)
    ];
    below = λ k. elim (Bool-cases (text_eq key k)) [
      | inl e ↦
          subst (λ j. count_of j (key ∷ p.holders) ≤ c.max_inflight) (same_key e)
            (ground (arith, text_eq_refl key, t.counted key, l))
      | inr e ↦ ground (arith, e, t.below k)
    ];
    positive = assign-Positive key (get_or 0 key p.slots + 1) p.slots (omega arith) t.positive;
    room = elim r [
      | inl h ↦ omega (
        arith,
        length-assign_known key (get_or 0 key p.slots + 1) p.slots
            (has_key-Positive key p.slots t.positive h),
        t.room,
      )
      | inr h ↦ omega (arith, length-assign_le key (get_or 0 key p.slots + 1) p.slots, h)
    ];
  }

  enters-IsHeld : IsHeld c (step c p (enters key))
  unfolding step acquire_auth_inflight
  enters-IsHeld = elim (Bool-cases (leb c.max_inflight (get_or 0 key p.slots))) [
    | inl e ↦
        rw (e, acquire_auth_inflight, step)
          (record { counted = t.counted; below = t.below; positive = t.positive; room = t.room })
    | inr e ↦
        elim (Bool-cases (leb (get_or 0 key p.slots) 0 && leb c.max_clients (length p.slots))) [
          | inl f ↦
              rw (e, f, acquire_auth_inflight, step)
                (record {
                  counted = t.counted;
                  below = t.below;
                  positive = t.positive;
                  room = t.room;
                })
          | inr f ↦
              rw (e, f, acquire_auth_inflight, step)
                (acquired-IsHeld (ground (arith, e)) (room_for f))
        ]
  ]
    where
      room_for :
          (leb (get_or 0 key p.slots) 0 && leb c.max_clients (length p.slots)) ≡ false
          → (0 < get_or 0 key p.slots) ⊎ (length p.slots < c.max_clients)
      room_for f = ground (arith, f)

  released-IsHeld :
      (i : ℕ)
      → get_elem? p.holders i ≡ some key
      → IsHeld c
          (record { slots = release_auth_inflight p.slots key; holders = remove_at i p.holders })
  unfolding release_auth_inflight
  released-IsHeld i g = record {
    counted = λ k. elim (Bool-cases (text_eq key k)) [
      | inl e ↦
          subst
            (λ j.
              get_or 0 j (release_auth_inflight p.slots key) ≡ count_of j (remove_at i p.holders))
            (same_key e)
            (ground (
              arith,
              text_eq_refl key,
              count_of-remove_at key key i p.holders g,
              t.counted key,
              get_or-delete_key_same 0 key p.slots,
              get_or-assign_same 0 key (get_or 0 key p.slots - 1) p.slots,
            ))
      | inr e ↦ ground (
        arith,
        e,
        count_of-remove_at k key i p.holders g,
        t.counted k,
        get_or-delete_key_other 0 k key p.slots e,
        get_or-assign_other 0 k key (get_or 0 key p.slots - 1) p.slots e,
      )
    ];
    below = λ k. omega (arith, count_of-remove_at k key i p.holders g, t.below k);
    positive = elim (Bool-cases (leb (get_or 0 key p.slots) 1)) [
      | inl e ↦ rw (e, release_auth_inflight) (delete_key-Positive key p.slots t.positive)
      | inr e ↦
          rw (e, release_auth_inflight)
            (assign-Positive key (get_or 0 key p.slots - 1) p.slots (ground (arith, e)) t.positive)
    ];
    room = elim (Bool-cases (leb (get_or 0 key p.slots) 1)) [
      | inl e ↦ rw (e, release_auth_inflight) (omega (arith, length-delete_key key p.slots, t.room))
      | inr e ↦
          rw (e, release_auth_inflight)
            (omega (
              arith,
              length-assign_known key (get_or 0 key p.slots - 1) p.slots
                  (has_key-Positive key p.slots t.positive (ground (arith, e))),
              t.room,
            ))
    ];
  }

step-IsHeld : (c : Limits) (p : Progress) (e : Event) → IsHeld c p → IsHeld c (step c p e)
unfolding step
step-IsHeld c p (enters key) t = enters-IsHeld c p key t
step-IsHeld c p (leaves i) t = elim (Option-cases (get_elem? p.holders i)) [
  | inl e ↦ rw (e, step) t
  | inr (key, e) ↦ rw (e, step) (released-IsHeld c p key t i e)
]

run-IsHeld : (c : Limits) (p : Progress) (es : List Event) → IsHeld c p → IsHeld c (run c p es)
unfolding run
run-IsHeld c p [] t = t
run-IsHeld c p (e ∷ es) t = run-IsHeld c (step c p e) es (step-IsHeld c p e t)

no_slots : (d : Slots) → Positive d → ((k : Text) → get_or 0 k d ≡ 0) → d ≡ []
unfolding get_or
no_slots [] p h = refl
no_slots ((k, n) ∷ d) p h = absurd (ground (arith, h k, text_eq_refl k, p.0))

-- Whatever requests acquire and release slots, no client has more than its maximum under way, the
-- store holds no more clients than its maximum, and when no request has a slot the store is empty.
pub run-held :
    (c : Limits) (events : List Event) (k : Text)
    → let p = run c fresh events in
      (count_of k p.holders ≤ c.max_inflight)
      × (length p.slots ≤ c.max_clients)
      × (p.holders ≡ [] → p.slots ≡ [])
unfolding get_or
run-held c events k =
    let p = run c fresh events in
    let first : IsHeld c fresh = record {
      counted = λ k. refl;
      below = λ k. omega arith;
      positive = tt;
      room = omega arith;
    } in
    let t = run-IsHeld c fresh events first in
    (t.below k, t.room, λ e. no_slots p.slots t.positive (λ k. t.counted k ∙ ap (count_of k) e))
