-- ===== src/Flight/Enter.antt =====
-- singleflight.py: the first lock of `run` keeps the registry, its leaders and its followers sound.
use cwa_e_book_translate_plu.Prelude.{
  ℕ, ◌+◌, ◌<◌, ◌≡◌, refl, inl, inr, Bool, true, false, String, Result, ok, err, List, [], ◌∷◌, ◌++◌,
  none, some, length, length-append, str_eq, eq_iff, eq_refl, arith, All, All-append, Bool-cases,
  Option-cases, ap, ◌∙◌, Value, as_ticks,
}
use cwa_e_book_translate_plu.Flight.{
  Flight, SingleFlight, Entry, Role, following, Error, find, completed, expire_completed, make_room,
  update, new_flight, lead, follow, enter,
}
use cwa_e_book_translate_plu.Flight.Registry.{
  NoKey, KeysDiffer, find-NoKey, Keeps, Keeps-refl, make_room-Keeps, make_room-decides,
}
use cwa_e_book_translate_plu.Flight.Steps.{System, joined}
use cwa_e_book_translate_plu.Flight.Sound.{
  IsOther, IsLeading, IsSound, read-update, length-update, read-append, read-new, IsLeading-move,
  expire-Keeps,
}

find-append_hit :
    (k : String) (r : ℕ) (es : List Entry) (e : Entry)
    → find k es ≡ some r
    → find k (es ++ e ∷ []) ≡ some r
unfolding find
find-append_hit k r [] e h = cc
find-append_hit k r ((j, x) ∷ es) e h = ground (arith, find-append_hit k r es e)

find-append_new :
    (k : String) (r : ℕ) (es : List Entry) → find k es ≡ none → find k (es ++ (k, r) ∷ []) ≡ some r
unfolding find
find-append_new k r [] h = ground (arith, eq_refl k)
find-append_new k r ((j, x) ∷ es) h = ground (arith, find-append_new k r es)

KeysDiffer-append :
    (k : String) (r : ℕ) (es : List Entry)
    → KeysDiffer es
    → NoKey k es
    → KeysDiffer (es ++ (k, r) ∷ [])
KeysDiffer-append k r [] d n = (tt, tt)
KeysDiffer-append k r (e ∷ es) d n = (
  All-append _ es ((k, r) ∷ []) d.0 (ground (arith, n.0, eq_iff e.0 k, eq_iff k e.0), tt),
  KeysDiffer-append k r es d.1 n.1,
)

module _ {A E : Type 0} where
  -- A new leader differs from those that run.
  IsLeading-IsOther :
      (store : List (Flight A E)) (es : List Entry) (k : String) (running : List Entry)
      → find k es ≡ none
      → All (IsLeading store es) running
      → All (IsOther (k, length store)) running
  IsLeading-IsOther store es k [] n h = tt
  IsLeading-IsOther store es k (e ∷ running) n h = (
    (
      elim (Bool-cases (str_eq e.0 k)) [
        | inl y ↦ absurd (ground (arith, ap (λ z. find z es) ((eq_iff e.0 k).0 y), h.0.registered))
        | inr x ↦ x
      ],
      λ q. absurd (omega (arith, h.0.stored, q)),
    ),
    IsLeading-IsOther store es k running n h.1,
  )

  -- The results of `enter`, with what is known of each.
  pub enter_rule :
      (P : SingleFlight A E × Result Error Role → Type 0) (s : SingleFlight A E) (key : String)
      (timeout : Value) (now : ℕ)
      → let live = expire_completed s.store s.result_ttl now s.flights in
        let room = make_room (length live) s.max_entries s.store live in
        P (s, err Error.value_error)
        → ((r : ℕ) → find key live ≡ some r → P (follow s r live))
        → (find key live ≡ none → room.1 ≡ true → P (lead s key now room.0))
        → (find key live ≡ none
            → room.1 ≡ false
            → P (
              record s { flights = room.0; capacity_rejections = s.capacity_rejections + 1 },
              err Error.capacity_error,
            ))
        → P (enter s key timeout now)
  unfolding enter
  enter_rule P s key timeout now invalid follows leads full =
      elim (Option-cases (as_ticks timeout)) [
        | inl e ↦ rw (e, enter) invalid
        | inr (n, e) ↦
            rw (e, enter)
              (elim (Bool-cases (str_eq key "")) [
                | inl y ↦ rw y invalid
                | inr n ↦ rw n (elim (Option-cases (find key live)) [
                  | inr (r, f) ↦ rw f (follows r f)
                  | inl f ↦ rw f (elim (Bool-cases room.1) [
                    | inl y ↦ rw y (leads f y)
                    | inr n ↦ rw n (full f n)
                  ])
                ])
              ])
      ]
    where
      live : List Entry
      live = expire_completed s.store s.result_ttl now s.flights

      room : List Entry × Bool
      room = make_room (length live) s.max_entries s.store live

  -- The entries after expiry and eviction.
  Keeps-room :
      (s : SingleFlight A E) (now : ℕ)
      → KeysDiffer s.flights
      → let live = expire_completed s.store s.result_ttl now s.flights in
        Keeps s.store s.flights (make_room (length live) s.max_entries s.store live).0
  Keeps-room s now d =
      make_room-Keeps s.store _ s.max_entries s.flights _
        (expire-Keeps s.store s.result_ttl now s.flights d)

  pub retained :
      (s : System A E) (es : List Entry) (shares rejections : ℕ)
      → IsSound s
      → Keeps s.registry.store s.registry.flights es
      → IsSound (record s {
        registry = record s.registry {
          flights = es;
          shared_results = shares;
          capacity_rejections = rejections;
        };
      })
  retained s es shares rejections h k = record {
    differ = k.differ;
    positive = h.positive;
    bounded = omega (arith, k.fewer, h.bounded);
    leading =
        IsLeading-move s.registry.store s.registry.store s.registry.flights es s.running k.active
          (λ r l a. a) (λ r l a. a) (omega arith) h.leading;
    apart = h.apart;
    counted = h.counted;
  }

  pub follow-active :
      (s : SingleFlight A E) (r : ℕ) (es : List Entry)
      → completed s.store r ≡ none
      → follow s r es ≡ (
        record s {
          store = update (λ f. record f { waiters = f.waiters + 1 }) s.store r;
          flights = es;
          shared_results = s.shared_results + 1;
          followers_waiting = s.followers_waiting + 1;
        },
        ok (following r true),
      )
  unfolding follow
  follow-active s r es e = ground arith

  pub follow-completed :
      (s : SingleFlight A E) (r c : ℕ) (es : List Entry)
      → completed s.store r ≡ some c
      → follow s r es
        ≡ (record s { flights = es; shared_results = s.shared_results + 1 }, ok (following r false))
  unfolding follow
  follow-completed s r c es e = ground arith

  follow-IsSound :
      (s : System A E) (key : String) (r : ℕ) (es : List Entry)
      → IsSound s
      → Keeps s.registry.store s.registry.flights es
      → let q = follow s.registry r es in IsSound (joined s key q.0 q.1)
  follow-IsSound s key r es h k = elim (Option-cases (completed s.registry.store r)) [
    | inr (c, e) ↦
        rw (follow-completed s.registry r c es e)
          (retained s es (s.registry.shared_results + 1) s.registry.capacity_rejections h k)
    | inl e ↦ rw (follow-active s.registry r es e) (record {
      differ = k.differ;
      positive = h.positive;
      bounded = omega (arith, k.fewer, h.bounded);
      leading =
          IsLeading-move s.registry.store _ s.registry.flights es s.running k.active
            (λ q l a. read-update _ _ s.registry.store r q (λ x. refl) ∙ a)
            (λ q l a. read-update _ _ s.registry.store r q (λ x. refl) ∙ a)
            (omega
              (arith, length-update (λ f. record f { waiters = f.waiters + 1 }) s.registry.store r))
            h.leading;
      apart = h.apart;
      counted = omega (arith, h.counted);
    })
  ]

  lead-IsSound :
      (s : System A E) (key : String) (now : ℕ) (es : List Entry)
      → IsSound s
      → Keeps s.registry.store s.registry.flights es
      → find key es ≡ none
      → length es < s.registry.max_entries
      → let q = lead s.registry key now es in IsSound (joined s key q.0 q.1)
  unfolding lead
  lead-IsSound s key now es h k n room = record {
    differ = KeysDiffer-append key (length store) es k.differ (find-NoKey key es n);
    positive = h.positive;
    bounded = omega (arith, length-append es ((key, length store) ∷ []));
    leading = (
      record {
        registered = find-append_new key (length store) es n;
        active = read-new _ store (new_flight now);
        unset = read-new _ store (new_flight now);
        stored = omega (arith, length-append store (new_flight now ∷ []));
      },
      IsLeading-move store _ es _ s.running
          (λ q r f a. find-append_hit q r es (key, length store) f)
          (λ r l a. read-append _ store (new_flight now) r l ∙ a)
          (λ r l a. read-append _ store (new_flight now) r l ∙ a)
          (omega (arith, length-append store (new_flight now ∷ []))) moved,
    );
    apart = (IsLeading-IsOther store es key s.running n moved, h.apart);
    counted = h.counted;
  }
    where
      store : List (Flight A E)
      store = s.registry.store

      moved : All (IsLeading store es) s.running
      moved =
          IsLeading-move store store s.registry.flights es s.running k.active (λ r l a. a)
            (λ r l a. a) (omega arith) h.leading

  pub enter-IsSound :
      (s : System A E) (key : String) (timeout : Value) (now : ℕ)
      → IsSound s
      → let q = enter s.registry key timeout now in IsSound (joined s key q.0 q.1)
  enter-IsSound s key timeout now h =
      enter_rule (λ q. IsSound (joined s key q.0 q.1)) s.registry key timeout now h
        (λ r f. follow-IsSound s key r live h expired)
        (λ f room. lead-IsSound s key now _ h made (kept.absent key f) (
          ground (
            arith,
            make_room-decides g.store (length live) g.max_entries live expired.differ (omega arith)
                h.positive,
          )))
        (λ f full. retained s _ g.shared_results (g.capacity_rejections + 1) h made)
    where
      g : SingleFlight A E
      g = s.registry

      live : List Entry
      live = expire_completed g.store g.result_ttl now g.flights

      expired : Keeps g.store g.flights live
      expired = expire-Keeps g.store g.result_ttl now g.flights h.differ

      made : Keeps g.store g.flights (make_room (length live) g.max_entries g.store live).0
      made = Keeps-room g now h.differ

      kept : Keeps g.store live (make_room (length live) g.max_entries g.store live).0
      kept =
          make_room-Keeps g.store (length live) g.max_entries live live
            (Keeps-refl g.store live expired.differ)
