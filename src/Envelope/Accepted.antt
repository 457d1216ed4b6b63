-- ===== src/Envelope/Accepted.antt =====
-- translator.py, _parse_segment_envelope: what an accepted envelope is.
use cwa_e_book_translate_plu.Prelude.{
  subst, codes, text_eq, text_eq_refl, ap, strip, ◌∙◌, ◌⊎◌, ℕ, ◌+◌, ◌≤◌, ◌≡◌, refl, arith, true,
  false, Option-cases, List, [], ◌∷◌, Option, some, inl, inr, Text, is_blank, utf8_size, length,
  All,
}
use cwa_e_book_translate_plu.Envelope.{
  segment_protocol, pair, end, Json, Items, nil, item, object, array, text, get, accepts,
  accepts_items, is_unique, is_distinct, count_items, segment_text, parse_segments, parse_body,
  parse_segment_envelope, has_only,
}

-- A translation that is kept: it is more than white space, and it is the stripped text of the item
-- with the expected id.
abbrev pub Matches : List Text → Items → List Text → Type 0
Matches [] nil [] = Unit
Matches (id ∷ ids) (item x xs) (t ∷ ts) = (segment_text id x ≡ some t) × Matches ids xs ts
Matches _ _ _ = ⊥

-- the sizes of the texts, where each has an encoding
unfoldable pub HasSize : List Text → ℕ → Type 0
HasSize [] n = n ≡ 0
HasSize (t ∷ ts) n = (k : ℕ) × (m : ℕ) × (utf8_size t ≡ some k) × HasSize ts m × (n ≡ k + m)

unfoldable pub Fits : ℕ → ℕ → List Text → Type 0
Fits limit bytes ts = (n : ℕ) × HasSize ts n × (bytes + n ≤ limit)

parse_segments-Matches :
    (limit bytes : ℕ) (ids : List Text) (xs : Items) (ts : List Text)
    → count_items xs ≡ length ids
    → bytes ≤ limit
    → parse_segments limit bytes ids xs ≡ some ts
    → Matches ids xs ts × Fits limit bytes ts
unfolding parse_segments HasSize Fits
parse_segments-Matches limit bytes [] nil [] c l e = (tt, (0, refl, omega arith))
parse_segments-Matches limit bytes [] nil (t ∷ ts) c l e = ground arith
parse_segments-Matches limit bytes [] (item x xs) ts c l e = ground arith
parse_segments-Matches limit bytes (id ∷ ids) nil ts c l e = ground arith
parse_segments-Matches limit bytes (id ∷ ids) (item x xs) ts c l e =
    elim (Option-cases (segment_text id x)) [
      | inl q ↦ ground arith
      | inr (t, q) ↦ elim (Option-cases (utf8_size t)) [
        | inl z ↦ ground arith
        | inr (n, z) ↦ elim (Option-cases (parse_segments limit (bytes + n) ids xs)) [
          | inl r ↦ ground arith
          | inr (us, r) ↦
              let fits : bytes + n ≤ limit = ground arith in
              let same : t ∷ us ≡ ts = ground arith in
              let rest =
                parse_segments-Matches limit (bytes + n) ids xs us (omega (arith, c)) fits r in
              let (m, sized, below) = rest.1 in
              subst (λ v. Matches (id ∷ ids) (item x xs) v × Fits limit bytes v) same
                ((q, rest.0), (n + m, (n, m, z, sized, refl), omega (arith, below)))
        ]
      ]
    ]

-- an object with the two fields of the protocol
abbrev pub envelope_of : Items → Json
envelope_of xs =
    object
      (pair (codes "protocol") (text segment_protocol) (pair (codes "translations") (array xs) end))

segment_text-solid :
    (id : Text) (x : Json) (t : Text) → segment_text id x ≡ some t → is_blank t ≡ false
unfolding segment_text
segment_text-solid id (object ps) t e = ground arith
segment_text-solid id Json.null t e = ground arith
segment_text-solid id Json.number t e = ground arith
segment_text-solid id (Json.bool b) t e = ground arith
segment_text-solid id (text u) t e = ground arith
segment_text-solid id (array xs) t e = ground arith

Matches-solid :
    (ids : List Text) (xs : Items) (ts : List Text)
    → Matches ids xs ts
    → (length ts ≡ length ids) × All (λ t. is_blank t ≡ false) ts
Matches-solid [] nil [] m = (refl, tt)
Matches-solid [] nil (t ∷ ts) m = elim m [ ]
Matches-solid [] (item x xs) ts m = elim m [ ]
Matches-solid (id ∷ ids) nil ts m = elim m [ ]
Matches-solid (id ∷ ids) (item x xs) [] m = elim m [ ]
Matches-solid (id ∷ ids) (item x xs) (t ∷ ts) m =
    let (l, a) = Matches-solid ids xs ts m.1 in
    (omega (arith, l), (segment_text-solid id x t m.0, a))

-- What an accepted envelope has: a text for each segment, none of them blank, no segment twice, and
-- no more bytes than the limit.
pub record IsAccepted (limit : ℕ) (ids ts : List Text) : Type 0 where
  pub one_each : length ts ≡ length ids
  pub solid : All (λ t. is_blank t ≡ false) ts
  pub distinct : is_distinct ids ≡ true
  pub fits : Fits limit 0 ts

parse_body-Matches :
    (limit : ℕ) (ids : List Text) (x : Json) (ts : List Text)
    → parse_body limit ids x ≡ some ts
    → (xs : Items) × (count_items xs ≡ length ids) × (parse_segments limit 0 ids xs ≡ some ts)
unfolding parse_body
parse_body-Matches limit ids (object ps) ts e =
    elim (Option-cases (get (codes "translations") ps)) [
      | inl q ↦ ground arith
      | inr (array xs, q) ↦ (xs, ground arith, ground arith)
      | inr (object qs, q) ↦ ground arith
      | inr (text t, q) ↦ ground arith
      | inr (Json.bool b, q) ↦ ground arith
      | inr (Json.null, q) ↦ ground arith
      | inr (Json.number, q) ↦ ground arith
    ]
parse_body-Matches limit ids Json.null ts e = ground arith
parse_body-Matches limit ids Json.number ts e = ground arith
parse_body-Matches limit ids (Json.bool b) ts e = ground arith
parse_body-Matches limit ids (text u) ts e = ground arith
parse_body-Matches limit ids (array xs) ts e = ground arith

parse_segment_envelope-body :
    (limit : ℕ) (loads : Text → Option Json) (output : Text) (ids ts : List Text)
    → parse_segment_envelope limit loads output ids ≡ some ts
    → (x : Json) × (parse_body limit ids x ≡ some ts) × (is_distinct ids ≡ true)
unfolding parse_segment_envelope
parse_segment_envelope-body limit loads output ids ts e = elim (Option-cases (utf8_size output)) [
  | inl z ↦ ground arith
  | inr (n, z) ↦ elim (Option-cases (loads output)) [
    | inl q ↦ ground arith
    | inr (x, q) ↦ (x, ground arith, ground arith)
  ]
]

-- If the envelope that a provider answered with is accepted, there is one text for each expected
-- segment, no text is blank, no segment is expected twice, and the texts have at most `limit` bytes
-- in all.
pub parse_segment_envelope-IsAccepted :
    (limit : ℕ) (loads : Text → Option Json) (output : Text) (ids ts : List Text)
    → parse_segment_envelope limit loads output ids ≡ some ts
    → IsAccepted limit ids ts
parse_segment_envelope-IsAccepted limit loads output ids ts e =
    let (x, b, d) = parse_segment_envelope-body limit loads output ids ts e in
    let (xs, c, p) = parse_body-Matches limit ids x ts b in
    let r = parse_segments-Matches limit 0 ids xs ts c (omega arith) p in
    let (l, a) = Matches-solid ids xs ts r.0 in
    record { one_each = l; solid = a; distinct = d; fits = r.1 }

parse_segments_complete :
    (limit bytes n : ℕ) (ids : List Text) (xs : Items) (ts : List Text)
    → Matches ids xs ts
    → HasSize ts n
    → bytes + n ≤ limit
    → parse_segments limit bytes ids xs ≡ some ts
unfolding parse_segments HasSize
parse_segments_complete limit bytes n [] nil [] m h l = refl
parse_segments_complete limit bytes n [] nil (t ∷ ts) m h l = elim m [ ]
parse_segments_complete limit bytes n [] (item x xs) ts m h l = elim m [ ]
parse_segments_complete limit bytes n (id ∷ ids) nil ts m h l = elim m [ ]
parse_segments_complete limit bytes n (id ∷ ids) (item x xs) [] m h l = elim m [ ]
parse_segments_complete limit bytes n (id ∷ ids) (item x xs) (t ∷ ts) m (k, j, z, h, e) l =
    ground (arith, m.0, parse_segments_complete limit (bytes + k) j ids xs ts m.1 h (omega arith))

-- the two ways to write the object of one translation
abbrev pub segment_of : Text → Text → Json
segment_of id body = object (pair (codes "id") (text id) (pair (codes "text") (text body) end))

abbrev pub swapped_segment_of : Text → Text → Json
swapped_segment_of id body =
    object (pair (codes "text") (text body) (pair (codes "id") (text id) end))

-- The item is the object with the id and a text, which is more than white space and is `t` when it is
-- stripped, and with no other key.
abbrev pub Carries : Text → Json → Text → Type 0
Carries id x t =
    (body : Text) × (is_blank (strip body) ≡ false)
    × (t ≡ strip body)
    × ((x ≡ segment_of id body) ⊎ (x ≡ swapped_segment_of id body))

-- Each item carries the text of its id, in the order of the ids.
abbrev pub AllCarry : List Text → Items → List Text → Type 0
AllCarry [] nil [] = Unit
AllCarry (id ∷ ids) (item x xs) (t ∷ ts) = Carries id x t × AllCarry ids xs ts
AllCarry _ _ _ = ⊥

segment_text-Carries :
    (id : Text) (x : Json) (t : Text) → Carries id x t → segment_text id x ≡ some t
unfolding segment_text has_only get text_eq
segment_text-Carries id x t (body, b, e, inl s) =
    ap (segment_text id) s ∙ ground (arith, text_eq_refl id, b, e)
segment_text-Carries id x t (body, b, e, inr s) =
    ap (segment_text id) s ∙ ground (arith, text_eq_refl id, b, e)

AllCarry-Matches :
    (ids : List Text) (xs : Items) (ts : List Text) → AllCarry ids xs ts → Matches ids xs ts
AllCarry-Matches [] nil [] m = tt
AllCarry-Matches [] nil (t ∷ ts) m = elim m [ ]
AllCarry-Matches [] (item x xs) ts m = elim m [ ]
AllCarry-Matches (id ∷ ids) nil ts m = elim m [ ]
AllCarry-Matches (id ∷ ids) (item x xs) [] m = elim m [ ]
AllCarry-Matches (id ∷ ids) (item x xs) (t ∷ ts) m =
    (segment_text-Carries id x t m.0, AllCarry-Matches ids xs ts m.1)

Matches-count :
    (ids : List Text) (xs : Items) (ts : List Text)
    → Matches ids xs ts
    → count_items xs ≡ length ids
Matches-count [] nil [] m = refl
Matches-count [] nil (t ∷ ts) m = elim m [ ]
Matches-count [] (item x xs) ts m = elim m [ ]
Matches-count (id ∷ ids) nil ts m = elim m [ ]
Matches-count (id ∷ ids) (item x xs) [] m = elim m [ ]
Matches-count (id ∷ ids) (item x xs) (t ∷ ts) m = ground (arith, Matches-count ids xs ts m.1)

accepts-Carries : (id : Text) (x : Json) (t : Text) → Carries id x t → accepts x ≡ true
unfolding accepts is_unique text_eq
accepts-Carries id x t (body, b, e, inl s) = ap accepts s ∙ refl
accepts-Carries id x t (body, b, e, inr s) = ap accepts s ∙ refl

-- No such item has a key twice.
accepts_items-AllCarry :
    (ids : List Text) (xs : Items) (ts : List Text) → AllCarry ids xs ts → accepts_items xs ≡ true
unfolding accepts_items
accepts_items-AllCarry [] nil [] m = refl
accepts_items-AllCarry [] nil (t ∷ ts) m = elim m [ ]
accepts_items-AllCarry [] (item x xs) ts m = elim m [ ]
accepts_items-AllCarry (id ∷ ids) nil ts m = elim m [ ]
accepts_items-AllCarry (id ∷ ids) (item x xs) [] m = elim m [ ]
accepts_items-AllCarry (id ∷ ids) (item x xs) (t ∷ ts) m =
    ground (arith, accepts-Carries id x t m.0, accepts_items-AllCarry ids xs ts m.1)

accepts-envelope_of : (xs : Items) → accepts_items xs ≡ true → accepts (envelope_of xs) ≡ true
unfolding accepts is_unique text_eq
accepts-envelope_of xs h = ground (arith, h)

-- An answer within the limit that decodes to the protocol's object, with one item for each of the
-- distinct expected ids, in their order, each the object of that id and a text that is not blank, is
-- accepted with the stripped texts of the items, where these have at most `limit` bytes in all.
pub parse_segment_envelope_complete :
    (limit : ℕ) (loads : Text → Option Json) (output : Text) (ids ts : List Text) (xs : Items)
    (size n : ℕ)
    → utf8_size output ≡ some size
    → size ≤ limit
    → loads output ≡ some (envelope_of xs)
    → is_distinct ids ≡ true
    → AllCarry ids xs ts
    → HasSize ts n
    → n ≤ limit
    → parse_segment_envelope limit loads output ids ≡ some ts
unfolding parse_segment_envelope parse_body get has_only text_eq
parse_segment_envelope_complete limit loads output ids ts xs size n z l q d m h b =
    let k = AllCarry-Matches ids xs ts m in
    let c = Matches-count ids xs ts k in
    let a = accepts-envelope_of xs (accepts_items-AllCarry ids xs ts m) in
    ground (arith, parse_segments_complete limit 0 n ids xs ts k h (omega (arith, b)))
