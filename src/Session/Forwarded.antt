-- ===== src/Session/Forwarded.antt =====
-- reader_session.py: what is forwarded to the reader, and when its answer is believed.
use Prim.Native.Nat.{◌≤◌, ◌<◌}
use cwa_e_book_translate_plu.Prelude.{
  ℕ, ◌+◌, ◌≡◌, sym, subst, ◌∙◌, arith, false, ◌||◌, Bool-cases, Option-cases, Result-cases, inl,
  inr, ok, List, [], ◌∷◌, ◌++◌, Option, some, Text, is_blank, text_eq, text_eq_iff, length,
  length-append, All, leb, ltb,
}
use cwa_e_book_translate_plu.Session.{
  Headers, Cookies, Binding, get, without, parse_cookie_header, binding_parts,
}
use cwa_e_book_translate_plu.Session.Credentials.{
  session_name, remember_name, kavita_name, ReaderType, cwa, kavita, Credentials, cookies, pick,
  cwa_credentials, oidc_names, oidc_credentials, kavita_credentials, bearer_of, credentials,
}
use cwa_e_book_translate_plu.Session.Probe.{
  Payload, Response, Chunk, Authority, read_chunks, read_bounded_json, identity, probe,
}

abbrev Sent : Cookies → Cookies → Type 0
Sent all cs = All (λ c. get c.0 all ≡ some c.1) cs

pick-Sent : (names : List Text) (all : Cookies) → Sent all (pick names all)
unfolding pick
pick-Sent [] all = tt
pick-Sent (n ∷ names) all = elim (Option-cases (get n all)) [
  | inl e ↦ rw (e, pick) (pick-Sent names all)
  | inr (v, e) ↦ rw (e, pick) (e, pick-Sent names all)
]

get-without :
    (n m : Text) (all : Cookies) (v : Text)
    → get n (without m all) ≡ some v
    → (text_eq n m ≡ false) × (get n all ≡ some v)
unfolding get without
get-without n m [] v e = ground arith
get-without n m ((k, w) ∷ all) v e = elim (Bool-cases (text_eq k m)) [
  | inl p ↦
      let (other, found) = get-without n m all v (ground arith) in
      elim (Bool-cases (text_eq k n)) [
        | inl q ↦
            let same = sym ((text_eq_iff k n).0 q) ∙ (text_eq_iff k m).0 p in
            absurd (ground (arith, (text_eq_iff n m).1 same, other))
        | inr q ↦ (other, ground arith)
      ]
  | inr p ↦ elim (Bool-cases (text_eq k n)) [
    | inl q ↦ (subst (λ t. text_eq t m ≡ false) ((text_eq_iff k n).0 q) p, ground arith)
    | inr q ↦ let (other, found) = get-without n m all v (ground arith) in (other, ground arith)
  ]
]

-- A cookie that the browser sent, and not the plugin's own.
abbrev pub IsForeign : Text → Cookies → Text × Text → Type 0
IsForeign own all c = (text_eq c.0 own ≡ false) × (get c.0 all ≡ some c.1)

Sent-IsForeign :
    (own : Text) (all cs : Cookies) → Sent (without own all) cs → All (IsForeign own all) cs
Sent-IsForeign own all [] h = tt
Sent-IsForeign own all (c ∷ cs) h = (get-without c.0 own all c.1 h.0, Sent-IsForeign own all cs h.1)

cwa_credentials-Sent :
    (a : Text) (all cs : Cookies) → cwa_credentials a all ≡ ok (cookies cs) → Sent all cs
unfolding cwa_credentials
cwa_credentials-Sent a all cs e =
    let names = session_name ∷ remember_name ∷ [] in
    let same : pick names all ≡ cs = ground arith in subst (Sent all) same (pick-Sent names all)

oidc_credentials-Sent : (all cs : Cookies) → oidc_credentials all ≡ ok (cookies cs) → Sent all cs
unfolding oidc_credentials
oidc_credentials-Sent all cs e = elim (Option-cases (get kavita_name all)) [
  | inl q ↦ ground arith
  | inr (base, q) ↦ elim (Result-cases (oidc_names base)) [
    | inl (x, z) ↦ ground arith
    | inr (names, z) ↦
        let same : pick names all ≡ cs = ground arith in subst (Sent all) same (pick-Sent names all)
  ]
]

kavita_credentials-Sent :
    (a : Text) (all cs : Cookies) → kavita_credentials a all ≡ ok (cookies cs) → Sent all cs
unfolding kavita_credentials
kavita_credentials-Sent a all cs e = elim (Bool-cases (is_blank a)) [
  | inl q ↦ oidc_credentials-Sent all cs (ground arith)
  | inr q ↦ elim (Result-cases (bearer_of a)) [
    | inl (x, z) ↦ ground arith
    | inr (b, z) ↦ ground arith
  ]
]

-- The cookies that an exchange forwards to the reader are among those that the browser sent, with
-- their values, and the plugin's own session cookie is never one of them.
pub credentials-IsForeign :
    (reader : ReaderType) (own : Text) (h : Headers) (all cs : Cookies) (prior : Option Text)
    → parse_cookie_header h.cookie ≡ ok all
    → credentials reader own h ≡ ok (cookies cs, prior)
    → All (IsForeign own all) cs
unfolding credentials
credentials-IsForeign cwa own h all cs prior p e =
    let others = without own all in
    Sent-IsForeign own all cs (elim (Result-cases (cwa_credentials h.authorization others)) [
      | inl (x, q) ↦ ground arith
      | inr (c, q) ↦ cwa_credentials-Sent h.authorization others cs (ground arith)
    ])
credentials-IsForeign kavita own h all cs prior p e =
    let others = without own all in
    Sent-IsForeign own all cs (elim (Result-cases (kavita_credentials h.authorization others)) [
      | inl (x, q) ↦ ground arith
      | inr (c, q) ↦ kavita_credentials-Sent h.authorization others cs (ground arith)
    ])

read_chunks-bounded :
    (limit deadline : ℕ) (payload : Text) (chunks : List Chunk) (out : Text)
    → length payload ≤ limit
    → read_chunks limit deadline payload chunks ≡ ok out
    → length out ≤ limit
unfolding read_chunks
read_chunks-bounded limit deadline payload [] out l e = ground arith
read_chunks-bounded limit deadline payload ((clock, chunk) ∷ chunks) out l e =
    elim (Bool-cases (leb deadline clock || ltb limit (length payload + length chunk))) [
      | inl q ↦ ground arith
      | inr q ↦
          let grown : length (payload ++ chunk) ≤ limit =
            ground (arith, length-append payload chunk) in
          read_chunks-bounded limit deadline (payload ++ chunk) chunks out grown (ground arith)
    ]

-- An identity is taken only from an answer of the reader that has status 200, arrived before the
-- deadline of the call, and was decoded from at most `max_response_bytes` bytes.
pub probe-bounded :
    (a : Authority) (started : ℕ) (answer : Option Response) (c : Credentials) (binding : Binding)
    (who : Text)
    → probe a started answer c binding ≡ ok who
    → (r : Response) × (payload : Text) × (body : Payload) × (answer ≡ some r)
      × (r.status ≡ 200)
      × (r.arrived < started + a.timeout)
      × (length payload ≤ a.max_response_bytes)
      × (a.loads payload ≡ some body)
      × (identity a.sha256 a.reader_type a.reader_version c body ≡ ok who)
unfolding probe read_bounded_json
probe-bounded a started answer c binding who e =
    elim (Result-cases (binding_parts a.compress binding)) [
      | inl (x, q) ↦ ground arith
      | inr (bound, q) ↦ elim (Option-cases answer) [
        | inl z ↦ ground arith
        | inr (r, z) ↦
            let deadline = started + a.timeout in
            elim (Result-cases (read_chunks a.max_response_bytes deadline [] r.chunks)) [
              | inl (x, y) ↦ ground arith
              | inr (payload, y) ↦ elim (Option-cases (a.loads payload)) [
                | inl w ↦ ground arith
                | inr (body, w) ↦ (
                  r,
                  payload,
                  body,
                  z,
                  ground arith,
                  ground arith,
                  read_chunks-bounded a.max_response_bytes deadline [] r.chunks payload
                      (omega arith) y,
                  w,
                  ground arith,
                )
              ]
            ]
      ]
    ]
