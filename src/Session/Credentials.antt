-- ===== src/Session/Credentials.antt =====
-- reader_session.py, _credentials: the proof that is forwarded to the reader, by reader type.
use cwa_e_book_translate_plu.Prelude.{
  ℕ, zero, suc, ◌+◌, ◌-◌, ◌*◌, ◌/◌, ◌%◌, Bool, true, false, not, ◌&&◌, ◌||◌, Result, ok, err, ◌>>=◌,
  List, [], ◌∷◌, ◌++◌, Option, none, some, Text, codes, is_blank, text_eq, length, all, ltb, leb,
  ◌==◌, if◌then◌else◌,
}
use cwa_e_book_translate_plu.Session.{
  Error, rejected, Headers, Cookies, get, has, without, parse_cookie_header,
}

pub data ReaderType : Type 0 where
  cwa kavita : ReaderType

-- A `Cookie` header of these cookies, or an `Authorization` header with this bearer.
pub data Credentials : Type 0 where
  cookies : Cookies → Credentials
  bearer : Text → Credentials

abbrev pub session_name : Text
session_name = codes "session"

abbrev pub remember_name : Text
remember_name = codes "remember_token"

abbrev pub kavita_name : Text
kavita_name = codes ".AspNetCore.Cookies"

-- the cookies of these names, in their order, that are there
unfoldable pub pick : List Text → Cookies → Cookies
pick [] cs = []
pick (name ∷ names) cs =
    let rest = pick names cs in elim (get name cs) [ none ↦ rest | some v ↦ (name, v) ∷ rest ]

abbrev pub is_empty : Cookies → Bool
is_empty [] = true
is_empty (c ∷ cs) = false

unfoldable pub is_cwa_name : Text → Bool
is_cwa_name name = text_eq name session_name || text_eq name remember_name

unfoldable pub cwa_credentials : Text → Cookies → Result Error Credentials
unfolding is_cwa_name
cwa_credentials authorization cs =
    if not (is_blank authorization) || is_empty cs
    then err rejected
    else if all (λ c. is_cwa_name c.0) cs
    then (let ordered = pick (session_name ∷ remember_name ∷ []) cs in
        if is_empty ordered then err rejected else ok (cookies ordered))
    else err rejected

-- `t.startswith(prefix)`: what follows the prefix
unfoldable pub strip_prefix : Text → Text → Option Text
strip_prefix [] t = some t
strip_prefix (c ∷ cs) [] = none
strip_prefix (c ∷ cs) (d ∷ ds) = if c == d then strip_prefix cs ds else none

-- `t.count(c)`
unfoldable pub count_char : ℕ → Text → ℕ
count_char c [] = 0
count_char c (d ∷ ds) = (if d == c then 1 else 0) + count_char c ds

unfoldable pub bearer_of : Text → Result Error Text
unfolding strip_prefix count_char
bearer_of authorization =
    if leb (length authorization) 8192 && count_char 32 authorization == 1
    then elim (strip_prefix (codes "Bearer ") authorization) [
      | none ↦ err rejected
      | some b ↦
          if not (is_blank b) && all (λ c. leb 33 c && leb c 126) b then ok b else err rejected
    ]
    else err rejected

-- `name == K or name.startswith(K + "C")`
unfoldable pub is_oidc_name : Text → Bool
unfolding strip_prefix
is_oidc_name name =
    text_eq name kavita_name
    || elim (strip_prefix (kavita_name ++ 67 ∷ []) name) [ none ↦ false | some _ ↦ true ]

-- The decimal digits of a number below 100.
unfoldable pub decimal : ℕ → Text
decimal n = if ltb n 10 then (48 + n) ∷ [] else (48 + n / 10) ∷ (48 + n % 10) ∷ []

-- `_CHUNKED_RE`: `chunks-` and one or two digits, the first of which is not 0
unfoldable pub chunk_count : Text → Option ℕ
unfolding strip_prefix
chunk_count base = elim (strip_prefix (codes "chunks-") base) [
  | none ↦ none
  | some digits ↦ elim digits [
    | [] ↦ none
    | d ∷ rest ↦
        if leb 49 d && leb d 57
        then elim rest [
          | [] ↦ some (d - 48)
          | e ∷ more ↦ elim more [
            | [] ↦ if leb 48 e && leb e 57 then some (10 * (d - 48) + (e - 48)) else none
            | _ ∷ _ ↦ none
          ]
        ]
        else none
  ]
]

-- `K + f"C{index}"` for the indices from `first`, `n` of them
unfoldable pub chunk_names : ℕ → ℕ → List Text
chunk_names first zero = []
chunk_names first (suc n) = (kavita_name ++ 67 ∷ decimal first) ∷ chunk_names (suc first) n

abbrev pub elem : Text → List Text → Bool
elem t [] = false
elem t (u ∷ us) = text_eq t u || elem t us

-- The OIDC names among the cookies are exactly these.
unfoldable pub has_exactly : List Text → Cookies → Bool
unfolding is_oidc_name
has_exactly names cs =
    all (λ c. not (is_oidc_name c.0) || elem c.0 names) cs && all (λ n. has n cs) names

unfoldable pub oidc_names : Text → Result Error (List Text)
unfolding chunk_count chunk_names decimal
oidc_names base = elim (chunk_count base) [
  | none ↦ ok (kavita_name ∷ [])
  | some n ↦ if ltb 16 n then err rejected else ok (kavita_name ∷ chunk_names 1 n)
]

unfoldable pub oidc_credentials : Cookies → Result Error Credentials
unfolding oidc_names has_exactly
oidc_credentials cs = elim (get kavita_name cs) [
  | none ↦ err rejected
  | some base ↦ do
    names ← oidc_names base
    if has_exactly names cs then ok (cookies (pick names cs)) else err rejected
]

unfoldable pub kavita_credentials : Text → Cookies → Result Error Credentials
unfolding bearer_of is_oidc_name oidc_credentials
kavita_credentials authorization cs =
    if is_blank authorization then oidc_credentials cs else elim (bearer_of authorization) [
      | err e ↦ err e
      | ok b ↦ if all (λ c. not (is_oidc_name c.0)) cs then ok (bearer b) else err rejected
    ]

-- `_credentials`: what is forwarded, and the plugin's own cookie if the browser sent one
unfoldable pub credentials : ReaderType → Text → Headers → Result Error (Credentials × Option Text)
unfolding cwa_credentials kavita_credentials
credentials reader cookie_name h = do
  cs ← parse_cookie_header h.cookie
  let prior = get cookie_name cs
  let others = without cookie_name cs
  c ← elim reader [
    | cwa ↦ cwa_credentials h.authorization others
    | kavita ↦ kavita_credentials h.authorization others
  ]
  ok (c, prior)
