-- ===== src/Auth/Bounded.antt =====
-- auth.py, `_ValidationCache`: its size.
use Prim.Native.Nat.{◌≤◌}
use cwa_e_book_translate_plu.Prelude.{
  ℕ, zero, suc, ◌+◌, ◌-◌, ◌≡◌, arith, Bool, Bool-cases, Option-cases, Result-cases, inl, inr, List,
  [], ◌∷◌, ◌++◌, Option, some, Text, text_eq, length, length-append, drop, leb,
}
use cwa_e_book_translate_plu.Dict.{delete_key, length-delete_key}
use cwa_e_book_translate_plu.Auth.{
  Headers, CwaSessionBinding, Config, Decision, Entries, find, get, put, cwa_keys,
  authenticate_cwa_session,
}

-- the attempts in their order: the request, the first reading of the clock, what the probe gives, and
-- the second reading
pub record Attempt : Type 0 where
  pub headers : Headers
  pub binding : Option CwaSessionBinding
  pub now : ℕ
  pub probed : Option Bool
  pub put_now : ℕ

unfoldable pub run : Config → Entries → List Attempt → Entries
unfolding authenticate_cwa_session
run c entries [] = entries
run c entries (a ∷ more) =
    run c (authenticate_cwa_session c entries a.headers a.binding a.now a.probed a.put_now).0 more

length-drop : {A : Type 0} (n : ℕ) (xs : List A) → length (drop n xs) ≡ length xs - n
length-drop zero xs = omega arith
length-drop (suc n) [] = omega arith
length-drop (suc n) (x ∷ xs) = omega (arith, length-drop n xs)

length-put :
    (c : Config) (entries : Entries) (key : Text) (valid : Bool) (now : ℕ)
    → length (put c entries key valid now) ≤ c.max_entries
unfolding put
length-put c entries key valid now =
    let stored =
      delete_key key entries ++ (key, record { expires_at = now + c.ttl; valid = valid }) ∷ [] in
    omega (arith, length-drop (length stored - c.max_entries) stored)

-- A key that is found is taken out.
length-delete_key-find :
    (key : Text) (entries : Entries) (d : Decision)
    → find key entries ≡ some d
    → suc (length (delete_key key entries)) ≤ length entries
unfolding find delete_key
length-delete_key-find key [] d e = ground arith
length-delete_key-find key ((j, x) ∷ entries) d e = elim (Bool-cases (text_eq j key)) [
  | inl q ↦ ground (arith, q, length-delete_key key entries)
  | inr q ↦ ground (arith, q, length-delete_key-find key entries d (ground (arith, q, e)))
]

length-get :
    (entries : Entries) (key : Text) (now : ℕ) → length (get entries key now).0 ≤ length entries
unfolding get
length-get entries key now = elim (Option-cases (find key entries)) [
  | inl e ↦ ground (arith, e)
  | inr (d, e) ↦
      let fewer = length-delete_key-find key entries d e in
      elim (Bool-cases (leb d.expires_at now)) [
        | inl q ↦ ground (arith, e, q, fewer)
        | inr q ↦
            ground (arith, e, q, fewer, length-append (delete_key key entries) ((key, d) ∷ []))
      ]
]

length-authenticate :
    (c : Config) (entries : Entries) (a : Attempt)
    → length entries ≤ c.max_entries
    → length (authenticate_cwa_session c entries a.headers a.binding a.now a.probed a.put_now).0
      ≤ c.max_entries
unfolding authenticate_cwa_session
length-authenticate c entries a h = elim (Result-cases (cwa_keys c a.headers a.binding)) [
  | inl (e, q) ↦ ground (arith, q, h)
  | inr ((session_key, key), q) ↦
      let kept = length-get entries key a.now in
      elim (Option-cases (get entries key a.now).1) [
        | inr (v, z) ↦ ground (arith, q, z, kept, h)
        | inl z ↦ elim (Option-cases a.probed) [
          | inl w ↦ ground (arith, q, z, w, kept, h)
          | inr (v, w) ↦
              ground (arith, q, z, w, length-put c (get entries key a.now).0 key v a.put_now)
        ]
      ]
]

-- Whatever requests are authenticated, the cache of decisions holds no more than its maximum.
pub run-max_entries :
    (c : Config) (entries : Entries) (more : List Attempt)
    → length entries ≤ c.max_entries
    → length (run c entries more) ≤ c.max_entries
unfolding run
run-max_entries c entries [] h = h
run-max_entries c entries (a ∷ more) h =
    run-max_entries c
      (authenticate_cwa_session c entries a.headers a.binding a.now a.probed a.put_now).0 more
      (length-authenticate c entries a h)
