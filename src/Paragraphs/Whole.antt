-- ===== src/Paragraphs/Whole.antt =====
-- server.py, `_translate_paragraphs`: what the whole call answers.
use Prim.Native.Nat.{◌<◌}
use cwa_e_book_translate_plu.Prelude.{
  subst, sym, ap, ◌∙◌, ℕ, zero, suc, ◌≡◌, refl, arith, true, false, Result-cases, inl, inr, ok,
  ok_or, as_positive_int, ℤ, pos, negsuc, List, [], ◌∷◌, map, concat, none, some, Text, length,
  get_elem?, All,
}
use cwa_e_book_translate_plu.Batch
use cwa_e_book_translate_plu.Batch.{
  grouped, as_natural, or_default, translation_groups, is_valid_selection, is_usable,
}
use cwa_e_book_translate_plu.Batch.Selected.{grouped-is_valid_selection}
use cwa_e_book_translate_plu.Envelope.Contract.{batch_cache_contract}
use cwa_e_book_translate_plu.Envelope.Group.{GroupResult}
use cwa_e_book_translate_plu.Window.{Event}
use cwa_e_book_translate_plu.Window.Results.{In, Apart}
use cwa_e_book_translate_plu.Window.Order.{AllApart}
use cwa_e_book_translate_plu.Window.Answered.{
  AllInside, AllInside-of, Distinct-AllApart, valid-AllApart, In-append_left, In-append_right,
}
use cwa_e_book_translate_plu.Paragraphs.{
  Request, Config, Env, Session, Response, blank_response, Planned, plan_groups, serve_groups,
}
use cwa_e_book_translate_plu.Paragraphs.Collect.{groups_of, translate_planned, translate_paragraphs}
use cwa_e_book_translate_plu.Paragraphs.Hits.{Found}
use cwa_e_book_translate_plu.Paragraphs.Found.{
  start-Reached, IsFound, IsUnder, HasContract, plan_groups-HasContract,
}
use cwa_e_book_translate_plu.Paragraphs.Atomic.{
  Under, IsFresh, IsAtomic, Served, serve_groups-LoopOk,
}
use cwa_e_book_translate_plu.Paragraphs.Collected.{
  Collected, Apart-from, Served-IsAtomic, translate_missing-Collected,
}

groups_of-plan_groups :
    (c : Config) (r : Request) (groups : List (List ℕ)) (planned : List Planned)
    → plan_groups c r groups ≡ ok planned
    → groups_of planned ≡ groups
unfolding plan_groups
groups_of-plan_groups c r [] planned e =
    let same : [] ≡ planned = ground (arith, e) in sym (ap groups_of same)
groups_of-plan_groups c r (g ∷ gs) planned e =
    elim (Result-cases (batch_cache_contract c.contracts r.paragraphs g)) [
      | inl (x, z) ↦ ground (arith, z, e)
      | inr (k, z) ↦ elim (Result-cases (plan_groups c r gs)) [
        | inl (x, w) ↦ ground (arith, z, w, e)
        | inr (rest, w) ↦
            let same : (g, k) ∷ rest ≡ planned = ground (arith, z, w, e) in
            sym (ap groups_of same) ∙ ap (◌∷◌ g) (groups_of-plan_groups c r gs rest w)
      ]
    ]

module _ {A : Type 0} (x : A) where
  get-map_const : (ts : List Text) (i : ℕ) → i < length ts → get_elem? (map (λ _. x) ts) i ≡ some x
  get-map_const [] i h = absurd (omega (arith, h))
  get-map_const (t ∷ ts) zero h = refl
  get-map_const (t ∷ ts) (suc i) h = get-map_const ts i (omega (arith, h))

  length-map_const : (ts : List Text) → length (map (λ _. x) ts) ≡ length ts
  length-map_const [] = refl
  length-map_const (t ∷ ts) = ap suc (length-map_const ts)

blank-IsFresh :
    (ts : List Text) (g : List ℕ) → All (λ i. i < length ts) g → All (IsFresh (blank_response ts)) g
blank-IsFresh ts [] b = tt
blank-IsFresh ts (i ∷ g) b = (get-map_const false ts i b.0, blank-IsFresh ts g b.1)

All-blank-IsFresh :
    (ts : List Text) (gs : List (List ℕ))
    → AllInside (length ts) gs
    → All (λ h. All (IsFresh (blank_response ts)) h) gs
All-blank-IsFresh ts [] b = tt
All-blank-IsFresh ts (g ∷ gs) b = (blank-IsFresh ts g b.1, All-blank-IsFresh ts gs b.2)

All-IsAtomic :
    (U : Under) (F : Found) (p q : Response) (missing gs : List (List ℕ))
    → ((j : ℕ) → Collected p q j (¬ (In j (concat missing))))
    → All (Served U F p missing) gs
    → All (IsAtomic U F q) gs
All-IsAtomic U F p q missing [] k s = tt
All-IsAtomic U F p q missing (g ∷ gs) k s =
    (Served-IsAtomic U F p q missing g k s.0, All-IsAtomic U F p q missing gs k s.1)

-- A paragraph of no group is left blank.
abbrev pub IsUntouched : Response → ℕ → Type 0
IsUntouched p i = (get_elem? p.translations i ≡ some []) × (get_elem? p.cached i ≡ some false)

not-In-Apart : (i : ℕ) (gs : List (List ℕ)) → ¬ (In i (concat gs)) → All (Apart (i ∷ [])) gs
not-In-Apart i [] n = tt
not-In-Apart i (g ∷ gs) n = (apart, not-In-Apart i gs (λ x. n (In-append_right i g (concat gs) x)))
  where
    apart : Apart (i ∷ []) g
    apart j (inl e) y = n (In-append_left i g (concat gs) (subst (λ k. In k g) e y))
    apart j (inr x) y = x

translate_planned-IsAtomic :
    (c : Config) (env : Env) (r : Request) (outcome : List ℕ → GroupResult) (es : List Event)
    (s : Session) (planned : List Planned) (q : Response)
    → All (HasContract c r) planned
    → AllApart (groups_of planned)
    → AllInside (length r.paragraphs) (groups_of planned)
    → (translate_planned c env r outcome es s planned).1 ≡ ok q
    → All (IsAtomic (IsUnder c r) (IsFound c env r s) q) (groups_of planned)
      × ((i : ℕ)
          → i < length r.paragraphs
          → ¬ (In i (concat (groups_of planned)))
          → IsUntouched q i)
unfolding translate_planned
translate_planned-IsAtomic c env r outcome es s planned q own a b e =
    let first = blank_response r.paragraphs in
    elim (Result-cases (serve_groups c env r s first planned).1) [
      | inl (x, z) ↦ ground (arith, z, e)
      | inr ((p, missing), z) ↦
          let n = length r.paragraphs in
          let l =
            serve_groups-LoopOk c env r s n s first p planned missing (start-Reached s) own z a b
              (record {
                texts = length-map_const [] r.paragraphs;
                flags = length-map_const false r.paragraphs;
              })
              (All-blank-IsFresh r.paragraphs (groups_of planned) b) in
          let s' = (serve_groups c env r s first planned).0 in
          let k : (j : ℕ) → Collected p q j (¬ (In j (concat (groups_of missing)))) = λ j.
            translate_missing-Collected c env r outcome es s' p q missing j
              (ground (arith, z, e)) in
          (
            All-IsAtomic (IsUnder c r) (IsFound c env r s) p q (groups_of missing)
                (groups_of planned) k l.served,
            λ i h m.
                let away = not-In-Apart i (groups_of planned) m in
                let same = l.kept (i ∷ []) away in
                (
                  (k i).texts (
                        Apart-from (i ∷ []) (groups_of missing) i (inl refl)
                          (l.fewer (i ∷ []) away))
                      ∙ same.0.0
                      ∙ get-map_const [] r.paragraphs i h,
                  ap (λ xs. get_elem? xs i) (k i).flags
                      ∙ same.0.1
                      ∙ get-map_const false r.paragraphs i h,
                ),
          )
    ]

groups_valid :
    (c : Batch.Config) (texts : List Text) (groups : List (List ℕ))
    → translation_groups c texts none none ≡ ok groups
    → is_valid_selection c texts groups ≡ true
unfolding translation_groups as_positive_int ok_or as_natural
groups_valid c texts groups e = go c.batch_size refl
  where
    go : (z : ℤ) → c.batch_size ≡ z → is_valid_selection c texts groups ≡ true
    go (pos zero) h = ground (arith, h, e)
    go (pos (suc n)) h =
        let same : grouped texts (suc n) c.source_token_budget ≡ groups = ground (arith, h, e) in
        subst (λ gs. is_valid_selection c texts gs ≡ true) same
          (grouped-is_valid_selection c texts (suc n) (omega arith) h)
    go (negsuc n) h = ground (arith, h, e)

-- If the call returns, then each group of the request is served whole from the cache, or no paragraph of
-- it is from the cache. A group that is served has one scope, that of one backend that the request may
-- look up under the contract of the group or that of a single text; and the table as it was at the start
-- of the call has each paragraph's translation, in a live row under the key of the paragraph's text, the
-- languages and that scope. A paragraph of no group stays empty and is not from the cache.
pub translate_paragraphs-IsAtomic :
    (c : Config) (env : Env) (r : Request) (outcome : List ℕ → GroupResult) (es : List Event)
    (s : Session) (q : Response)
    → (translate_paragraphs c env r outcome es s).1 ≡ ok q
    → (groups : List (List ℕ)) × (translation_groups c.batch r.paragraphs none none ≡ ok groups)
      × All (IsAtomic (IsUnder c r) (IsFound c env r s) q) groups
      × ((i : ℕ) → i < length r.paragraphs → ¬ (In i (concat groups)) → IsUntouched q i)
unfolding translate_paragraphs
translate_paragraphs-IsAtomic c env r outcome es s q e =
    elim (Result-cases (translation_groups c.batch r.paragraphs none none)) [
      | inl (x, z) ↦ ground (arith, z, e)
      | inr (groups, z) ↦ elim (Result-cases (plan_groups c r groups)) [
        | inl (x, w) ↦ ground (arith, z, w, e)
        | inr (planned, w) ↦
            let valid =
              valid-AllApart c.batch r.paragraphs groups
                (inr (groups_valid c.batch r.paragraphs groups z)) in
            let same = groups_of-plan_groups c r groups planned w in
            let apart = subst AllApart (sym same) (Distinct-AllApart groups valid.0) in
            let inside =
              subst (AllInside (length r.paragraphs)) (sym same)
                (AllInside-of r.paragraphs groups valid.0 valid.1) in
            let ended : (translate_planned c env r outcome es s planned).1 ≡ ok q =
              ground (arith, z, w, e) in
            let (atomic, rest) =
              translate_planned-IsAtomic c env r outcome es s planned q
                (plan_groups-HasContract c r groups planned w) apart inside ended in
            (
              groups,
              z,
              subst (All (IsAtomic (IsUnder c r) (IsFound c env r s) q)) same atomic,
              λ i h n. rest i h (subst (λ gs. ¬ (In i (concat gs))) (sym same) n),
            )
      ]
    ]
