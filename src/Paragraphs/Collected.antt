-- ===== src/Paragraphs/Collected.antt =====
-- server.py, `_translate_paragraphs`: what the translated groups change.
use cwa_e_book_translate_plu.Prelude.{
  subst, sym, ap, ◌∙◌, ℕ, ◌≡◌, refl, arith, not, ◌||◌, Bool-cases, Option-cases, Result-cases, ◌⊎◌,
  inl, inr, ok, List, [], ◌∷◌, ◌++◌, concat, some, Text, get_elem?, All,
}
use cwa_e_book_translate_plu.Envelope.Contract.{TranslationCacheContract}
use cwa_e_book_translate_plu.Envelope.Group.{BatchTranslationItem, GroupResult}
use cwa_e_book_translate_plu.Cache.Store.{Entry}
use cwa_e_book_translate_plu.Window.{
  Event, Answer, answered, rejected, waiting, exceeded, translate_batch_detailed,
}
use cwa_e_book_translate_plu.Window.Results.{In, Apart, get-set_ne}
use cwa_e_book_translate_plu.Window.Answered.{In-append_left, In-append_right}
use cwa_e_book_translate_plu.Paragraphs.{Request, Config, Env, Session, Response, Planned}
use cwa_e_book_translate_plu.Paragraphs.Collect.{
  is_marker, serve_item, cache_entry, collect_group, collect_groups, groups_of, translate_missing,
}
use cwa_e_book_translate_plu.Paragraphs.Hits.{Found}
use cwa_e_book_translate_plu.Paragraphs.Atomic.{
  Under, IsFresh, IsAtomic, Served, Kept, Kept-FromCache,
}

-- What the translated items change: nothing that is cached, and texts at the indices of their groups.
pub record Collected (p q : Response) (j : ℕ) (away : Type 0) : Type 0 where
  pub flags : q.cached ≡ p.cached
  pub texts : away → get_elem? q.translations j ≡ get_elem? p.translations j

pub start_item :
    (p q : Response) (i j : ℕ) (group : List ℕ) (item : BatchTranslationItem)
    → Collected (serve_item p i item) q j (¬ (In j group))
    → Collected p q j (¬ (In j (i ∷ group)))
unfolding serve_item
start_item p q i j group item l = record {
  flags = l.flags;
  texts = λ n.
      l.texts (λ x. n (inr x)) ∙ get-set_ne p.translations i j item.text (λ e. n (inl (sym e)));
}

pub collect_group-Collected :
    (c : Config) (r : Request) (results : List BatchTranslationItem)
    (k : TranslationCacheContract Text) (p q : Response) (writes more : List Entry) (group : List ℕ)
    (j : ℕ)
    → collect_group c r results k p writes group ≡ ok (q, more)
    → Collected p q j (¬ (In j group))
unfolding collect_group serve_item
collect_group-Collected c r results k p q writes more [] j e =
    let same : p ≡ q = ground (arith, e) in
    subst (λ u. Collected p u j (¬ (In j []))) same (record { flags = refl; texts = λ n. refl })
collect_group-Collected c r results k p q writes more (i ∷ group) j e =
    elim (Option-cases (get_elem? results i)) [
      | inl z ↦ ground (arith, z, e)
      | inr (item, z) ↦ elim (Bool-cases (is_marker item.text || not item.server_cacheable)) [
        | inl m ↦ next item (
            collect_group-Collected c r results k (serve_item p i item) q writes more group j
              (ground (arith, z, m, e)))
        | inr m ↦ elim (Result-cases (cache_entry c r k i item)) [
          | inl (x, w) ↦ ground (arith, z, m, w, e)
          | inr (entry, w) ↦ next item (
              collect_group-Collected c r results k (serve_item p i item) q (writes ++ entry ∷ [])
                more group j (ground (arith, z, m, w, e)))
        ]
      ]
    ]
  where
    next :
        (item : BatchTranslationItem)
        → Collected (serve_item p i item) q j (¬ (In j group))
        → Collected p q j (¬ (In j (i ∷ group)))
    next item l = start_item p q i j group item l

pub collect_groups-Collected :
    (c : Config) (r : Request) (results : List BatchTranslationItem) (p q : Response)
    (writes more : List Entry) (planned : List Planned) (j : ℕ)
    → collect_groups c r results p writes planned ≡ ok (q, more)
    → Collected p q j (¬ (In j (concat (groups_of planned))))
unfolding collect_groups
collect_groups-Collected c r results p q writes more [] j e =
    let same : p ≡ q = ground (arith, e) in
    subst (λ u. Collected p u j (¬ (In j []))) same (record { flags = refl; texts = λ n. refl })
collect_groups-Collected c r results p q writes more ((g, k) ∷ planned) j e =
    elim (Result-cases (collect_group c r results k p writes g)) [
      | inl (x, z) ↦ ground (arith, z, e)
      | inr ((u, w), z) ↦
          let a = collect_group-Collected c r results k p u writes w g j z in
          let b =
            collect_groups-Collected c r results u q w more planned j (ground (arith, z, e)) in
          record {
            flags = b.flags ∙ a.flags;
            texts = λ n.
                b.texts (λ x. n (In-append_right j g (concat (groups_of planned)) x))
                ∙ a.texts (λ x. n (In-append_left j g (concat (groups_of planned)) x));
          }
    ]

pub In-append_cases : (j : ℕ) (xs ys : List ℕ) → In j (xs ++ ys) → In j xs ⊎ In j ys
In-append_cases j [] ys x = inr x
In-append_cases j (i ∷ xs) ys (inl e) = inl (inl e)
In-append_cases j (i ∷ xs) ys (inr x) = elim (In-append_cases j xs ys x) [
  | inl y ↦ inl (inr y)
  | inr y ↦ inr y
]

pub Apart-from :
    (h : List ℕ) (gs : List (List ℕ)) (j : ℕ) → In j h → All (Apart h) gs → ¬ (In j (concat gs))
Apart-from h [] j x a y = y
Apart-from h (g ∷ gs) j x a y = elim (In-append_cases j g (concat gs) y) [
  | inl z ↦ a.0 j x z
  | inr z ↦ Apart-from h gs j x a.1 z
]

-- from the cached flags and the texts away from the missing groups
pub Served-IsAtomic :
    (U : Under) (F : Found) (p q : Response) (missing : List (List ℕ)) (g : List ℕ)
    → ((j : ℕ) → Collected p q j (¬ (In j (concat missing))))
    → Served U F p missing g
    → IsAtomic U F q g
Served-IsAtomic U F p q missing g k (inl (scope, under, f, a)) =
    inl (scope, under, Kept-FromCache F scope p q g (kept g (λ j x. Apart-from g missing j x a)) f)
  where
    kept : (h : List ℕ) → ((j : ℕ) → In j h → ¬ (In j (concat missing))) → Kept p q h
    kept [] n = tt
    kept (i ∷ h) n = (
      ((k i).texts (n i (inl refl)), ap (λ xs. get_elem? xs i) (k i).flags),
      kept h (λ j x. n j (inr x)),
    )
Served-IsAtomic U F p q missing g k (inr f) = inr (fresh g f)
  where
    fresh : (h : List ℕ) → All (IsFresh p) h → All (IsFresh q) h
    fresh [] f = tt
    fresh (i ∷ h) f = (ap (λ xs. get_elem? xs i) (k i).flags ∙ f.0, fresh h f.1)

pub translate_missing-Collected :
    (c : Config) (env : Env) (r : Request) (outcome : List ℕ → GroupResult) (es : List Event)
    (s : Session) (p q : Response) (missing : List Planned) (j : ℕ)
    → (translate_missing c env r outcome es s p missing).1 ≡ ok q
    → Collected p q j (¬ (In j (concat (groups_of missing))))
unfolding translate_missing
translate_missing-Collected c env r outcome es s p q [] j e =
    let same : p ≡ q = ground (arith, e) in
    subst (λ u. Collected p u j (¬ (In j []))) same (record { flags = refl; texts = λ n. refl })
translate_missing-Collected c env r outcome es s p q (m ∷ missing) j e =
    go
      (translate_batch_detailed c.batch r.paragraphs (some (groups_of (m ∷ missing)))
        c.max_concurrent outcome es)
      refl
  where
    go :
        (a : Answer)
        → translate_batch_detailed c.batch r.paragraphs
            (some (groups_of (m ∷ missing)))
            c.max_concurrent
            outcome
            es
          ≡ a
        → Collected p q j (¬ (In j (concat (groups_of (m ∷ missing)))))
    go rejected z = ground (arith, z, e)
    go waiting z = ground (arith, z, e)
    go (exceeded reason) z = ground (arith, z, e)
    go (answered results) z = elim (Result-cases (collect_groups c r results p [] (m ∷ missing))) [
      | inl (x, w) ↦ ground (arith, z, w, e)
      | inr ((u, writes), w) ↦
          let same : u ≡ q = ground (arith, z, w, e) in
          subst (λ v. Collected p v j (¬ (In j (concat (groups_of (m ∷ missing)))))) same
            (collect_groups-Collected c r results p u [] writes (m ∷ missing) j w)
    ]
