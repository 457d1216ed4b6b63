-- ===== src/Metrics/Labels.antt =====
-- server.py: the labels and the sums of the counts.
use cwa_e_book_translate_plu.Prelude.{
  subst, sym, ◌∙◌, ℕ, ◌+◌, ◌≡◌, refl, arith, true, Bool-cases, inl, inr, List, [], ◌∷◌, some, Text,
  codes, text_eq,
}
use cwa_e_book_translate_plu.Dict.{get_or, assign}
use cwa_e_book_translate_plu.Metrics.{
  Counts, add_to, response_classes, outcome_names, budget_reasons, size_names, token_names,
  latency_names, latency_bucket, response_class, is_name, bounded_reason, group_size_bucket,
  source_token_bucket, add_counts,
}

abbrev pub total : Counts → ℕ
total [] = 0
total ((k, n) ∷ counts) = n + total counts

abbrev pub keys : Counts → List Text
keys [] = []
keys ((k, n) ∷ counts) = k ∷ keys counts

pub total-add_to :
    (name : Text) (n : ℕ) (counts : Counts) → total (add_to name n counts) ≡ total counts + n
unfolding add_to assign get_or
total-add_to name n [] = omega arith
total-add_to name n ((k, m) ∷ counts) = ground (arith, total-add_to name n counts)

pub keys-add_to :
    (name : Text) (n : ℕ) (counts : Counts)
    → is_name name (keys counts) ≡ true
    → keys (add_to name n counts) ≡ keys counts
unfolding add_to assign get_or
keys-add_to name n [] h = ground arith
keys-add_to name n ((k, m) ∷ counts) h = elim (Bool-cases (text_eq k name)) [
  | inl e ↦ ground (arith, e)
  | inr e ↦ ground (arith, e, keys-add_to name n counts (ground (arith, e, h)))
]

-- The counts have these labels.
abbrev pub Labels : List Text → Counts → Type 0
Labels names counts = keys counts ≡ names

pub add_to-Labels :
    (names : List Text) (name : Text) (n : ℕ) (counts : Counts)
    → is_name name names ≡ true
    → Labels names counts
    → Labels names (add_to name n counts)
add_to-Labels names name n counts h l =
    keys-add_to name n counts (subst (λ ks. is_name name ks ≡ true) (sym l) h) ∙ l

pub total-add_counts :
    (more counts : Counts) → total (add_counts more counts) ≡ total more + total counts
unfolding add_counts
total-add_counts [] counts = omega arith
total-add_counts ((k, n) ∷ more) counts =
    omega (arith, total-add_counts more (add_to k n counts), total-add_to k n counts)

abbrev pub AllNames : List Text → List Text → Type 0
AllNames [] names = Unit
AllNames (k ∷ ks) names = (is_name k names ≡ true) × AllNames ks names

pub add_counts-Labels :
    (names : List Text) (more counts : Counts)
    → AllNames (keys more) names
    → Labels names counts
    → Labels names (add_counts more counts)
unfolding add_counts
add_counts-Labels names [] counts a l = l
add_counts-Labels names ((k, n) ∷ more) counts a l =
    add_counts-Labels names more (add_to k n counts) a.1 (add_to-Labels names k n counts a.0 l)

pub latency_bucket-name : (n : ℕ) → is_name (latency_bucket n) latency_names ≡ true
unfolding latency_bucket text_eq
latency_bucket-name n = ground arith

pub size_bucket-name : (n : ℕ) → is_name (group_size_bucket n) size_names ≡ true
unfolding group_size_bucket text_eq
size_bucket-name n = ground arith

pub token_bucket-name : (n : ℕ) → is_name (source_token_bucket n) token_names ≡ true
unfolding source_token_bucket text_eq
token_bucket-name n = ground arith

pub class-name : (n : ℕ) (t : Text) → response_class n ≡ some t → is_name t response_classes ≡ true
unfolding response_class text_eq
class-name n t e = ground (arith, e)

pub unknown_name : is_name (codes "unknown") budget_reasons ≡ true
unfolding text_eq
unknown_name = refl

pub exhausted_name : is_name (codes "work_budget_exhausted") outcome_names ≡ true
unfolding text_eq
exhausted_name = refl

pub partial_name : is_name (codes "batch_partial_failure_requests") outcome_names ≡ true
unfolding text_eq
partial_name = refl

pub bounded_reason-name : (t : Text) → is_name (bounded_reason t) budget_reasons ≡ true
unfolding bounded_reason
bounded_reason-name t = elim (Bool-cases (is_name t budget_reasons)) [
  | inl e ↦ ground (arith, e)
  | inr e ↦ ground (arith, e, unknown_name)
]
