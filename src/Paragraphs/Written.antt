-- ===== src/Paragraphs/Written.antt =====
-- server.py, `_translate_paragraphs`, and translator.py, `model_for_provider`: what is written to the
-- cache is what later lookups ask for.
use cwa_e_book_translate_plu.Prelude.{
  subst, sym, ap, ◌∙◌, ℕ, ◌≡◌, refl, arith, Bool, true, false, Bool-cases, Result-cases, ◌⊎◌, inl,
  inr, ok, String, str_eq, eq_refl, eq_iff, List, [], ◌∷◌, map, Option, none, some, Text,
}
use cwa_e_book_translate_plu.Provider.{Provider, Locality, local, remote}
use cwa_e_book_translate_plu.Provider.Call.{eligible_providers}
use cwa_e_book_translate_plu.Envelope.Contract.{TranslationCacheContract}
use cwa_e_book_translate_plu.Envelope.Group.{BatchTranslationItem}
use cwa_e_book_translate_plu.Cache.{CacheScope}
use cwa_e_book_translate_plu.Cache.Store.{Entry}
use cwa_e_book_translate_plu.Paragraphs.{
  Request, Config, model_for_provider, cache_lookup_backends, cache_scope, query_of,
}
use cwa_e_book_translate_plu.Paragraphs.Collect.{cache_entry}

abbrev pub OneOf : {A : Type 0} → A → List A → Type 0
OneOf x [] = ⊥
OneOf x (y ∷ ys) = (x ≡ y) ⊎ OneOf x ys

OneOf-map : {A B : Type 0} (f : A → B) (x : A) (xs : List A) → OneOf x xs → OneOf (f x) (map f xs)
OneOf-map f x [] o = elim o [ ]
OneOf-map f x (y ∷ ys) (inl e) = inl (ap f e)
OneOf-map f x (y ∷ ys) (inr o) = inr (OneOf-map f x ys o)

model_of_primary :
    (primary : Provider) (fallback : Option Provider)
    → model_for_provider primary fallback primary.cache_namespace ≡ primary.model
unfolding model_for_provider
model_of_primary primary fallback = rw (eq_refl primary.cache_namespace) refl

model_of_fallback :
    (primary f : Provider)
    → str_eq f.cache_namespace primary.cache_namespace ≡ false
    → model_for_provider primary (some f) f.cache_namespace ≡ f.model
unfolding model_for_provider
model_of_fallback primary f h = rw (h, eq_refl f.cache_namespace) refl

two_providers :
    (primary f p : Provider) (allow : Bool)
    → OneOf p (eligible_providers primary (some f) allow)
    → (p ≡ primary) ⊎ (p ≡ f)
unfolding eligible_providers
two_providers primary f p allow o = go f.locality allow refl refl
  where
    one : OneOf p (primary ∷ []) → (p ≡ primary) ⊎ (p ≡ f)
    one (inl e) = inl e
    one (inr x) = elim x [ ]

    two : OneOf p (primary ∷ f ∷ []) → (p ≡ primary) ⊎ (p ≡ f)
    two (inl e) = inl e
    two (inr (inl e)) = inr e
    two (inr (inr x)) = elim x [ ]

    go : (l : Locality) (b : Bool) → f.locality ≡ l → allow ≡ b → (p ≡ primary) ⊎ (p ≡ f)
    go local b h a =
        let both : eligible_providers primary (some f) allow ≡ primary ∷ f ∷ [] =
          ground (arith, h) in
        two (subst (OneOf p) both o)
    go remote true h a =
        let both : eligible_providers primary (some f) allow ≡ primary ∷ f ∷ [] =
          ground (arith, h, a) in
        two (subst (OneOf p) both o)
    go remote false h a =
        let first : eligible_providers primary (some f) allow ≡ primary ∷ [] =
          ground (arith, h, a) in
        one (subst (OneOf p) first o)

-- The model of the entry: the provider's own, or the primary's for a fallback that shares its namespace.
abbrev pub ModelOf : Provider → Provider → String → Type 0
ModelOf primary p m =
    (m ≡ p.model) ⊎ ((m ≡ primary.model) × (primary.cache_namespace ≡ p.cache_namespace))

-- the model of an eligible provider's entries, which a lookup asks for
abbrev IsAsked : Provider → Option Provider → Bool → Provider → String → Type 0
IsAsked primary fallback allow p m =
    ModelOf primary p m
    × OneOf (p.cache_namespace, m) (cache_lookup_backends primary fallback allow)

primary_first :
    (primary : Provider) (fallback : Option Provider) (allow : Bool)
    → OneOf primary (eligible_providers primary fallback allow)
unfolding eligible_providers
primary_first primary none allow = inl refl
primary_first primary (some f) allow = go f.locality allow refl refl
  where
    go :
        (l : Locality) (b : Bool)
        → f.locality ≡ l
        → allow ≡ b
        → OneOf primary (eligible_providers primary (some f) allow)
    go local b h a =
        let both : eligible_providers primary (some f) allow ≡ primary ∷ f ∷ [] =
          ground (arith, h) in
        subst (OneOf primary) (sym both) (inl refl)
    go remote true h a =
        let both : eligible_providers primary (some f) allow ≡ primary ∷ f ∷ [] =
          ground (arith, h, a) in
        subst (OneOf primary) (sym both) (inl refl)
    go remote false h a =
        let first : eligible_providers primary (some f) allow ≡ primary ∷ [] =
          ground (arith, h, a) in
        subst (OneOf primary) (sym first) (inl refl)

-- a backend that a lookup asks for, from a provider of the request
asked :
    (primary : Provider) (fallback : Option Provider) (allow : Bool) (p : Provider)
    → OneOf p (eligible_providers primary fallback allow)
    → OneOf (p.cache_namespace, p.model) (cache_lookup_backends primary fallback allow)
unfolding cache_lookup_backends
asked primary fallback allow p o =
    OneOf-map (λ (q : Provider). (q.cache_namespace, q.model)) p
      (eligible_providers primary fallback allow) o

primary-IsAsked :
    (primary : Provider) (fallback : Option Provider) (allow : Bool)
    → IsAsked primary fallback allow primary
        (model_for_provider primary fallback primary.cache_namespace)
primary-IsAsked primary fallback allow = (
  inl (model_of_primary primary fallback),
  subst (λ m. OneOf (primary.cache_namespace, m) (cache_lookup_backends primary fallback allow))
      (sym (model_of_primary primary fallback))
      (asked primary fallback allow primary (primary_first primary fallback allow)),
)

fallback-IsAsked :
    (primary f : Provider) (allow : Bool)
    → OneOf f (eligible_providers primary (some f) allow)
    → IsAsked primary (some f) allow f (model_for_provider primary (some f) f.cache_namespace)
fallback-IsAsked primary f allow o =
    elim (Bool-cases (str_eq f.cache_namespace primary.cache_namespace)) [
      | inl h ↦
          let same = (eq_iff f.cache_namespace primary.cache_namespace).0 h in
          let m : model_for_provider primary (some f) f.cache_namespace ≡ primary.model =
            ap (model_for_provider primary (some f)) same ∙ model_of_primary primary (some f) in
          (
            inr (m, sym same),
            subst (λ n. OneOf n (cache_lookup_backends primary (some f) allow))
                (ap (λ n. (n, primary.model)) (sym same) ∙ ap (λ n. (f.cache_namespace, n)) (sym m))
                (asked primary (some f) allow primary (primary_first primary (some f) allow)),
          )
      | inr h ↦
          let m = model_of_fallback primary f h in
          (
            inl m,
            subst (λ n. OneOf (f.cache_namespace, n) (cache_lookup_backends primary (some f) allow))
                (sym m) (asked primary (some f) allow f o),
          )
    ]

eligible-IsAsked :
    (primary : Provider) (fallback : Option Provider) (allow : Bool) (p : Provider)
    → OneOf p (eligible_providers primary fallback allow)
    → IsAsked primary fallback allow p (model_for_provider primary fallback p.cache_namespace)
unfolding eligible_providers
eligible-IsAsked primary none allow p (inl e) =
    subst
      (λ (q : Provider).
        IsAsked primary none allow q (model_for_provider primary none q.cache_namespace))
      (sym e) (primary-IsAsked primary none allow)
eligible-IsAsked primary none allow p (inr o) = elim o [ ]
eligible-IsAsked primary (some f) allow p o = elim (two_providers primary f p allow o) [
  | inl e ↦
      subst
        (λ (q : Provider).
          IsAsked primary (some f) allow q (model_for_provider primary (some f) q.cache_namespace))
        (sym e) (primary-IsAsked primary (some f) allow)
  | inr e ↦
      subst
        (λ (q : Provider).
          IsAsked primary (some f) allow q (model_for_provider primary (some f) q.cache_namespace))
        (sym e)
        (fallback-IsAsked primary f allow
          (subst (λ q. OneOf q (eligible_providers primary (some f) allow)) e o))
]

-- An item that a provider of the request has served is written under a scope that the next lookup with
-- the same contract asks for: that of the provider's namespace and a model that the lookup asks for
-- under it. The model is the provider's own, unless the provider shares the primary's namespace, where
-- it may be the primary's.
pub cache_entry-cache_lookup_backends :
    (c : Config) (r : Request) (k : TranslationCacheContract Text) (index : ℕ)
    (item : BatchTranslationItem) (w : Entry) (p : Provider)
    → OneOf p (eligible_providers c.primary c.fallback r.allow_cloud_fallback)
    → item.provider ≡ p.cache_namespace
    → cache_entry c r k index item ≡ ok w
    → (scope : CacheScope) × (m : String) × (cache_scope r k p.cache_namespace m ≡ ok scope)
      × (w ≡ (query_of r scope index, item.text))
      × ModelOf c.primary p m
      × OneOf
          (p.cache_namespace, m)
          (cache_lookup_backends c.primary c.fallback r.allow_cloud_fallback)
unfolding cache_entry
cache_entry-cache_lookup_backends c r k index item w p o s e =
    let m = model_for_provider c.primary c.fallback p.cache_namespace in
    let own : model_for_provider c.primary c.fallback item.provider ≡ m =
      ap (model_for_provider c.primary c.fallback) s in
    let (own_model, looked_up) = eligible-IsAsked c.primary c.fallback r.allow_cloud_fallback p o in
    elim (Result-cases
      (cache_scope r k item.provider (model_for_provider c.primary c.fallback item.provider))) [
        | inl (x, z) ↦ ground (arith, z, e)
        | inr (scope, z) ↦ (
          scope,
          m,
          subst (λ n. cache_scope r k n m ≡ ok scope) s
              (subst (λ n. cache_scope r k item.provider n ≡ ok scope) own z),
          ground (arith, z, e),
          own_model,
          looked_up,
        )
      ]
