-- ===== src/Auth/Forwarded.antt =====
-- auth.py: whom the forwarded mode trusts, and what a decision of the CWA authority is about.
use Prim.Native.Nat.{◌≤◌}
use cwa_e_book_translate_plu.Prelude.{
  subst, sym, ap, ◌∙◌, ◌≡◌, refl, arith, true, not, ◌&&◌, ◌||◌, Bool-cases, inl, inr, ok, List, [],
  ◌∷◌, ◌++◌, Option, none, some, Text, codes, length, all, split_on, ltb,
}
use cwa_e_book_translate_plu.Batch.{is_empty}
use cwa_e_book_translate_plu.Auth.{
  AuthIdentity, CwaSessionBinding, Headers, Config, is_subject, is_role, without_blank, peer_text,
  authenticate_forwarded, validated_cwa_binding, agent_part, cwa_decision_key, cwa_keys,
}

-- What a forwarded identity rests on.
pub record IsTrusted (c : Config) (h : Headers) (remote_addr : Option Text) (i : AuthIdentity)
    : Type 0 where
  pub no_cookie : is_empty h.cookie ≡ true
  pub address : c.is_ip (peer_text remote_addr) ≡ true
  pub proxy : c.in_networks (peer_text remote_addr) ≡ true
  pub clean : is_subject h.forwarded_subject ≡ true
  pub hashed : i.subject ≡ codes "forwarded:" ++ c.session_hash h.forwarded_subject
  pub listed : i.roles ≡ without_blank (split_on 44 h.forwarded_roles)
  pub named : all is_role i.roles ≡ true
  pub few : length i.roles ≤ 32

-- In the forwarded mode an identity is given only to a request without a cookie whose peer is one of the
-- identity proxies, for the clean subject that the proxy names; its roles are those of the header, at
-- most 32 and each of the form of a role.
pub authenticate_forwarded-IsTrusted :
    (c : Config) (h : Headers) (remote_addr : Option Text) (i : AuthIdentity)
    → authenticate_forwarded c h remote_addr ≡ ok i
    → IsTrusted c h remote_addr i
unfolding authenticate_forwarded
authenticate_forwarded-IsTrusted c h remote_addr i e =
    let roles = without_blank (split_on 44 h.forwarded_roles) in
    elim (Bool-cases (is_empty h.cookie)) [
      | inr a ↦ ground (arith, a, e)
      | inl a ↦
          elim (Bool-cases
            (c.is_ip (peer_text remote_addr) && c.in_networks (peer_text remote_addr))) [
              | inr b ↦ ground (arith, a, b, e)
              | inl b ↦ elim (Bool-cases (is_subject h.forwarded_subject)) [
                | inr d ↦ ground (arith, a, b, d, e)
                | inl d ↦
                    elim (Bool-cases (
                      ltb 2048 (length h.forwarded_roles)
                      || ltb 32 (length roles)
                      || not (all is_role roles))) [
                        | inl f ↦ ground (arith, a, b, d, f, e)
                        | inr f ↦
                            let listed : i.roles ≡ roles = ground (arith, a, b, d, f, e) in
                            record {
                              no_cookie = a;
                              address = ground (arith, b);
                              proxy = ground (arith, b);
                              clean = d;
                              hashed = ground (arith, a, b, d, f, e);
                              listed = listed;
                              named = ap (all is_role) listed ∙ ground (arith, f);
                              few = subst (λ rs. length rs ≤ 32) (sym listed) (ground (arith, f));
                            }
                      ]
              ]
            ]
    ]

agent_part_inj : (a b : Option Text) → agent_part a ≡ agent_part b → a ≡ b
unfolding agent_part
agent_part_inj none none e = refl
agent_part_inj none (some b) e = ground arith
agent_part_inj (some a) none e = ground arith
agent_part_inj (some a) (some b) e = ground (arith, e)

keys_of :
    (c : Config) (h : Headers) (binding : Option CwaSessionBinding) (s k : Text)
    → cwa_keys c h binding ≡ ok (s, k)
    → (b : CwaSessionBinding) × (binding ≡ some b)
      × (k ≡ c.decision_hash (s ∷ b.cwa_remote_addr ∷ agent_part b.user_agent ∷ []))
unfolding cwa_keys validated_cwa_binding cwa_decision_key
keys_of c h none s k e = ground (arith, e)
keys_of c h (some b) s k e = (b, refl, ground (arith, e))

-- If no two lists of parts have the same digest, two requests that share a decision of the authority
-- have the same session, come from the same address and name the same User-Agent.
pub cwa_keys-same :
    (c : Config) (h g : Headers) (x y : Option CwaSessionBinding) (s t k : Text)
    → ((u v : List Text) → c.decision_hash u ≡ c.decision_hash v → u ≡ v)
    → cwa_keys c h x ≡ ok (s, k)
    → cwa_keys c g y ≡ ok (t, k)
    → (s ≡ t) × (x ≡ y)
cwa_keys-same c h g x y s t k inj p q =
    let (b, xb, kb) = keys_of c h x s k p in
    let (d, yd, kd) = keys_of c g y t k q in
    let parts = inj _ _ (sym kb ∙ kd) in
    let session : s ≡ t = ground (arith, parts) in
    let address : b.cwa_remote_addr ≡ d.cwa_remote_addr = ground (arith, parts) in
    let agents : agent_part b.user_agent ≡ agent_part d.user_agent = ground (arith, parts) in
    let agent = agent_part_inj b.user_agent d.user_agent agents in
    let same : b ≡ d = ground (arith, address, agent) in (session, xb ∙ ap some same ∙ sym yd)
