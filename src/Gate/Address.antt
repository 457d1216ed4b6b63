-- ===== src/Gate/Address.antt =====
-- server.py, `_client_ip`: the header counts only from a trusted peer, and only by its last hop.
use cwa_e_book_translate_plu.Prelude.{
  ◌∙◌, ◌≡◌, refl, arith, Bool, true, false, Bool-cases, not, ◌&&◌, ◌||◌, List, [], ◌∷◌, ◌++◌,
  Option, Text, strip, split_on, split_parts, all, inl, inr, ◌==◌, if◌then◌else◌,
}
use cwa_e_book_translate_plu.Batch.{is_empty}
use cwa_e_book_translate_plu.Gate.{Proxies, among, last_part, peer_of, last_hop, client_ip}

-- the peer, if it is trusted to name another address
abbrev pub is_trusted : Proxies → List Text → Option Text → Bool
is_trusted x addresses remote_addr =
    let peer = peer_of remote_addr in
    if x.has_networks || not (is_empty x.host)
    then x.is_ip peer && (x.in_networks peer || among x peer addresses)
    else x.trust_any

-- A peer that is not trusted is counted under its own address, whatever header it sends.
pub client_ip-is_trusted :
    (x : Proxies) (addresses : List Text) (remote_addr : Option Text) (fwd : Text)
    → is_trusted x addresses remote_addr ≡ false
    → client_ip x addresses remote_addr fwd ≡ peer_of remote_addr
unfolding client_ip
client_ip-is_trusted x addresses remote_addr fwd h = ground (arith, h)

plain_part : (b : Text) → all (λ c. not (c == 44)) b ≡ true → (split_parts 44 b).0 ≡ b
unfolding split_parts
plain_part [] h = refl
plain_part (c ∷ b) h = ground (arith, plain_part b)

plain_parts : (b : Text) → all (λ c. not (c == 44)) b ≡ true → (split_parts 44 b).1 ≡ []
unfolding split_parts
plain_parts [] h = refl
plain_parts (c ∷ b) h = ground (arith, plain_parts b)

last_part-of : (t : Text) (ts : List Text) → is_empty ts ≡ false → last_part (t ∷ ts) ≡ last_part ts
last_part-of t [] h = ground arith
last_part-of t (u ∷ ts) h = refl

last_part-split :
    (a b : Text)
    → all (λ c. not (c == 44)) b ≡ true
    → (is_empty (split_parts 44 (a ++ 44 ∷ b)).1 ≡ false)
      × (last_part (split_parts 44 (a ++ 44 ∷ b)).1 ≡ b)
unfolding split_parts
last_part-split [] b h = (refl, ground (arith, plain_part b h, plain_parts b h))
last_part-split (c ∷ a) b h =
    let (filled, last) = last_part-split a b h in
    elim (Bool-cases (c == 44)) [
      | inl e ↦ (
        ground (arith, e),
        ground (
          arith,
          e,
          last_part-of (split_parts 44 (a ++ 44 ∷ b)).0 (split_parts 44 (a ++ 44 ∷ b)).1 filled,
          last,
        ),
      )
      | inr e ↦ (ground (arith, e, filled), ground (arith, e, last))
    ]

-- For a trusted peer, a request is counted under the last hop of its header, the address that the
-- peer has appended, whatever stands before it.
pub client_ip-last_hop :
    (x : Proxies) (addresses : List Text) (remote_addr : Option Text) (forged hop : Text)
    → is_trusted x addresses remote_addr ≡ true
    → all (λ c. not (c == 44)) hop ≡ true
    → is_empty (strip hop) ≡ false
    → client_ip x addresses remote_addr (forged ++ 44 ∷ hop) ≡ strip hop
unfolding client_ip last_hop split_on
client_ip-last_hop x addresses remote_addr forged hop t h n =
    let (filled, last) = last_part-split forged hop h in
    let last : last_part (split_on 44 (forged ++ 44 ∷ hop)) ≡ hop =
      last_part-of (split_parts 44 (forged ++ 44 ∷ hop)).0 (split_parts 44 (forged ++ 44 ∷ hop)).1
        filled
      ∙ last in
    let whole : is_empty (forged ++ 44 ∷ hop) ≡ false = long forged in
    let found : last_hop (forged ++ 44 ∷ hop) ≡ strip hop = ground (arith, whole, last) in
    ground (arith, found, t, n)
  where
    long : (a : Text) → is_empty (a ++ 44 ∷ hop) ≡ false
    long [] = refl
    long (c ∷ a) = refl
