-- ===== src/Digest.antt =====
-- A digest without collisions, which stands in for SHA-256 where a theorem supposes that there are none.
use cwa_e_book_translate_plu.Prelude.{◌≡◌, refl, arith, List, [], ◌∷◌, ◌++◌, Text, length}

-- the parts with their lengths, which are the digest's stand-in
abbrev pub encode : List Text → Text
encode [] = []
encode (t ∷ ts) = length t ∷ (t ++ encode ts)

same_length : (s t u v : Text) → length s ≡ length t → s ++ u ≡ t ++ v → (s ≡ t) × (u ≡ v)
same_length [] [] u v n e = (refl, e)
same_length [] (y ∷ t) u v n e = absurd (omega (arith, n))
same_length (x ∷ s) [] u v n e = absurd (omega (arith, n))
same_length (x ∷ s) (y ∷ t) u v n e =
    let head : x ≡ y = ground (arith, e) in
    let tail : s ++ u ≡ t ++ v = ground (arith, e) in
    let (p, q) = same_length s t u v (omega (arith, n)) tail in (ground (arith, head, p), q)

pub encode_inj : (u v : List Text) → encode u ≡ encode v → u ≡ v
encode_inj [] [] e = refl
encode_inj [] (t ∷ ts) e = ground arith
encode_inj (t ∷ ts) [] e = ground arith
encode_inj (s ∷ ss) (t ∷ ts) e =
    let size : length s ≡ length t = ground (arith, e) in
    let rest : s ++ encode ss ≡ t ++ encode ts = ground (arith, e) in
    let (p, q) = same_length s t (encode ss) (encode ts) size rest in
    let more : ss ≡ ts = encode_inj ss ts q in ground (arith, p, more)
