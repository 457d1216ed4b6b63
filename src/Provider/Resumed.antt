-- ===== src/Provider/Resumed.antt =====
-- translator.py, translate_text_stream: the stream with a fallback, from the streams of each provider
-- by itself.
use cwa_e_book_translate_plu.Prelude.{◌≡◌, ◌≢◌, Bool, true, false, List, ◌++◌, ◌⊎◌}
use cwa_e_book_translate_plu.Provider.{Provider, local, remote, World}
use cwa_e_book_translate_plu.Provider.Stream.{StreamEnd, exhausted, Delta, Turn, next, last}

-- The provider stays with the user, or the request allows the others.
abbrev pub IsAllowed : Provider → Bool → Type 0
IsAllowed q allow = (q.locality ≡ local) ⊎ (allow ≡ true)

abbrev pub IsBarred : Provider → Bool → Type 0
IsBarred q allow = (q.locality ≡ remote) × (allow ≡ false)

abbrev pub Outcome : Type 0
Outcome = World × List Delta × StreamEnd

-- The primary's stream by itself is all, where it ended the request or the fallback is barred;
-- or it was not enough, and the fallback's follows it.
abbrev pub Follows : Provider → Bool → Outcome → Outcome → (World → Outcome) → Type 0
Follows q allow both alone then =
    ((both ≡ alone) × ((alone.2 ≢ exhausted) ⊎ IsBarred q allow))
    ⊎ ((alone.2 ≡ exhausted)
        × IsAllowed q allow
        × (both ≡ ((then alone.0).0, alone.1 ++ (then alone.0).1, (then alone.0).2)))

-- the end of a turn is not that of a stream that went through all providers
abbrev IsEnd : Turn → Type 0
IsEnd next = Unit
IsEnd (last e) = e ≢ exhausted
