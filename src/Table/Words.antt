-- ===== src/Table/Words.antt =====
-- Words that are set apart by blanks, and how the tokenizer reads one of them.
use excelize.Common.{◌≡◌, refl, false, List, [], ◌∷◌, ◌++◌, ◌==◌, Bytes}
use excelize.Table.Tokens.{is_space, quote, plain}

-- Bytes that are no blanks; a word has one, and does not begin with a quote.
abbrev pub IsPlain : Bytes → Type 0
IsPlain [] = Unit
IsPlain (c ∷ s) = (is_space c ≡ false) × IsPlain s

abbrev pub IsWord : Bytes → Type 0
IsWord [] = ⊥
IsWord (c ∷ s) = ((c == quote) ≡ false) × (is_space c ≡ false) × IsPlain s

abbrev pub AllWords : List Bytes → Type 0
AllWords [] = Unit
AllWords (w ∷ ws) = IsWord w × AllWords ws

-- The words with a blank behind each but the last.
abbrev pub joined : List Bytes → Bytes
joined [] = []
joined (w ∷ []) = w
joined (w ∷ v ∷ ws) = w ++ b' ' ∷ joined (v ∷ ws)

pub plain-IsPlain : (s : Bytes) → IsPlain s → plain s ≡ (s, [])
unfolding plain
plain-IsPlain [] h = refl
plain-IsPlain (c ∷ s) (h, hs) = rw (h, plain-IsPlain s hs) refl

pub plain-append : (s t : Bytes) → IsPlain s → plain (s ++ b' ' ∷ t) ≡ (s, b' ' ∷ t)
unfolding plain
plain-append [] t h = refl
plain-append (c ∷ s) t (h, hs) = rw (h, plain-append s t hs) refl
