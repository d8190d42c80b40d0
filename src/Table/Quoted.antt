-- ===== src/Table/Quoted.antt =====
-- The tokens of a text of words and of quoted texts that are set apart by blanks.
use excelize.Common.{
  ℕ, zero, suc, ◌≤◌, ◌≡◌, refl, sym, ap, ◌∙◌, ◌⊎◌, inl, inr, false, Option, some, List, [], ◌∷◌,
  ◌++◌, arith, ◌==◌, length, length-append, Bytes,
}
use excelize.Table.Tokens.{is_space, quote, onto, quoted, token_at, find_all, tokens_of}
use excelize.Table.Words.{IsWord, AllWords, joined, plain-IsPlain, plain-append}

abbrev pub NoQuote : Bytes → Type 0
NoQuote [] = Unit
NoQuote (c ∷ s) = ((c == quote) ≡ false) × NoQuote s

-- A text between quotes; it may have blanks in it.
abbrev pub in_quotes : Bytes → Bytes
in_quotes s = quote ∷ (s ++ quote ∷ [])

abbrev pub IsToken : Bytes → Type 0
IsToken w = IsWord w ⊎ ((s : Bytes) × (w ≡ in_quotes s) × NoQuote s)

abbrev pub AllTokens : List Bytes → Type 0
AllTokens [] = Unit
AllTokens (w ∷ ws) = IsToken w × AllTokens ws

onto-some :
    (c : ℕ) (q : Option (Bytes × Bytes)) (t r : Bytes)
    → q ≡ some (t, r)
    → onto (c ∷ []) q ≡ some (c ∷ t, r)
onto-some c q t r e = rw e refl

quoted-other :
    (c d : ℕ) (s : Bytes)
    → (c == quote) ≡ false
    → quoted (c ∷ d ∷ s) ≡ onto (c ∷ []) (quoted (d ∷ s))
unfolding quoted
quoted-other c d s h = rw (h, quoted) refl

-- The closing quote is followed by a blank, or by nothing.
quoted-end : (s : Bytes) → NoQuote s → quoted (s ++ quote ∷ []) ≡ some (s ++ quote ∷ [], [])
unfolding quoted
quoted-end [] h = refl
quoted-end (c ∷ []) (h, hs) =
    quoted-other c quote [] h ∙ onto-some c (quoted (quote ∷ [])) _ _ (quoted-end [] tt)
quoted-end (c ∷ d ∷ s) (h, hs) =
    quoted-other c d (s ++ quote ∷ []) h
    ∙ onto-some c (quoted (d ∷ s ++ quote ∷ [])) _ _ (quoted-end (d ∷ s) hs)

quoted-blank :
    (s r : Bytes)
    → NoQuote s
    → quoted ((s ++ quote ∷ []) ++ b' ' ∷ r) ≡ some (s ++ quote ∷ [], b' ' ∷ r)
unfolding quoted
quoted-blank [] r h = refl
quoted-blank (c ∷ []) r (h, hs) =
    quoted-other c quote (b' ' ∷ r) h
    ∙ onto-some c (quoted (quote ∷ b' ' ∷ r)) _ _ (quoted-blank [] r tt)
quoted-blank (c ∷ d ∷ s) r (h, hs) =
    quoted-other c d ((s ++ quote ∷ []) ++ b' ' ∷ r) h
    ∙ onto-some c (quoted ((d ∷ s ++ quote ∷ []) ++ b' ' ∷ r)) _ _ (quoted-blank (d ∷ s) r hs)

-- A token is read to its end, which is the end of the text or a blank.
record ReadsAs (w : Bytes) : Type 0 where
  first : ℕ
  others : Bytes
  form : w ≡ first ∷ others
  visible : is_space first ≡ false
  ends : token_at first others ≡ (first ∷ others, [])
  stops : (r : Bytes) → token_at first (others ++ b' ' ∷ r) ≡ (first ∷ others, b' ' ∷ r)

reads : (w : Bytes) → IsToken w → ReadsAs w
unfolding is_space
reads [] (inl h) = absurd h
reads (c ∷ s) (inl (q, b, p)) = record {
  first = c;
  others = s;
  form = refl;
  visible = b;
  ends = rw (token_at, q, plain-IsPlain s p) refl;
  stops = λ r. rw (token_at, q, plain-append s r p) refl;
}
reads w (inr (s, e, h)) = record {
  first = quote;
  others = s ++ quote ∷ [];
  form = e;
  visible = refl;
  ends = rw (token_at, quoted-end s h) refl;
  stops = λ r. rw (token_at, quoted-blank s r h) refl;
}

find_all-blank :
    (n : ℕ) (s : Bytes)
    → length (b' ' ∷ s) ≤ n
    → (k : ℕ) × (length s ≤ k) × (find_all n (b' ' ∷ s) ≡ find_all k s)
unfolding find_all is_space
find_all-blank zero s h = absurd (omega arith)
find_all-blank (suc n) s h = (n, omega arith, refl)

find_all-step :
    (n c : ℕ) (s t r : Bytes)
    → is_space c ≡ false
    → token_at c s ≡ (t, r)
    → find_all (suc n) (c ∷ s) ≡ t ∷ find_all n r
unfolding find_all
find_all-step n c s t r b e = rw (b, find_all) (ap (λ (p : Bytes × Bytes). p.0 ∷ find_all n p.1) e)

find_all-nil : (n : ℕ) → find_all n [] ≡ []
unfolding find_all
find_all-nil zero = refl
find_all-nil (suc n) = refl

find_all-tokens :
    (ws : List Bytes) (n : ℕ) → AllTokens ws → length (joined ws) ≤ n → find_all n (joined ws) ≡ ws
find_all-tokens [] n h le = find_all-nil n
find_all-tokens (w ∷ []) n (h, hs) le = by_fuel n (rw (reads w h).form at le)
  where
    by_fuel : (n : ℕ) → length ((reads w h).first ∷ (reads w h).others) ≤ n → find_all n w ≡ w ∷ []
    by_fuel zero le = absurd (omega arith)
    by_fuel (suc n) le =
        let x = reads w h in
        ap (find_all (suc n)) x.form
        ∙ find_all-step n x.first x.others _ _ x.visible x.ends
        ∙ ap (λ ts. (x.first ∷ x.others) ∷ ts) (find_all-nil n)
        ∙ ap (λ t. t ∷ []) (sym x.form)
find_all-tokens (w ∷ v ∷ ws) n (h, hs) le =
    by_fuel n (λ k le'. find_all-tokens (v ∷ ws) k hs le') (rw (reads w h).form at le)
  where
    by_fuel :
        (n : ℕ)
        → ((k : ℕ) → length (joined (v ∷ ws)) ≤ k → find_all k (joined (v ∷ ws)) ≡ v ∷ ws)
        → length (((reads w h).first ∷ (reads w h).others) ++ b' ' ∷ joined (v ∷ ws)) ≤ n
        → find_all n (w ++ b' ' ∷ joined (v ∷ ws)) ≡ w ∷ v ∷ ws
    by_fuel zero later le = absurd (omega arith)
    by_fuel (suc n) later le =
        let x = reads w h in
        let l = length-append x.others (b' ' ∷ joined (v ∷ ws)) in
        let (k, le', same) = find_all-blank n (joined (v ∷ ws)) (omega (arith, l)) in
        ap (λ t. find_all (suc n) (t ++ b' ' ∷ joined (v ∷ ws))) x.form
        ∙ find_all-step n x.first (x.others ++ b' ' ∷ joined (v ∷ ws)) _ _ x.visible
            (x.stops (joined (v ∷ ws)))
        ∙ ap (λ ts. (x.first ∷ x.others) ∷ ts) (same ∙ later k le')
        ∙ ap (λ t. t ∷ v ∷ ws) (sym x.form)

-- A list of words, without blanks and none of which begins with a quote, and of texts in quotes, which
-- may have blanks but no quotes in them, are the tokens of the text that sets them apart by blanks.
pub tokens_of-quoted : (ws : List Bytes) → AllTokens ws → tokens_of (joined ws) ≡ ws
unfolding tokens_of
tokens_of-quoted ws h = find_all-tokens ws (length (joined ws)) h (omega arith)

AllTokens-AllWords : (ws : List Bytes) → AllWords ws → AllTokens ws
AllTokens-AllWords [] h = tt
AllTokens-AllWords (w ∷ ws) (h, hs) = (inl h, AllTokens-AllWords ws hs)

pub tokens_of-joined : (ws : List Bytes) → AllWords ws → tokens_of (joined ws) ≡ ws
tokens_of-joined ws h = tokens_of-quoted ws (AllTokens-AllWords ws h)
