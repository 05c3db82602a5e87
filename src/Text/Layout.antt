-- ===== src/Text/Layout.antt =====
-- A line of words with blanks between them, as the tables of procfs are laid out: any number of
-- blanks in front of the first word, and one or more between two words.
use heim.Prelude.{
  ℕ, zero, suc, ◌≡◌, ◌≢◌, refl, ap, ◌∙◌, false, List, [], ◌∷◌, ◌++◌, map, append-nil, arith, All,
}
use heim.Text.{Str, is_whitespace}
use heim.Text.Split.{words}
use heim.Text.Laws.{Solid, words_space, words-append, words_last}
use heim.Text.Decimal.{decimal, IsDigit, decimal-IsDigit, decimal-ne-nil}

abbrev pub blanks : ℕ → Str → Str
blanks zero s = s
blanks (suc n) s = b' ' ∷ blanks n s

-- The words behind the first: `gap i` is the number of blanks in front of the word at place i that
-- are more than needed.
abbrev pub behind : (ℕ → ℕ) → ℕ → List Str → Str
behind gap i [] = []
behind gap i (w ∷ ws) = b' ' ∷ blanks (gap i) (w ++ behind gap (suc i) ws)

abbrev pub padded : (ℕ → ℕ) → List Str → Str
padded gap [] = []
padded gap (w ∷ ws) = blanks (gap 0) (w ++ behind gap 1 ws)

abbrev pub IsWord : Str → Type 0
IsWord w = (w ≢ []) × Solid is_whitespace w

words-blanks : (n : ℕ) (s : Str) → words is_whitespace (blanks n s) ≡ words is_whitespace s
words-blanks zero s = refl
words-blanks (suc n) s =
    words_space is_whitespace b' ' (blanks n s) (unfold is_whitespace in refl) ∙ words-blanks n s

words-word :
    (w s : Str) → IsWord w → words is_whitespace (w ++ b' ' ∷ s) ≡ w ∷ words is_whitespace s
words-word [] s h = absurd (h.0 refl)
words-word (c ∷ w) s h = words-append is_whitespace c w b' ' s h.1 (unfold is_whitespace in refl)

words_one : (w : Str) → IsWord w → words is_whitespace (w ++ []) ≡ w ∷ []
words_one [] h = absurd (h.0 refl)
words_one (c ∷ w) h = rw (append-nil w) (words_last is_whitespace c w h.1)

words-behind :
    (gap : ℕ → ℕ) (i : ℕ) (w : Str) (ws : List Str)
    → IsWord w
    → All IsWord ws
    → words is_whitespace (w ++ behind gap i ws) ≡ w ∷ ws
words-behind gap i w [] h hs = words_one w h
words-behind gap i w (v ∷ ws) h hs =
    words-word w (blanks (gap i) (v ++ behind gap (suc i) ws)) h
    ∙ ap (λ l. w ∷ l)
        (words-blanks (gap i) (v ++ behind gap (suc i) ws)
          ∙ words-behind gap (suc i) v ws hs.0 hs.1)

-- The words of a line, whatever the blanks between them.
pub words-padded :
    (gap : ℕ → ℕ) (ws : List Str) → All IsWord ws → words is_whitespace (padded gap ws) ≡ ws
unfolding words
words-padded gap [] h = refl
words-padded gap (w ∷ ws) h =
    words-blanks (gap 0) (w ++ behind gap 1 ws) ∙ words-behind gap 1 w ws h.0 h.1

digits_Solid : (s : Str) → All IsDigit s → Solid is_whitespace s
unfolding is_whitespace
digits_Solid [] h = tt
digits_Solid (c ∷ s) h =
    let solid : is_whitespace c ≡ false = ground arith in (solid, digits_Solid s h.1)

pub decimal-IsWord : (n : ℕ) → IsWord (decimal n)
decimal-IsWord n = (decimal-ne-nil n, digits_Solid (decimal n) (decimal-IsDigit n))

pub decimals-IsWord : (ns : List ℕ) → All IsWord (map decimal ns)
decimals-IsWord [] = tt
decimals-IsWord (n ∷ ns) = (decimal-IsWord n, decimals-IsWord ns)
