-- ===== src/Text/Laws.antt =====
-- How the iterators of `str` cut a text that is put together from its parts.
use heim.Prelude.{
  ℕ, suc, ◌≡◌, refl, Bool, true, false, List, [], ◌∷◌, ◌++◌, ap, arith, ◌≢◌, All, All-append, Lacks,
  ◌∙◌,
}
use heim.Text.Split.{lines, split, splitn, words, trim_start, trim_end}

-- A line that holds no line ending is yielded, and the rest is cut on.
pub lines-append :
    (l s : List ℕ) → Lacks b'\n' l → Lacks b'\r' l → lines (l ++ b'\n' ∷ s) ≡ l ∷ lines s
unfolding lines
lines-append [] s h k = refl
lines-append (c ∷ l) s h k = ground (arith, lines-append l s h.1 k.1)

pub lines_last :
    (c : ℕ) (l : List ℕ) → Lacks b'\n' (c ∷ l) → Lacks b'\r' (c ∷ l) → lines (c ∷ l) ≡ (c ∷ l) ∷ []
unfolding lines
lines_last c [] h k = ground arith
lines_last c (d ∷ l) h k = ground (arith, lines_last d l h.1 k.1)

-- The first part of `splitn` ends at the first separator.
pub splitn-append :
    (n sep : ℕ) (a s : List ℕ)
    → Lacks sep a
    → splitn (suc (suc n)) sep (a ++ sep ∷ s) ≡ a ∷ splitn (suc n) sep s
unfolding splitn
splitn-append n sep [] s h = ground arith
splitn-append n sep (c ∷ a) s h = ground (arith, splitn-append n sep a s h.1)

pub splitn_two : (sep : ℕ) (a s : List ℕ) → Lacks sep a → splitn 2 sep (a ++ sep ∷ s) ≡ a ∷ s ∷ []
splitn_two sep a s h = splitn-append 0 sep a s h ∙ unfold splitn in refl

pub splitn_whole : (n sep : ℕ) (a : List ℕ) → Lacks sep a → splitn (suc (suc n)) sep a ≡ a ∷ []
unfolding splitn
splitn_whole n sep [] h = refl
splitn_whole n sep (c ∷ a) h = ground (arith, splitn_whole n sep a h.1)

pub split-append :
    (sep : ℕ) (a s : List ℕ) → Lacks sep a → split sep (a ++ sep ∷ s) ≡ a ∷ split sep s
unfolding split
split-append sep [] s h = ground arith
split-append sep (c ∷ a) s h = ground (arith, split-append sep a s h.1)

pub split_whole : (sep : ℕ) (a : List ℕ) → Lacks sep a → split sep a ≡ a ∷ []
unfolding split
split_whole sep [] h = refl
split_whole sep (c ∷ a) h = ground (arith, split_whole sep a h.1)

-- No character of the text is a space.
abbrev pub Solid : (ℕ → Bool) → List ℕ → Type 0
Solid space = All (λ c. space c ≡ false)

module _ (space : ℕ → Bool) where
  pub words_space : (c : ℕ) (s : List ℕ) → space c ≡ true → words space (c ∷ s) ≡ words space s
  unfolding words
  words_space c s h = rw h

  pub words-append :
      (d : ℕ) (w : List ℕ) (c : ℕ) (s : List ℕ)
      → Solid space (d ∷ w)
      → space c ≡ true
      → words space (d ∷ (w ++ c ∷ s)) ≡ (d ∷ w) ∷ words space s
  unfolding words
  words-append d [] c s h e = ground arith
  words-append d (x ∷ w) c s h e = ground (arith, words-append x w c s h.1 e)

  pub words_last : (d : ℕ) (w : List ℕ) → Solid space (d ∷ w) → words space (d ∷ w) ≡ (d ∷ w) ∷ []
  unfolding words
  words_last d [] h = ground arith
  words_last d (x ∷ w) h = ground (arith, words_last x w h.1)

  pub trim_start-Solid : (s : List ℕ) → Solid space s → trim_start space s ≡ s
  unfolding trim_start
  trim_start-Solid [] h = refl
  trim_start-Solid (c ∷ s) h = rw h.0

  pub trim_end-Solid : (s : List ℕ) → Solid space s → trim_end space s ≡ s
  unfolding trim_end
  trim_end-Solid [] h = refl
  trim_end-Solid (c ∷ []) h = rw h.0
  trim_end-Solid (c ∷ d ∷ s) h = rw (trim_end-Solid (d ∷ s) h.1, trim_end)

-- The text holds no line ending.
abbrev pub OneLine : List ℕ → Type 0
OneLine s = Lacks b'\n' s × Lacks b'\r' s

-- The lines of a text, each with its line ending, and the text behind them.
abbrev pub unlines : List (List ℕ) → List ℕ → List ℕ
unlines [] rest = rest
unlines (l ∷ ls) rest = l ++ b'\n' ∷ unlines ls rest

pub lines-unlines :
    (ls : List (List ℕ)) (rest : List ℕ)
    → All OneLine ls
    → lines (unlines ls rest) ≡ ls ++ lines rest
lines-unlines [] rest h = refl
lines-unlines (l ∷ ls) rest h =
    lines-append l (unlines ls rest) h.0.0 h.0.1 ∙ ap (λ t. l ∷ t) (lines-unlines ls rest h.1)

pub OneLine-append : (s t : List ℕ) → OneLine s → OneLine t → OneLine (s ++ t)
OneLine-append s t (a, b) (c, d) = (All-append _ s t a c, All-append _ s t b d)

pub OneLine-cons : (c : ℕ) (s : List ℕ) → c ≢ b'\n' → c ≢ b'\r' → OneLine s → OneLine (c ∷ s)
OneLine-cons c s n r (a, b) = ((n, a), (r, b))
