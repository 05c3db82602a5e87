-- ===== src/Text/Split.antt =====
-- The iterators of `str`, as the lists of what they yield.
use heim.Prelude.{ℕ, zero, suc, Bool, false, not, ◌&&◌, List, [], ◌∷◌, ◌==◌, if◌then◌else◌}

-- The character goes in front of the first part.
unfoldable pub prepend : ℕ → List (List ℕ) → List (List ℕ)
prepend c [] = (c ∷ []) ∷ []
prepend c (l ∷ ls) = (c ∷ l) ∷ ls

unfoldable pub at_newline : List ℕ → Bool
at_newline [] = false
at_newline (c ∷ s) = c == b'\n'

-- `str::lines`: a line ends at `\n` or `\r\n`, and the end of the last line may be left out.
unfoldable pub lines : List ℕ → List (List ℕ)
unfolding prepend at_newline
lines [] = []
lines (c ∷ s) =
    let rest = lines s in
    if c == b'\n' then [] ∷ rest else if c == b'\r' && at_newline s then rest else prepend c rest

-- `str::split` at a character
unfoldable pub split : ℕ → List ℕ → List (List ℕ)
unfolding prepend
split sep [] = [] ∷ []
split sep (c ∷ s) = let rest = split sep s in if c == sep then [] ∷ rest else prepend c rest

-- `str::splitn`: at most `n` parts, the last of which is the text that is left.
unfoldable pub splitn : ℕ → ℕ → List ℕ → List (List ℕ)
unfolding prepend
splitn zero sep s = []
splitn (suc zero) sep s = s ∷ []
splitn (suc (suc n)) sep [] = [] ∷ []
splitn (suc (suc n)) sep (c ∷ s) =
    let cut = [] ∷ splitn (suc n) sep s in
    let more = prepend c (splitn (suc (suc n)) sep s) in if c == sep then cut else more

module _ (space : ℕ → Bool) where
  unfoldable pub at_word : List ℕ → Bool
  at_word [] = false
  at_word (c ∷ s) = not (space c)

  -- `str::split_whitespace` and `str::split_ascii_whitespace`: the maximal runs of characters
  -- that are no space
  unfoldable pub words : List ℕ → List (List ℕ)
  unfolding prepend at_word
  words [] = []
  words (c ∷ s) =
      let rest = words s in
      if space c then rest else if at_word s then prepend c rest else (c ∷ []) ∷ rest

  -- `str::trim_start`
  unfoldable pub trim_start : List ℕ → List ℕ
  trim_start [] = []
  trim_start (c ∷ s) = let rest = trim_start s in if space c then rest else c ∷ s

  -- `str::trim_end`
  unfoldable pub trim_end : List ℕ → List ℕ
  trim_end [] = []
  trim_end (c ∷ s) = elim (trim_end s) [ [] ↦ if space c then [] else c ∷ [] | d ∷ r ↦ c ∷ d ∷ r ]
