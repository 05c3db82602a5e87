-- ===== src/Process/Command/Join.antt =====
-- The command line as one text.
use mathlib.Core.List.{map-append}
use heim.Prelude.{
  ℕ, ◌≡◌, ◌≢◌, refl, ap, ◌∙◌, List, [], ◌∷◌, ◌++◌, map, arith, All, Lacks, ◌==◌, if◌then◌else◌,
}
use heim.Text.{Bytes}
use heim.Process.Command.{pop, with_spaces, to_os_string, into_os_string, from}
use heim.Process.Command.Arguments.{terminated, last-concat, last-terminated, from_raw_other}

abbrev pub joined : List Bytes → Bytes
joined [] = []
joined (a ∷ []) = a
joined (a ∷ b ∷ rest) = a ++ b' ' ∷ joined (b ∷ rest)

abbrev blank : ℕ → ℕ
blank byte = if byte == 0 then b' ' else byte

pop-concat : (s : Bytes) (b : ℕ) → pop (s ++ b ∷ []) ≡ s
unfolding pop
pop-concat [] b = refl
pop-concat (c ∷ []) b = refl
pop-concat (c ∷ d ∷ s) b = ap (λ t. c ∷ t) (pop-concat (d ∷ s) b)

pop-append : (s : Bytes) (b c : ℕ) (t : Bytes) → pop (s ++ b ∷ c ∷ t) ≡ s ++ b ∷ pop (c ∷ t)
unfolding pop
pop-append [] b c t = refl
pop-append (d ∷ []) b c t = refl
pop-append (d ∷ e ∷ s) b c t = ap (λ u. d ∷ u) (pop-append (e ∷ s) b c t)

map-blank-argument : (a t : Bytes) → Lacks 0 a → map blank (a ++ t) ≡ a ++ map blank t
map-blank-argument [] t h = refl
map-blank-argument (c ∷ a) t h =
    let kept : blank c ≡ c = ground arith in rw (map-blank-argument a t h.1, kept)

map-blank-terminated :
    (args : List Bytes) → All (Lacks 0) args → map blank (terminated 0 args) ≡ terminated b' ' args
map-blank-terminated [] h = refl
map-blank-terminated (a ∷ args) h =
    map-blank-argument a (0 ∷ terminated 0 args) h.0
    ∙ ap (λ t. a ++ b' ' ∷ t) (map-blank-terminated args h.1)

pop-terminated :
    (a : Bytes) (args : List Bytes) → pop (terminated b' ' (a ∷ args)) ≡ joined (a ∷ args)
pop-terminated a [] = pop-concat a b' '
pop-terminated a ([] ∷ rest) =
    pop-append a b' ' b' ' (terminated b' ' rest) ∙ ap (λ t. a ++ b' ' ∷ t) (pop-terminated [] rest)
pop-terminated a ((c ∷ b) ∷ rest) =
    pop-append a b' ' c (b ++ b' ' ∷ terminated b' ' rest)
    ∙ ap (λ t. a ++ b' ' ∷ t) (pop-terminated (c ∷ b) rest)

-- If a NUL ends each of one or more arguments and none of them holds a NUL, then both conversions
-- return the arguments with a space between them and none behind the last.
pub to_os_string-terminated :
    (a : Bytes) (args : List Bytes)
    → All (Lacks 0) (a ∷ args)
    → (to_os_string (from (terminated 0 (a ∷ args))) ≡ joined (a ∷ args))
      × (into_os_string (from (terminated 0 (a ∷ args))) ≡ joined (a ∷ args))
unfolding from to_os_string into_os_string
to_os_string-terminated a args h =
    let spaced = ap pop (map-blank-terminated (a ∷ args) h) ∙ pop-terminated a args in
    rw (last-terminated 0 a args) (spaced, spaced)

-- If the command line ends in a byte that is neither a NUL nor a space, then its text is what
-- stands before that byte, with spaces for its NULs: the byte is lost.
to_os_string_loses_last :
    (s : Bytes) (b : ℕ)
    → b ≢ 0
    → b ≢ b' '
    → to_os_string (from (s ++ b ∷ [])) ≡ map (λ byte. if byte == 0 then b' ' else byte) s
unfolding to_os_string from with_spaces
to_os_string_loses_last s b nul space = rw (last-concat s b) (
    rw (from_raw_other b nul space)
      (ap pop (map-append blank s (b ∷ [])) ∙ pop-concat (map blank s) (blank b)))
