-- ===== src/Process/Stat/Words.antt =====
-- How the line of a process is cut into its words.
use heim.Prelude.{
  ℕ, suc, true, false, none, some, List, [], ◌∷◌, ◌++◌, ◌≡◌, ◌≢◌, refl, ap, ◌∙◌, arith, All,
  All-append, Lacks, ◌==◌,
}
use heim.Outcome.{ok}
use heim.Text.{Str, is_whitespace}
use heim.Text.Split.{words}
use heim.Text.Laws.{Solid, words-append}
use heim.Text.Decimal.{decimal, IsDigit, decimal-IsDigit, decimal-ne-nil}
use heim.Text.Signed.{show_int}
use heim.Common.Errors.{ℤ, pos, negsuc}
use heim.Process.Stat.{Status, running, try_from_char, cut_last}
use heim.Process.Stat.Layout.{letter_of, Fields, texts, spaced}

-- A text that `words` leaves whole, and that no parenthesis closes.
abbrev pub IsWord : Str → Type 0
IsWord t = (t ≢ []) × Solid is_whitespace t × Lacks b')' t × Lacks b' ' t

digits-IsWord : (s : Str) → All IsDigit s → Solid is_whitespace s × Lacks b')' s × Lacks b' ' s
unfolding is_whitespace
digits-IsWord [] h = (tt, tt, tt)
digits-IsWord (c ∷ s) h =
    let (a, b, d) = digits-IsWord s h.1 in
    let solid : is_whitespace c ≡ false = ground arith in
    ((solid, a), (omega arith, b), (omega arith, d))

decimal-IsWord : (n : ℕ) → IsWord (decimal n)
decimal-IsWord n =
    let (a, b, d) = digits-IsWord (decimal n) (decimal-IsDigit n) in (decimal-ne-nil n, a, b, d)

pub show_int-IsWord : (z : ℤ) → IsWord (show_int z)
unfolding is_whitespace
show_int-IsWord (pos n) = decimal-IsWord n
show_int-IsWord (negsuc n) =
    let (ne, a, b, d) = decimal-IsWord (suc n) in
    (λ e. cc, (refl, a), (omega arith, b), (omega arith, d))

words-word :
    (t s : Str) → IsWord t → words is_whitespace (t ++ b' ' ∷ s) ≡ t ∷ words is_whitespace s
words-word [] s (ne, solid, p, q) = absurd (ne refl)
words-word (c ∷ t) s (ne, solid, p, q) =
    words-append is_whitespace c t b' ' s solid (unfold is_whitespace in refl)

pub words-spaced :
    (ts : List Str) (more : Str)
    → All IsWord ts
    → words is_whitespace (spaced ts more) ≡ ts ++ words is_whitespace more
words-spaced [] more h = refl
words-spaced (t ∷ ts) more h =
    words-word t (spaced ts more) h.0 ∙ ap (λ w. t ∷ w) (words-spaced ts more h.1)

cut_last_absent : (sep : ℕ) (s : Str) → Lacks sep s → cut_last sep s ≡ none
unfolding cut_last
cut_last_absent sep [] h = refl
cut_last_absent sep (c ∷ s) h =
    let no : (c == sep) ≡ false = ground arith in rw (cut_last_absent sep s h.1) (rw no)

pub cut_last-append :
    (sep : ℕ) (a b : Str) → Lacks sep b → cut_last sep (a ++ sep ∷ b) ≡ some (a, b)
unfolding cut_last
cut_last-append sep [] b h =
    let yes : (sep == sep) ≡ true = ground arith in rw (cut_last_absent sep b h) (rw yes)
cut_last-append sep (c ∷ a) b h = rw (cut_last-append sep a b h)

pub spaced-Lacks :
    (ts : List Str) (more : Str) → All IsWord ts → Lacks b')' more → Lacks b')' (spaced ts more)
spaced-Lacks [] more h m = m
spaced-Lacks (t ∷ ts) more ((ne, solid, p, q), h) m =
    All-append _ t _ p (omega arith, spaced-Lacks ts more h m)

pub texts-IsWord : (f : Fields) → All IsWord (texts f)
texts-IsWord f = (
  show_int-IsWord f.ppid,
  (
    show_int-IsWord f.pgrp,
    (
      show_int-IsWord f.session_id,
      (
        show_int-IsWord f.tty_nr,
        (
          show_int-IsWord f.tpgid,
          (
            decimal-IsWord f.flags,
            (
              decimal-IsWord f.minflt,
              (
                decimal-IsWord f.cminflt,
                (
                  decimal-IsWord f.majflt,
                  (
                    decimal-IsWord f.cmajflt,
                    (
                      decimal-IsWord f.utime,
                      (
                        decimal-IsWord f.stime,
                        (
                          decimal-IsWord f.cutime,
                          (
                            decimal-IsWord f.cstime,
                            (
                              show_int-IsWord f.priority,
                              (
                                show_int-IsWord f.nice,
                                (
                                  show_int-IsWord f.num_threads,
                                  (
                                    show_int-IsWord f.itrealvalue,
                                    (
                                      decimal-IsWord f.start_time,
                                      (
                                        show_int-IsWord f.vsize,
                                        (show_int-IsWord f.rss, (decimal-IsWord f.rsslim, tt)),
                                      ),
                                    ),
                                  ),
                                ),
                              ),
                            ),
                          ),
                        ),
                      ),
                    ),
                  ),
                ),
              ),
            ),
          ),
        ),
      ),
    ),
  ),
)

pub try_from_char-letter_of : (s : Status) → try_from_char (letter_of s) ≡ ok s
unfolding try_from_char
try_from_char-letter_of running = refl
try_from_char-letter_of _ = refl

pub letter-IsWord : (s : Status) → IsWord (letter_of s ∷ [])
unfolding is_whitespace
letter-IsWord running = (λ e. cc, (refl, tt), omega arith, omega arith)
letter-IsWord _ = (λ e. cc, (refl, tt), omega arith, omega arith)
