-- ===== src/Memory/Value.antt =====
-- What the three parsers of heim-memory share: the test on the first two bytes of a line, and the
-- number behind its key.
use heim.Prelude.{
  sym, append-nil, ◌∙◌, ap, ℕ, ◌+◌, ◌/◌, ◌%◌, ◌≤◌, Bool, true, false, ◌||◌, Option, none, some,
  List, [], ◌∷◌, ◌++◌, ◌≡◌, ◌≢◌, refl, arith, All, Lacks, length, ltb, inl, inr, Bool-cases,
}
use heim.Outcome.{ok, map_err}
use heim.Text.{Str, Bytes, str_eq, is_whitespace, utf8, as_bytes}
use heim.Text.Split.{splitn, trim_start}
use heim.Text.Laws.{splitn-append, splitn_whole}
use heim.Text.Number.{max_u64, parse_u64}
use heim.Text.Decimal.{decimal, IsDigit, decimal-IsDigit, decimal-ne-nil, parse_unsigned-decimal}
use heim.Common.Errors.{Result, from_parse_int}

-- `&line.as_bytes()[..2]`; `none` is the panic of a line that is shorter.
abbrev pub first_two : Bytes → Option Bytes
first_two (a ∷ b ∷ rest) = some (a ∷ b ∷ [])
first_two _ = none

unfoldable pub first_bytes : Str → Option Bytes
unfolding as_bytes
first_bytes line = first_two (as_bytes line)

abbrev pub one_of : Bytes → List Bytes → Bool
one_of b [] = false
one_of b (x ∷ xs) = str_eq b x || one_of b xs

-- `value.trim_start().splitn(2, ' ').next()`
abbrev first_part : List Str → Option Str
first_part [] = none
first_part (part ∷ parts) = some part

unfoldable pub number_text : Str → Option Str
number_text value = first_part (splitn 2 b' ' (trim_start is_whitespace value))

abbrev pub parse_number : Str → Result ℕ
parse_number kbytes = map_err from_parse_int (parse_u64 kbytes)

digit_not_space : (c : ℕ) → IsDigit c → is_whitespace c ≡ false
unfolding is_whitespace
digit_not_space c h = ground arith

digits-Lacks : (s : Str) → All IsDigit s → Lacks b' ' s
digits-Lacks [] h = tt
digits-Lacks (c ∷ s) h = (omega arith, digits-Lacks s h.1)

trim_start-pad :
    (pad s : Str)
    → All (λ c. is_whitespace c ≡ true) pad
    → trim_start is_whitespace (pad ++ s) ≡ trim_start is_whitespace s
unfolding trim_start
trim_start-pad [] s h = refl
trim_start-pad (c ∷ pad) s h = rw h.0 (trim_start-pad pad s h.1)

trim_start-digits :
    (s t : Str) → s ≢ [] → All IsDigit s → trim_start is_whitespace (s ++ t) ≡ s ++ t
unfolding trim_start
trim_start-digits [] t ne h = absurd (ne refl)
trim_start-digits (c ∷ s) t ne h = rw (digit_not_space c h.0)

-- A number with white space before it and a space behind it is found and read.
pub number_text-decimal :
    (pad rest : Str) (n : ℕ)
    → All (λ c. is_whitespace c ≡ true) pad
    → number_text (pad ++ (decimal n ++ b' ' ∷ rest)) ≡ some (decimal n)
unfolding number_text
number_text-decimal pad rest n h = rw (trim_start-pad pad (decimal n ++ b' ' ∷ rest) h) (
    rw (trim_start-digits (decimal n) (b' ' ∷ rest) (decimal-ne-nil n) (decimal-IsDigit n))
      (rw (splitn-append 0 b' ' (decimal n) rest (digits-Lacks (decimal n) (decimal-IsDigit n)))))

pub parse_number-decimal : (n : ℕ) → n ≤ max_u64 → parse_number (decimal n) ≡ ok n
parse_number-decimal n h = rw (parse_unsigned-decimal max_u64 n h)

pub utf8-cons : (c : ℕ) → (b : ℕ) × (t : Bytes) × (utf8 c ≡ b ∷ t)
unfolding utf8
utf8-cons c = elim (Bool-cases (ltb c 0x80)) [
  | inl one ↦ (c, [], rw one)
  | inr more ↦ elim (Bool-cases (ltb c 0x800)) [
    | inl two ↦ (0xc0 + c / 64, (0x80 + c % 64) ∷ [], rw (more, two))
    | inr three ↦ elim (Bool-cases (ltb c 0x10000)) [
      | inl e ↦
          (0xe0 + c / 4096, (0x80 + (c / 64) % 64) ∷ (0x80 + c % 64) ∷ [], rw (more, three, e))
      | inr e ↦ (
        0xf0 + c / 262144,
        (0x80 + (c / 4096) % 64) ∷ (0x80 + (c / 64) % 64) ∷ (0x80 + c % 64) ∷ [],
        rw (more, three, e),
      )
    ]
  ]
]

first_two-append :
    (x : ℕ) (t : Bytes) (y : ℕ) (u : Bytes)
    → (b : Bytes) × (first_two ((x ∷ t) ++ (y ∷ u)) ≡ some b)
first_two-append x [] y u = (x ∷ y ∷ [], refl)
first_two-append x (z ∷ t) y u = (x ∷ z ∷ [], refl)

-- A line of two characters has two bytes.
pub first_bytes_long : (s : Str) → 2 ≤ length s → (b : Bytes) × (first_bytes s ≡ some b)
unfolding first_bytes
first_bytes_long [] h = absurd (omega arith)
first_bytes_long (c ∷ []) h = absurd (omega arith)
first_bytes_long (c ∷ d ∷ s) h =
    let (x, t, e) = utf8-cons c in
    let (y, u, f) = utf8-cons d in
    let (b, g) = first_two-append x t y (u ++ as_bytes s) in (b, rw (e, f) g)

pub number_text_whole : (n : ℕ) → number_text (decimal n) ≡ some (decimal n)
unfolding number_text
number_text_whole n =
    let trimmed : trim_start is_whitespace (decimal n) ≡ decimal n =
      ap (trim_start is_whitespace) (sym (append-nil (decimal n)))
      ∙ trim_start-digits (decimal n) [] (decimal-ne-nil n) (decimal-IsDigit n)
      ∙ append-nil (decimal n) in
    rw trimmed (rw (splitn_whole 0 b' ' (decimal n) (digits-Lacks (decimal n) (decimal-IsDigit n))))
