-- ===== src/Text/Decimal.antt =====
-- The decimal print of a number, and that the parsers read it back.
use mathlib.Core.List.{concat-ne-nil}
use heim.Text.Laws.{OneLine}
use heim.Prelude.{
  ℕ, zero, suc, ◌+◌, ◌/◌, ◌%◌, ◌≤◌, ◌<◌, ◌≡◌, refl, ◌≢◌, false, ◌∙◌, ◌==◌, inl, inr, Bool-cases,
  List, [], ◌∷◌, ◌++◌, arith, All, All-append, ltb, if◌then◌else◌,
}
use heim.Outcome.{ok}
use heim.Text.Number.{push_digit, scan, scan-append, parse_unsigned}

-- Each round on `fuel` divides by ten; `suc n` rounds are enough for `n`.
unfoldable pub digits : ℕ → ℕ → List ℕ
digits zero n = []
digits (suc f) n =
    let more = digits f (n / 10) ++ (b'0' + n % 10) ∷ [] in
    if ltb n 10 then (b'0' + n) ∷ [] else more

unfoldable pub decimal : ℕ → List ℕ
unfolding digits
decimal n = digits (suc n) n

abbrev pub IsDigit : ℕ → Type 0
IsDigit c = (b'0' ≤ c) × (c ≤ b'9')

digits-IsDigit : (f n : ℕ) → All IsDigit (digits f n)
unfolding digits
digits-IsDigit zero n = tt
digits-IsDigit (suc f) n = ground (
  arith,
  digits-IsDigit f (n / 10),
  All-append IsDigit (digits f (n / 10)) ((b'0' + n % 10) ∷ []),
)

pub decimal-IsDigit : (n : ℕ) → All IsDigit (decimal n)
unfolding decimal
decimal-IsDigit n = digits-IsDigit (suc n) n

scan_last : (max n : ℕ) → n ≤ max → scan max (n / 10) ((b'0' + n % 10) ∷ []) ≡ ok n
unfolding scan push_digit
scan_last max n h = ground arith

scan-digits : (max f n : ℕ) → n < f → n ≤ max → scan max 0 (digits f n) ≡ ok n
unfolding digits
scan-digits max zero n lt h = elim lt [ ]
scan-digits max (suc f) n lt h = elim (Bool-cases (ltb n 10)) [
  | inl small ↦ rw small (unfold scan push_digit in ground arith)
  | inr big ↦
      rw (big, scan-append)
        (rw (scan-digits max f (n / 10) (ground arith) (omega arith)) (scan_last max n h))
]

digits-ne-nil : (f n : ℕ) → digits (suc f) n ≢ []
unfolding digits
digits-ne-nil f n = elim (Bool-cases (ltb n 10)) [
  | inl small ↦ rw small (cc)
  | inr big ↦ rw big (concat-ne-nil _ (digits f (n / 10)))
]

pub decimal-ne-nil : (n : ℕ) → decimal n ≢ []
unfolding decimal
decimal-ne-nil n = digits-ne-nil n n

pub parse_unsigned-scan :
    (max : ℕ) (s : List ℕ) → s ≢ [] → All IsDigit s → parse_unsigned max s ≡ scan max 0 s
unfolding parse_unsigned
parse_unsigned-scan max [] ne d = absurd (ne refl)
parse_unsigned-scan max (c ∷ []) ne d = refl
parse_unsigned-scan max (c ∷ d ∷ s) ne ds = let plus : (c == b'+') ≡ false = ground arith in rw plus

-- The print of a number is read back by the parser of every type that it fits.
pub parse_unsigned-decimal : (max n : ℕ) → n ≤ max → parse_unsigned max (decimal n) ≡ ok n
parse_unsigned-decimal max n h =
    parse_unsigned-scan max (decimal n) (decimal-ne-nil n) (decimal-IsDigit n)
    ∙ unfold decimal in scan-digits max (suc n) n (omega arith) h

decimal_example :
    decimal 18446744073709551615
    ≡ b'1' ∷ b'8' ∷ b'4' ∷ b'4' ∷ b'6' ∷ b'7' ∷ b'4' ∷ b'4' ∷ b'0' ∷ b'7' ∷ b'3' ∷ b'7' ∷ b'0'
      ∷ b'9' ∷ b'5' ∷ b'5' ∷ b'1' ∷ b'6' ∷ b'1' ∷ b'5' ∷ []
unfolding decimal
decimal_example = refl

digits-OneLine : (s : List ℕ) → All IsDigit s → OneLine s
digits-OneLine [] h = (tt, tt)
digits-OneLine (c ∷ s) h = let (a, b) = digits-OneLine s h.1 in ((omega arith, a), (omega arith, b))

pub decimal-OneLine : (n : ℕ) → OneLine (decimal n)
decimal-OneLine n = digits-OneLine (decimal n) (decimal-IsDigit n)
