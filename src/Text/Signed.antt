-- ===== src/Text/Signed.antt =====
-- `i32::from_str` and `i64::from_str`: a type from -bound to bound - 1.
use heim.Prelude.{
  ℕ, zero, suc, ◌-◌, ◌<◌, ◌≡◌, refl, ◌≢◌, false, ◌∙◌, sym, ◌==◌, List, [], ◌∷◌, arith, All, ap,
  if◌then◌else◌,
}
use heim.Outcome.{Outcome, ok, err, map_err, map_ok}
use heim.Common.Errors.{ℤ, pos, negsuc}
use heim.Text.Number.{
  ParseIntError, empty, invalid_digit, pos_overflow, neg_overflow, scan, parse_unsigned,
}
use heim.Text.Decimal.{
  decimal, IsDigit, decimal-IsDigit, decimal-ne-nil, parse_unsigned-decimal, parse_unsigned-scan,
}

abbrev negate : ℕ → ℤ
negate zero = pos 0
negate (suc n) = negsuc n

abbrev as_negative : ParseIntError → ParseIntError
as_negative pos_overflow = neg_overflow
as_negative e = e

-- The digits behind a minus sign.
abbrev negative : ℕ → List ℕ → Outcome ParseIntError ℤ
negative bound [] = err invalid_digit
negative bound (d ∷ s) = map_ok negate (map_err as_negative (scan bound 0 (d ∷ s)))

unfoldable pub parse_signed : ℕ → List ℕ → Outcome ParseIntError ℤ
parse_signed bound [] = err empty
parse_signed bound (c ∷ s) =
    if c == b'-' then negative bound s else map_ok pos (parse_unsigned (bound - 1) (c ∷ s))

abbrev pub show_int : ℤ → List ℕ
show_int (pos n) = decimal n
show_int (negsuc n) = b'-' ∷ decimal (suc n)

abbrev pub InRange : ℕ → ℤ → Type 0
InRange bound (pos n) = n < bound
InRange bound (negsuc n) = n < bound

parse_signed-digits :
    (bound : ℕ) (s : List ℕ)
    → s ≢ []
    → All IsDigit s
    → parse_signed bound s ≡ map_ok pos (parse_unsigned (bound - 1) s)
unfolding parse_signed
parse_signed-digits bound [] ne h = absurd (ne refl)
parse_signed-digits bound (c ∷ s) ne h = let digit : (c == b'-') ≡ false = ground arith in rw digit

negative-digits :
    (bound : ℕ) (s : List ℕ)
    → s ≢ []
    → negative bound s ≡ map_ok negate (map_err as_negative (scan bound 0 s))
negative-digits bound [] ne = absurd (ne refl)
negative-digits bound (c ∷ s) ne = refl

-- The print of a number in range is read back.
pub parse_signed-show_int :
    (bound : ℕ) (z : ℤ) → InRange bound z → parse_signed bound (show_int z) ≡ ok z
unfolding parse_signed
parse_signed-show_int bound (pos n) h =
    parse_signed-digits bound (decimal n) (decimal-ne-nil n) (decimal-IsDigit n)
    ∙ ap (map_ok pos) (parse_unsigned-decimal (bound - 1) n (omega arith))
parse_signed-show_int bound (negsuc n) h =
    let s = decimal (suc n) in
    let digits = decimal-IsDigit (suc n) in
    let ne = decimal-ne-nil (suc n) in
    negative-digits bound s ne
    ∙ ap (λ r. map_ok negate (map_err as_negative r))
        (sym (parse_unsigned-scan bound s ne digits)
          ∙ parse_unsigned-decimal bound (suc n) (omega arith))
