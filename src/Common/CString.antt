-- ===== src/Common/CString.antt =====
-- `CString::new`: a text without a zero byte, or the place of the first one as an error.
use heim.Prelude.{ℕ, suc, ◌≡◌, refl, arith, Option, none, some, [], ◌∷◌, Lacks, ◌==◌, if◌then◌else◌}
use heim.Outcome.{Outcome, ok, err}
use heim.Text.{Bytes}
use heim.Common.Errors.{NulError, nul_error}

abbrev first_nul : ℕ → Bytes → Option ℕ
first_nul i [] = none
first_nul i (b ∷ s) = let rest = first_nul (suc i) s in if b == 0 then some i else rest

abbrev c_string_of : Bytes → Option ℕ → Outcome NulError Bytes
c_string_of s none = ok s
c_string_of s (some place) = err (nul_error place)

unfoldable pub c_string : Bytes → Outcome NulError Bytes
c_string s = c_string_of s (first_nul 0 s)

first_nul-Lacks : (i : ℕ) (s : Bytes) → Lacks 0 s → first_nul i s ≡ none
first_nul-Lacks i [] h = refl
first_nul-Lacks i (b ∷ s) h = ground (arith, first_nul-Lacks (suc i) s h.1)

pub c_string-Lacks : (s : Bytes) → Lacks 0 s → c_string s ≡ ok s
unfolding c_string
c_string-Lacks s h = rw (first_nul-Lacks 0 s h)
