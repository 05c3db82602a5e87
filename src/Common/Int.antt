-- ===== src/Common/Int.antt =====
-- `==` of two C integers.
use heim.Prelude.{Bool, true, false, ◌==◌, ◌≡◌, arith}
use heim.Common.Errors.{ℤ, pos, negsuc}

unfoldable pub int_eq : ℤ → ℤ → Bool
int_eq (pos a) (pos b) = a == b
int_eq (negsuc a) (negsuc b) = a == b
int_eq _ _ = false

pub int_eq_refl : (z : ℤ) → int_eq z z ≡ true
unfolding int_eq
int_eq_refl (pos a) = ground arith
int_eq_refl (negsuc a) = ground arith

pub int_eq_sound : (y z : ℤ) → int_eq y z ≡ true → y ≡ z
unfolding int_eq
int_eq_sound (pos a) (pos b) h = ground arith
int_eq_sound (negsuc a) (negsuc b) h = ground arith
int_eq_sound (pos a) (negsuc b) h = ground arith
int_eq_sound (negsuc a) (pos b) h = ground arith
