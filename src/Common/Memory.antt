-- ===== src/Common/Memory.antt =====
-- Numbers in memory, on a little-endian machine, and texts in buffers that a zero ends.
use mathlib.Core.Option
use native.Mathlib.Nat.{pow-suc}
use heim.Prelude.{
  ℕ, zero, suc, ◌+◌, ◌*◌, ◌/◌, ◌%◌, ◌^◌, ◌<◌, ◌≤◌, ◌≡◌, refl, ap, subst, ◌∙◌, arith, Option, none,
  some, List, [], ◌∷◌, ◌++◌, Lacks, length, take, take_left, drop, ◌==◌, if◌then◌else◌,
}
use heim.Text.{Bytes}

abbrev pub little_endian : Bytes → ℕ
little_endian [] = 0
little_endian (b ∷ s) = b + 256 * little_endian s

-- The number in so many bytes from a place on.
abbrev pub field : ℕ → ℕ → Bytes → ℕ
field place width bytes = little_endian (take width (drop place bytes))

-- The octets of a number, the highest first: `Ipv4Addr::from` and `Ipv6Addr::from`.
unfoldable pub be_bytes : ℕ → ℕ → Bytes
be_bytes zero n = []
be_bytes (suc k) n = be_bytes k (n / 256) ++ (n % 256) ∷ []

-- The number behind one that was read already.
abbrev big_endian_from : ℕ → Bytes → ℕ
big_endian_from n [] = n
big_endian_from n (b ∷ s) = big_endian_from (n * 256 + b) s

abbrev pub big_endian : Bytes → ℕ
big_endian = big_endian_from 0

big_endian_from-append :
    (n : ℕ) (s : Bytes) (b : ℕ) → big_endian_from n (s ++ b ∷ []) ≡ big_endian_from n s * 256 + b
big_endian_from-append n [] b = refl
big_endian_from-append n (c ∷ s) b = big_endian_from-append (n * 256 + c) s b

pub big_endian-be_bytes : (k n : ℕ) → n < 256 ^ k → big_endian (be_bytes k n) ≡ n
unfolding be_bytes
big_endian-be_bytes zero n h = omega arith
big_endian-be_bytes (suc k) n h =
    big_endian_from-append 0 (be_bytes k (n / 256)) (n % 256)
    ∙ ap (λ t. t * 256 + n % 256)
        (big_endian-be_bytes k (n / 256)
          (let whole = subst (λ t. n < t) (pow-suc 256 k) h in omega arith))
    ∙ omega arith

-- `position` of the first zero
unfoldable pub first_zero : List ℕ → Option ℕ
first_zero [] = none
first_zero (c ∷ s) = let rest = Option.map suc (first_zero s) in if c == 0 then some 0 else rest

abbrev pub or_zero : Option ℕ → ℕ
or_zero none = 0
or_zero (some n) = n

-- The part of a buffer in front of its first zero; it is empty if there is none.
abbrev pub before_zero : List ℕ → List ℕ
before_zero buffer = take (or_zero (first_zero buffer)) buffer

pub first_zero-append : (s rest : List ℕ) → Lacks 0 s → first_zero (s ++ 0 ∷ rest) ≡ some (length s)
unfolding first_zero
first_zero-append [] rest h = refl
first_zero-append (c ∷ s) rest h = ground (arith, first_zero-append s rest h.1)

pub before_zero-append : (s rest : List ℕ) → Lacks 0 s → before_zero (s ++ 0 ∷ rest) ≡ s
before_zero-append s rest h =
    ap (λ o. take (or_zero o) (s ++ 0 ∷ rest)) (first_zero-append s rest h) ∙ take_left s (0 ∷ rest)

-- A prefix of the front does not depend on what follows it.
pub take-append_le {ℓ} :
    {A : Type ℓ} (n : ℕ) (xs ys : List A) → n ≤ length xs → take n (xs ++ ys) ≡ take n xs
take-append_le zero xs ys h = refl
take-append_le (suc n) [] ys h = absurd (omega arith)
take-append_le (suc n) (x ∷ xs) ys h = ap (λ t. x ∷ t) (take-append_le n xs ys (omega arith))

-- What `Vec::reserve` documents of the capacity behind it, by the capacity before, the length and the
-- argument: there is room for so many items beyond the length, and a vector with this room is left
-- alone.
abbrev pub IsReserve : (ℕ → ℕ → ℕ → ℕ) → Type 0
IsReserve reserve =
    (capacity length additional : ℕ)
    → (length + additional ≤ reserve capacity length additional)
      × (length + additional ≤ capacity → reserve capacity length additional ≡ capacity)
