-- ===== src/Text/Number.antt =====
-- `u64::from_str` and its kin, for any bound.
use heim.Prelude.{
  ℕ, ◌+◌, ◌-◌, ◌*◌, ◌^◌, ◌≤◌, ◌≡◌, refl, Bool, ◌&&◌, List, [], ◌∷◌, ◌++◌, arith, leb, inl, inr,
  Bool-cases, ◌==◌, if◌then◌else◌,
}
use heim.Outcome.{Outcome, ok, err, panic, ◌>>=◌, bind-eq-ok}

-- `std::num::IntErrorKind`
pub data ParseIntError : Type 0 where
  empty invalid_digit pos_overflow neg_overflow : ParseIntError

abbrev pub max_u64 : ℕ
max_u64 = 2 ^ 64 - 1

unfoldable pub is_digit : ℕ → Bool
is_digit c = leb b'0' c && leb c b'9'

-- One round of the loop; `max` is the greatest value of the type.
unfoldable pub push_digit : ℕ → ℕ → ℕ → Outcome ParseIntError ℕ
unfolding is_digit
push_digit max n c =
    if is_digit c
    then (if leb (n * 10 + (c - b'0')) max then ok (n * 10 + (c - b'0')) else err pos_overflow)
    else err invalid_digit

unfoldable pub scan : ℕ → ℕ → List ℕ → Outcome ParseIntError ℕ
scan max n [] = ok n
scan max n (c ∷ s) = push_digit max n c >>= λ m. scan max m s

-- A `+` is skipped where digits follow.
unfoldable pub parse_unsigned : ℕ → List ℕ → Outcome ParseIntError ℕ
unfolding scan push_digit
parse_unsigned max [] = err empty
parse_unsigned max (c ∷ []) = scan max 0 (c ∷ [])
parse_unsigned max (c ∷ d ∷ s) = if c == b'+' then scan max 0 (d ∷ s) else scan max 0 (c ∷ d ∷ s)

abbrev pub parse_u64 : List ℕ → Outcome ParseIntError ℕ
parse_u64 = parse_unsigned max_u64

bind_lem {ℓ κ} :
    {E : Type ℓ} {A : Type κ} (r : Outcome E A) (f g : A → Outcome E A) (h : A → Outcome E A)
    → ((a : A) → f a ≡ (g a >>= h))
    → (r >>= f) ≡ (r >>= g >>= h)
bind_lem (ok a) f g h e = e a
bind_lem (err x) f g h e = refl
bind_lem panic f g h e = refl

pub scan-append :
    (max n : ℕ) (s t : List ℕ) → scan max n (s ++ t) ≡ (scan max n s >>= λ m. scan max m t)
unfolding scan
scan-append max n [] t = refl
scan-append max n (c ∷ s) t =
    bind_lem (push_digit max n c) (λ m. scan max m (s ++ t)) (λ m. scan max m s) (λ m. scan max m t)
      (λ m. scan-append max m s t)

push_digit-le : (max n c : ℕ) {m : ℕ} → push_digit max n c ≡ ok m → m ≤ max
unfolding push_digit
push_digit-le max n c h = ground arith

pub scan-le : (max n : ℕ) (s : List ℕ) {m : ℕ} → n ≤ max → scan max n s ≡ ok m → m ≤ max
unfolding scan
scan-le max n [] h e = ground arith
scan-le max n (c ∷ s) h e =
    let (k, first, rest) = bind-eq-ok (push_digit max n c) (λ m. scan max m s) e in
    scan-le max k s (push_digit-le max n c first) rest

-- A number that is accepted fits its type.
pub parse_unsigned-le : (max : ℕ) (s : List ℕ) {m : ℕ} → parse_unsigned max s ≡ ok m → m ≤ max
unfolding parse_unsigned
parse_unsigned-le max [] h = cc
parse_unsigned-le max (c ∷ []) h = scan-le max 0 (c ∷ []) (omega arith) h
parse_unsigned-le max (c ∷ d ∷ s) h = elim (Bool-cases (c == b'+')) [
  | inl e ↦ scan-le max 0 (d ∷ s) (omega arith) (rw e at h)
  | inr e ↦ scan-le max 0 (c ∷ d ∷ s) (omega arith) (rw e at h)
]
