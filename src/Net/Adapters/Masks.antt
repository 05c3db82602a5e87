-- ===== src/Net/Adapters/Masks.antt =====
-- The masks of a length, and the port of an address.
use native.Mathlib.Nat.{pow-le-pow_right}
use heim.Prelude.{
  ℕ, ◌+◌, ◌-◌, ◌*◌, ◌%◌, ◌^◌, ◌≤◌, ◌<◌, ◌≡◌, refl, sym, subst, ap, ◌∙◌, arith, some, [], ◌∷◌, inl,
  inr, Bool-cases, if_true, if_false, ltb, leb, if◌then◌else◌,
}
use heim.Common.Memory.{big_endian, big_endian-be_bytes}
use heim.Net.Adapters.{
  Sockaddr, inet, as_u16, sockaddr_to_ipv4, shifted_max, ipv4_netmask_from, ipv6_netmask_from,
}

shifted_product : (p : ℕ) → 1 ≤ p → p ≤ 2 ^ 32 → ((2 ^ 32 - 1) * p) % 2 ^ 32 ≡ 2 ^ 32 - p
shifted_product p h k = omega arith

shifted_product_wide : (p : ℕ) → 1 ≤ p → p ≤ 2 ^ 128 → ((2 ^ 128 - 1) * p) % 2 ^ 128 ≡ 2 ^ 128 - p
shifted_product_wide p h k = omega arith

power_pos : (k : ℕ) → 1 ≤ 2 ^ k
power_pos k = pow-le-pow_right {n = 2} (omega arith) {i = 0} {j = k} (omega arith)

-- The shift of all ones, at the two widths.
shifted_max_lem :
    (n : ℕ)
    → n ≤ 32
    → (if leb n 32 then shifted_max 32 (32 - n) else 2 ^ 32 - 1) ≡ 2 ^ 32 - 2 ^ (32 - n)
shifted_max_lem n h = elim (Bool-cases (ltb (32 - n) 32)) [
  | inl inside ↦
      if_true {c = leb n 32} _ _ (ground arith)
      ∙ if_true _ _ inside
      ∙ shifted_product (2 ^ (32 - n)) (power_pos (32 - n))
          (pow-le-pow_right {n = 2} (omega arith) {i = 32 - n} {j = 32} (omega arith))
  | inr whole ↦ let none_left : n ≡ 0 = ground arith in rw none_left refl
]

shifted_max_wide :
    (n : ℕ)
    → n ≤ 128
    → (if leb n 128 then shifted_max 128 (128 - n) else 2 ^ 128 - 1) ≡ 2 ^ 128 - 2 ^ (128 - n)
shifted_max_wide n h = elim (Bool-cases (ltb (128 - n) 128)) [
  | inl inside ↦
      if_true {c = leb n 128} _ _ (ground arith)
      ∙ if_true _ _ inside
      ∙ shifted_product_wide (2 ^ (128 - n)) (power_pos (128 - n))
          (pow-le-pow_right {n = 2} (omega arith) {i = 128 - n} {j = 128} (omega arith))
  | inr whole ↦ let none_left : n ≡ 0 = ground arith in rw none_left refl
]

-- A mask of a length up to the width of the address, read as a number, has its ones in front, and as
-- many of them as the length says.
pub netmask_from-prefix :
    (n k : ℕ)
    → n ≤ 32
    → k ≤ 128
    → (big_endian (ipv4_netmask_from n) ≡ 2 ^ 32 - 2 ^ (32 - n))
      × (big_endian (ipv6_netmask_from k) ≡ 2 ^ 128 - 2 ^ (128 - k))
unfolding ipv4_netmask_from ipv6_netmask_from
netmask_from-prefix n k h h' =
    let narrow = shifted_max_lem n h in
    let wide = shifted_max_wide k h' in
    let narrow_pos = power_pos (32 - n) in
    let wide_pos = power_pos (128 - k) in
    (
      big_endian-be_bytes 4 _ (subst (λ t. t < 256 ^ 4) (sym narrow) (omega arith)) ∙ narrow,
      big_endian-be_bytes 16 _ (subst (λ t. t < 256 ^ 16) (sym wide) (omega arith)) ∙ wide,
    )

port_of_bytes :
    (a b : ℕ)
    → a < 256
    → b < 256
    → (as_u16 a + as_u16 b * 0x100 % 2 ^ 16) % 2 ^ 16
      ≡ (if ltb a 128 then a + b * 256 else a + (b + 255) % 256 * 256)
port_of_bytes a b h k = ground arith

-- The port of an IPv4 address, whose two bytes stand in the order of the network, is reported with
-- them swapped, and with one less in the byte that is reported as the higher one if the first is
-- 128 or more.
pub sockaddr_to_ipv4-port :
    (sa : Sockaddr) (length : ℕ)
    → 16 ≤ length
    → sa.sa_data 0 < 256
    → sa.sa_data 1 < 256
    → sockaddr_to_ipv4 (record { lp_sockaddr = some sa; sockaddr_length = length })
      ≡ some (
          inet (record {
            ip = sa.sa_data 2 ∷ sa.sa_data 3 ∷ sa.sa_data 4 ∷ sa.sa_data 5 ∷ [];
            port =
                if ltb (sa.sa_data 0) 128
                then sa.sa_data 0 + sa.sa_data 1 * 256
                else sa.sa_data 0 + (sa.sa_data 1 + 255) % 256 * 256;
          }))
unfolding sockaddr_to_ipv4
sockaddr_to_ipv4-port sa length room low high =
    if_false {c = ltb length 16} _ _ (ground arith)
    ∙ ap
        (λ port. some (
          inet (record {
            ip = sa.sa_data 2 ∷ sa.sa_data 3 ∷ sa.sa_data 4 ∷ sa.sa_data 5 ∷ [];
            port = port;
          })))
        (port_of_bytes (sa.sa_data 0) (sa.sa_data 1) low high)
