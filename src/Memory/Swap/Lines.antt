-- ===== src/Memory/Swap/Lines.antt =====
-- Lines of /proc/vmstat and /proc/meminfo, and what a round of the two loops does with them.
use heim.Prelude.{
  ℕ, ◌+◌, ◌*◌, ◌%◌, ◌^◌, ◌≤◌, Bool, true, inl, inr, Bool-cases, Option, none, some, List, [], ◌∷◌,
  ◌++◌, map, ◌≡◌, refl, arith, All, Lacks, length, length-append, ◌==◌, if◌then◌else◌,
}
use heim.Outcome.{ok}
use heim.Text.{Str, codes, str_eq, is_whitespace, utf8}
use heim.Text.Laws.{OneLine, splitn_two}
use heim.Text.Number.{max_u64}
use heim.Text.Decimal.{decimal}
use heim.Runtime.Fs.{FilePath}
use heim.Memory.Value.{
  first_bytes, number_text-decimal, number_text_whole, parse_number-decimal, first_bytes_long,
}
use heim.Memory.Swap.{
  VmStat, Swap, VmField, SwapField, in_swap_in, in_swap_out, in_total, in_free, vm_field_of,
  swap_field_of, value_of_parts, value_of_line, read_vmstat, read_swap, assign_swap, assign_vm,
}

-- A line with another key.
abbrev pub Other : Type 0
Other = Str × Str

abbrev pub other_line : ℕ → Other → Str
other_line separator o = o.0 ++ separator ∷ o.1

abbrev pub IsOther : {F : Type 0} → (Str → Option F) → ℕ → Other → Type 0
IsOther field separator o =
    (field o.0 ≡ none) × (2 ≤ length o.0) × Lacks separator o.0 × OneLine (other_line separator o)

abbrev pub swap_line : Str → Str → ℕ → Str → Str
swap_line name pad n unit = name ++ b':' ∷ (pad ++ (decimal n ++ b' ' ∷ unit))

abbrev pub vm_line : Str → ℕ → Str
vm_line name n = name ++ b' ' ∷ decimal n

-- The first bytes are those of the key, in both cases of the test.
value_of_line-other :
    {F : Type 0} (field : Str → Option F) (letters : Str) (separator : ℕ) (o : Other)
    → IsOther field separator o
    → value_of_line field letters separator (other_line separator o) ≡ ok none
unfolding value_of_line
value_of_line-other field letters separator (name, rest) (no_field, long, lacks, one) =
    let (b, two) =
      first_bytes_long (name ++ separator ∷ rest)
        (omega (arith, length-append {0} name (separator ∷ rest))) in
    elim (Bool-cases (str_eq b letters)) [
      | inl e ↦
          rw (value_of_line, two)
            (rw e (rw (splitn_two separator name rest lacks) (rw (value_of_parts, no_field))))
      | inr e ↦ rw (value_of_line, two) (rw e)
    ]

abbrev pub name_of_vm : VmField → Str
name_of_vm in_swap_in = codes "pswpin"
name_of_vm in_swap_out = codes "pswpout"

abbrev pub name_of_swap : SwapField → Str
name_of_swap in_total = codes "SwapTotal"
name_of_swap in_free = codes "SwapFree"

value_of_line-swap :
    (f : SwapField) (pad : Str) (n : ℕ) (unit : Str)
    → All (λ c. is_whitespace c ≡ true) pad
    → value_of_line swap_field_of (codes "Sw") b':' (swap_line (name_of_swap f) pad n unit)
      ≡ ok (some (f, decimal n))
unfolding value_of_line swap_field_of str_eq first_bytes utf8
value_of_line-swap in_total pad n unit h =
    rw (splitn_two b':' (codes "SwapTotal") (pad ++ (decimal n ++ b' ' ∷ unit)) (omega arith))
      (rw (value_of_parts, number_text-decimal pad unit n h))
value_of_line-swap in_free pad n unit h =
    rw (splitn_two b':' (codes "SwapFree") (pad ++ (decimal n ++ b' ' ∷ unit)) (omega arith))
      (rw (value_of_parts, number_text-decimal pad unit n h))

value_of_line-vm :
    (f : VmField) (n : ℕ)
    → value_of_line vm_field_of (codes "ps") b' ' (vm_line (name_of_vm f) n)
      ≡ ok (some (f, decimal n))
unfolding value_of_line vm_field_of str_eq first_bytes utf8
value_of_line-vm in_swap_in n =
    rw (splitn_two b' ' (codes "pswpin") (decimal n) (omega arith))
      (rw (value_of_parts, number_text_whole n))
value_of_line-vm in_swap_out n =
    rw (splitn_two b' ' (codes "pswpout") (decimal n) (omega arith))
      (rw (value_of_parts, number_text_whole n))

module _ {Information : Type 0} (kilobyte : ℕ → Information) where
  pub read_vmstat-others :
      (os : List Other) (ls : List Str) (stat : VmStat Information)
      → All (IsOther vm_field_of b' ') os
      → read_vmstat kilobyte (map (other_line b' ') os ++ ls) stat ≡ read_vmstat kilobyte ls stat
  unfolding read_vmstat
  read_vmstat-others [] ls stat h = refl
  read_vmstat-others (o ∷ os) ls stat h =
      rw (value_of_line-other vm_field_of (codes "ps") b' ' o h.0)
        (read_vmstat-others os ls stat h.1)

  pub read_vmstat-vm :
      (f : VmField) (n : ℕ) (ls : List Str) (stat : VmStat Information)
      → n ≤ max_u64
      → read_vmstat kilobyte (vm_line (name_of_vm f) n ∷ ls) stat
        ≡ read_vmstat kilobyte ls (assign_vm f (kilobyte ((4 * n) % 2 ^ 64)) stat)
  unfolding read_vmstat
  read_vmstat-vm f n ls stat h = rw (value_of_line-vm f n) (rw (parse_number-decimal n h))

  module _ (root : FilePath) where
    pub read_swap-others :
        (os : List Other) (ls : List Str) (swap : Swap Information) (k : ℕ)
        → All (IsOther swap_field_of b':') os
        → read_swap kilobyte root (map (other_line b':') os ++ ls) swap k
          ≡ read_swap kilobyte root ls swap k
    unfolding read_swap
    read_swap-others [] ls swap k h = refl
    read_swap-others (o ∷ os) ls swap k h =
        rw (value_of_line-other swap_field_of (codes "Sw") b':' o h.0)
          (read_swap-others os ls swap k h.1)

    pub read_swap-swap :
        (f : SwapField) (pad : Str) (n : ℕ) (unit : Str) (ls : List Str) (swap : Swap Information)
        (k : ℕ) (b : Bool)
        → All (λ c. is_whitespace c ≡ true) pad
        → n ≤ max_u64
        → (k + 1 == 2) ≡ b
        → read_swap kilobyte root (swap_line (name_of_swap f) pad n unit ∷ ls) swap k ≡ (
            if b
            then ok (assign_swap f (kilobyte n) swap)
            else read_swap kilobyte root ls (assign_swap f (kilobyte n) swap) (k + 1))
    unfolding read_swap
    read_swap-swap f pad n unit ls swap k b h fits e =
        rw (value_of_line-swap f pad n unit h) (rw (parse_number-decimal n fits) (rw e))
