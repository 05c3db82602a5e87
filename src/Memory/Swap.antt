-- ===== src/Memory/Swap.antt =====
-- heim-memory/src/sys/linux/swap.rs. The product of a u64 wraps, as in a release build.
pub mod Lines
pub mod Parsed
use heim.Prelude.{
  ℕ, zero, suc, ◌+◌, ◌*◌, ◌%◌, ◌^◌, Bool, Option, none, some, List, [], ◌∷◌, ◌==◌, if◌then◌else◌,
}
use heim.Outcome.{Outcome, ok, err, panic, ◌>>=◌, map_err}
use heim.Text.{Str, codes, str_eq}
use heim.Text.Split.{lines, splitn}
use heim.Common.Errors.{Error, Result, simple, invalid_data, from_io, with_file}
use heim.Runtime.Fs.{FilePath, Files, join}
use heim.Memory.Value.{first_bytes, number_text, parse_number}

pub record VmStat (Information : Type 0) : Type 0 where
  pub swap_in : Option Information
  pub swap_out : Option Information

pub record Swap (Information : Type 0) : Type 0 where
  pub total : Information
  pub free : Information
  pub vm_stat : VmStat Information

-- The fields that the matches borrow.
pub data VmField : Type 0 where
  in_swap_in in_swap_out : VmField

pub data SwapField : Type 0 where
  in_total in_free : SwapField

unfoldable pub vm_field_of : Str → Option VmField
vm_field_of name =
    if str_eq name (codes "pswpin")
    then some in_swap_in
    else if str_eq name (codes "pswpout")
    then some in_swap_out
    else none

unfoldable pub swap_field_of : Str → Option SwapField
swap_field_of name =
    if str_eq name (codes "SwapTotal")
    then some in_total
    else if str_eq name (codes "SwapFree")
    then some in_free
    else none

module _ {Information : Type 0} where
  -- `Swap::used`, over the subtraction of `Information`
  abbrev pub used : (Information → Information → Information) → Swap Information → Information
  used minus swap = minus swap.total swap.free

  abbrev pub assign_vm : VmField → Information → VmStat Information → VmStat Information
  assign_vm in_swap_in v stat = record stat { swap_in = some v }
  assign_vm in_swap_out v stat = record stat { swap_out = some v }

  abbrev pub assign_swap : SwapField → Information → Swap Information → Swap Information
  assign_swap in_total v swap = record swap { total = v }
  assign_swap in_free v swap = record swap { free = v }

-- The field and the text of the number that a line holds for it, or `none` where the loop goes on;
-- `field` is the match on the key.
abbrev pub value_of_parts : {F : Type 0} → (Str → Option F) → List Str → Option (F × Str)
value_of_parts field [] = none
value_of_parts field (name ∷ []) = none
value_of_parts field (name ∷ value ∷ parts) = elim (field name) [
  | none ↦ none
  | some f ↦ elim (number_text value) [ none ↦ none | some kbytes ↦ some (f, kbytes) ]
]

-- The line behind the test of its first bytes; the outer `Result` is the slice's panic.
unfoldable pub value_of_line :
    {F : Type 0} → (Str → Option F) → Str → ℕ → Str → Result (Option (F × Str))
value_of_line field letters separator line = elim (first_bytes line) [
  | none ↦ panic
  | some two ↦
      ok (if str_eq two letters then value_of_parts field (splitn 2 separator line) else none)
]

module _ {Information : Type 0} (kilobyte : ℕ → Information) where
  -- What a round of `VmStat::from_str` does with the value.
  abbrev pub store_vm : Option (VmField × Str) → VmStat Information → Result (VmStat Information)
  store_vm none stat = ok stat
  store_vm (some (field, kbytes)) stat = do
    value ← parse_number kbytes
    ok (assign_vm field (kilobyte ((4 * value) % 2 ^ 64)) stat)

  unfoldable pub read_vmstat : List Str → VmStat Information → Result (VmStat Information)
  read_vmstat [] stat = ok stat
  read_vmstat (line ∷ rest) stat = do
    found ← value_of_line vm_field_of (codes "ps") b' ' line
    next ← store_vm found stat
    read_vmstat rest next

  -- `VmStat::from_str`
  unfoldable pub vmstat_from_str : Str → Result (VmStat Information)
  unfolding read_vmstat
  vmstat_from_str vmstat = read_vmstat (lines vmstat) (record { swap_in = none; swap_out = none })

  module _ (procfs_root : FilePath) where
    abbrev pub incomplete : Error
    incomplete = with_file (from_io (simple invalid_data)) (join procfs_root (codes "meminfo"))

    -- What a round of `Swap::parse_str` does with the value, and the rest of the loop behind it.
    abbrev pub store_swap :
        Option (SwapField × Str)
        → Swap Information
        → ℕ
        → (Swap Information → ℕ → Result (Swap Information))
        → Result (Swap Information)
    store_swap none swap matched next = next swap matched
    store_swap (some (field, kbytes)) swap matched next = do
      value ← parse_number kbytes
      let stored = assign_swap field (kilobyte value) swap
      if matched + 1 == 2 then ok stored else next stored (matched + 1)

    unfoldable pub read_swap : List Str → Swap Information → ℕ → Result (Swap Information)
    read_swap [] swap matched = err incomplete
    read_swap (line ∷ rest) swap matched = do
      found ← value_of_line swap_field_of (codes "Sw") b':' line
      store_swap found swap matched (read_swap rest)

    -- `Swap::parse_str`; `zero_bytes` is `Information::new::<information::byte>(0)`.
    unfoldable pub parse_str : Information → Str → VmStat Information → Result (Swap Information)
    unfolding read_swap
    parse_str zero_bytes meminfo vm_stat =
        read_swap (lines meminfo)
          (record { total = zero_bytes; free = zero_bytes; vm_stat = vm_stat }) 0

    -- `swap`
    unfoldable pub swap : Files → Information → Result (Swap Information)
    unfolding parse_str vmstat_from_str
    swap files zero_bytes = do
      meminfo ← map_err from_io (files.read_to_string (join procfs_root (codes "meminfo")))
      vmstat ← map_err from_io (files.read_to_string (join procfs_root (codes "vmstat")))
      vm_stat ← vmstat_from_str vmstat
      parse_str zero_bytes meminfo vm_stat
