-- ===== src/Memory/Swap/Parsed.antt =====
-- What the parsers of swap.rs return for texts in the layout of /proc/vmstat and /proc/meminfo.
use heim.Prelude.{
  ℕ, ◌*◌, ◌%◌, ◌^◌, ◌≤◌, true, false, Option, none, some, List, [], ◌∷◌, ◌++◌, append_assoc,
  append-nil, map, ◌≡◌, refl, sym, ap, ◌∙◌, arith, All, All-append,
}
use heim.Outcome.{ok}
use heim.Text.{Str, codes, is_whitespace}
use heim.Text.Split.{lines}
use heim.Text.Laws.{OneLine, OneLine-append, OneLine-cons, unlines, lines-unlines}
use heim.Text.Number.{max_u64}
use heim.Text.Decimal.{decimal, decimal-OneLine}
use heim.Runtime.Fs.{FilePath}
use heim.Memory.Swap.{
  VmStat, Swap, VmField, SwapField, in_swap_in, in_swap_out, in_total, in_free, vm_field_of,
  swap_field_of, read_vmstat, vmstat_from_str, read_swap, parse_str, assign_vm,
}
use heim.Memory.Swap.Lines.{
  read_vmstat-others, read_vmstat-vm, read_swap-others, read_swap-swap, Other, other_line, IsOther,
  swap_line, vm_line, name_of_vm, name_of_swap,
}

others-OneLine :
    {F : Type 0} (field : Str → Option F) (separator : ℕ) (os : List Other)
    → All (IsOther field separator) os
    → All OneLine (map (other_line separator) os)
others-OneLine field separator [] h = tt
others-OneLine field separator ((name, rest) ∷ os) h =
    let (no_field, long, lacks, one) = h.0 in (one, others-OneLine field separator os h.1)

vm_line-OneLine : (f : VmField) (n : ℕ) → OneLine (vm_line (name_of_vm f) n)
vm_line-OneLine f n =
    OneLine-append (name_of_vm f) (b' ' ∷ decimal n) (named f)
      (OneLine-cons b' ' (decimal n) (omega arith) (omega arith) (decimal-OneLine n))
  where
    named : (f : VmField) → OneLine (name_of_vm f)
    named in_swap_in = omega arith
    named in_swap_out = omega arith

swap_line-OneLine :
    (f : SwapField) (pad : Str) (n : ℕ) (unit : Str)
    → OneLine pad
    → OneLine unit
    → OneLine (swap_line (name_of_swap f) pad n unit)
swap_line-OneLine f pad n unit p u = OneLine-append (name_of_swap f) _ (named f) (
    OneLine-cons b':' _ (omega arith) (omega arith) (
      OneLine-append pad _ p (
        OneLine-append (decimal n) _ (decimal-OneLine n)
          (OneLine-cons b' ' unit (omega arith) (omega arith) u))))
  where
    named : (f : SwapField) → OneLine (name_of_swap f)
    named in_total = omega arith
    named in_free = omega arith

no_wrap : (n : ℕ) → 4 * n ≤ max_u64 → (4 * n) % 2 ^ 64 ≡ 4 * n
no_wrap n h = omega arith

module _ {Information : Type 0} (kilobyte : ℕ → Information) where
  abbrev nothing : VmStat Information
  nothing = record { swap_in = none; swap_out = none }

  -- A text with a `pswpin` line, later a `pswpout` line, and lines with other keys of two
  -- characters or more before, between and behind them is parsed into the two values, four
  -- kilobytes for each page, if their products by four fit a u64.
  vmstat_from_str-vm_line :
      (os ps qs : List Other) (a b : ℕ)
      → All (IsOther vm_field_of b' ') os
      → All (IsOther vm_field_of b' ') ps
      → All (IsOther vm_field_of b' ') qs
      → 4 * a ≤ max_u64
      → 4 * b ≤ max_u64
      → vmstat_from_str kilobyte (
          unlines
            (map (other_line b' ') os
              ++ vm_line (codes "pswpin") a
                ∷ (map (other_line b' ') ps
                    ++ vm_line (codes "pswpout") b ∷ map (other_line b' ') qs))
            [])
        ≡ ok (record { swap_in = some (kilobyte (4 * a)); swap_out = some (kilobyte (4 * b)) })
  unfolding vmstat_from_str read_vmstat lines
  vmstat_from_str-vm_line os ps qs a b ho hp hq fa fb =
      let swap_in = vm_line (codes "pswpin") a in
      let swap_out = vm_line (codes "pswpout") b in
      let before = map (other_line b' ') os in
      let between = map (other_line b' ') ps in
      let behind = map (other_line b' ') qs in
      let one : All OneLine (before ++ swap_in ∷ (between ++ swap_out ∷ behind)) =
        All-append OneLine before _ (others-OneLine vm_field_of b' ' os ho) (
          vm_line-OneLine in_swap_in a,
          All-append OneLine between _ (others-OneLine vm_field_of b' ' ps hp)
              (vm_line-OneLine in_swap_out b, others-OneLine vm_field_of b' ' qs hq),
        ) in
      ap (λ ls. read_vmstat kilobyte ls nothing)
        (lines-unlines (before ++ swap_in ∷ (between ++ swap_out ∷ behind)) [] one
          ∙ append-nil (before ++ swap_in ∷ (between ++ swap_out ∷ behind)))
      ∙ read_vmstat-others kilobyte os _ nothing ho
      ∙ read_vmstat-vm kilobyte in_swap_in a _ nothing (omega arith)
      ∙ read_vmstat-others kilobyte ps _ _ hp
      ∙ read_vmstat-vm kilobyte in_swap_out b behind _ (omega arith)
      ∙ ap
          (λ ls. read_vmstat kilobyte ls (
            assign_vm in_swap_out (kilobyte ((4 * b) % 2 ^ 64))
              (assign_vm in_swap_in (kilobyte ((4 * a) % 2 ^ 64)) nothing)))
          (sym (append-nil behind))
      ∙ read_vmstat-others kilobyte qs [] _ hq
      ∙ rw (no_wrap a fa) (rw (no_wrap b fb))

  module _ (root : FilePath) where
    abbrev start : Information → VmStat Information → Swap Information
    start zero_bytes vm = record { total = zero_bytes; free = zero_bytes; vm_stat = vm }

    -- A text with a `SwapTotal` line, later a `SwapFree` line, and lines with other keys of two
    -- characters or more before and between them is parsed into the two values in kilobytes,
    -- whatever stands behind, if white space stands before the numbers and they fit a u64; the
    -- statistics of the virtual memory are passed on.
    parse_str-swap_line :
        (zero_bytes : Information) (vm : VmStat Information) (os ps : List Other) (rest : Str)
        (pad unit : Str) (a b : ℕ)
        → All (IsOther swap_field_of b':') os
        → All (IsOther swap_field_of b':') ps
        → All (λ c. is_whitespace c ≡ true) pad
        → OneLine pad
        → OneLine unit
        → a ≤ max_u64
        → b ≤ max_u64
        → parse_str kilobyte root zero_bytes
            (unlines
              (map (other_line b':') os
                ++ swap_line (codes "SwapTotal") pad a unit
                  ∷ (map (other_line b':') ps ++ swap_line (codes "SwapFree") pad b unit ∷ []))
              rest)
            vm
          ≡ ok (record { total = kilobyte a; free = kilobyte b; vm_stat = vm })
    unfolding parse_str
    parse_str-swap_line zero_bytes vm os ps rest pad unit a b ho hp space op ou fa fb =
        let total = swap_line (codes "SwapTotal") pad a unit in
        let free = swap_line (codes "SwapFree") pad b unit in
        let before = map (other_line b':') os in
        let between = map (other_line b':') ps in
        let one : All OneLine (before ++ total ∷ (between ++ free ∷ [])) =
          All-append OneLine before _ (others-OneLine swap_field_of b':' os ho) (
            swap_line-OneLine in_total pad a unit op ou,
            All-append OneLine between _ (others-OneLine swap_field_of b':' ps hp)
                (swap_line-OneLine in_free pad b unit op ou, tt),
          ) in
        ap (λ ls. read_swap kilobyte root ls (start zero_bytes vm) 0)
          (lines-unlines (before ++ total ∷ (between ++ free ∷ [])) rest one
            ∙ append_assoc before (total ∷ (between ++ free ∷ [])) (lines rest)
            ∙ ap (λ t. before ++ total ∷ t) (append_assoc between (free ∷ []) (lines rest)))
        ∙ read_swap-others kilobyte root os _ (start zero_bytes vm) 0 ho
        ∙ read_swap-swap kilobyte root in_total pad a unit _ (start zero_bytes vm) 0 false space fa
            refl
        ∙ read_swap-others kilobyte root ps _ _ 1 hp
        ∙ read_swap-swap kilobyte root in_free pad b unit (lines rest) _ 1 true space fb refl
