-- ===== src/Process/ProcArgs.antt =====
-- heim-process/src/sys/macos/wrappers/proc_args.rs: the block of memory with the path, the arguments
-- and the environment of a process, in the order of bytes of a little-endian machine.
pub mod Arguments
pub mod Block
use mathlib.Core.Option
use heim.Prelude.{
  ℕ, zero, suc, ◌+◌, ◌-◌, ◌*◌, ◌%◌, ◌^◌, ◌≤◌, Option, none, some, List, [], ◌∷◌, map, length, take,
  drop, leb, ◌==◌, if◌then◌else◌,
}
use heim.Outcome.{ok, panic, ◌>>=◌}
use heim.Text.{Bytes}
use heim.Common.Errors.{Result}
use heim.Memchr.{Memchr, MemchrIter}
use heim.Process.Env.{Environment, from_bytes}

abbrev pub or_zero : Option ℕ → ℕ
or_zero none = 0
or_zero (some n) = n

-- `ProcArgs::argc`; the slice panics if it is cut off.
abbrev pub argc : Bytes → Result ℕ
argc (a ∷ b ∷ c ∷ d ∷ rest) = ok (a + 256 * (b + 256 * (c + 256 * d)))
argc _ = panic

-- `position(|byte| *byte != 0)`
unfoldable pub first_nonzero : Bytes → Option ℕ
first_nonzero [] = none
first_nonzero (b ∷ s) =
    let rest = Option.map suc (first_nonzero s) in if b == 0 then rest else some 0

-- `Iterator::nth`
abbrev pub nth : ℕ → List ℕ → Option ℕ
nth k [] = none
nth zero (n ∷ ns) = some n
nth (suc k) (n ∷ ns) = nth k ns

-- The slice of a range.
abbrev pub slice : ℕ × ℕ → Bytes → Bytes
slice (start, end) bytes = take (end - start) (drop start bytes)

-- `ProcArgsArguments`
pub record ProcArgsArguments : Type 0 where
  pub left : ℕ
  pub bytes : Bytes

module _ (m : Memchr) (iter : MemchrIter) where
  open m use {memchr}
  open iter use {memchr_iter}

  -- The end of `ProcArgs::exe_range`, of a block with its four first bytes.
  abbrev pub exe_end : Bytes → ℕ
  exe_end bytes = or_zero (memchr 0 (drop 4 bytes)) + 4

  -- `ProcArgs::exe`
  abbrev pub exe : Bytes → Result Bytes
  exe (a ∷ b ∷ c ∷ d ∷ s) = ok (slice (4, exe_end (a ∷ b ∷ c ∷ d ∷ s)) (a ∷ b ∷ c ∷ d ∷ s))
  exe _ = panic

  unfoldable pub arguments_start : Bytes → ℕ
  unfolding first_nonzero
  arguments_start bytes = or_zero (first_nonzero (drop (exe_end bytes) bytes)) + exe_end bytes

  -- `argc - 1` wraps, as in a release build.
  unfoldable pub arguments_end : ℕ → Bytes → ℕ
  unfolding arguments_start
  arguments_end count bytes =
      or_zero
        (nth ((count + (2 ^ 64 - 1)) % 2 ^ 64) (memchr_iter 0 (drop (arguments_start bytes) bytes)))
      + arguments_start bytes

  -- `ProcArgs::arguments_range`
  unfoldable pub arguments_range : Bytes → Result (ℕ × ℕ)
  unfolding arguments_start arguments_end
  arguments_range bytes = do
    count ← argc bytes
    ok (arguments_start bytes, arguments_end count bytes)

  -- `ProcArgs::arguments`
  unfoldable pub arguments : Bytes → Result ProcArgsArguments
  unfolding arguments_range
  arguments bytes = do
    range ← arguments_range bytes
    count ← argc bytes
    ok (record { left = count; bytes = slice range bytes })

  -- `ProcArgs::to_command`
  unfoldable pub to_command : Bytes → Result Bytes
  unfolding arguments_range
  to_command bytes = do
    range ← arguments_range bytes
    ok (map (λ byte. if byte == 0 then b' ' else byte) (slice range bytes))

  -- `ProcArgs::environment`; the slice panics if it starts behind the end.
  unfoldable pub environment : Bytes → Result (Option Environment)
  unfolding arguments_range
  environment bytes = do
    (start, end) ← arguments_range bytes
    if leb (end + 1) (length bytes) then ok (from_bytes m (drop (end + 1) bytes)) else panic

  -- `Iterator::next`
  unfoldable pub next : ProcArgsArguments → Option Bytes × ProcArgsArguments
  next it = if it.left == 0 then (none, it) else elim (memchr 0 it.bytes) [
    | some end ↦
        (some (take end it.bytes), record { left = it.left - 1; bytes = drop (suc end) it.bytes })
    | none ↦ (some it.bytes, record it { left = it.left - 1 })
  ]

  -- `collect`; `none` means that the fuel ran out.
  unfoldable pub collect : ℕ → ProcArgsArguments → Option (List Bytes)
  unfolding next
  collect zero it = none
  collect (suc fuel) it =
      let rest = collect fuel (next it).1 in
      elim (next it).0 [ none ↦ some [] | some item ↦ Option.map (λ items. item ∷ items) rest ]
