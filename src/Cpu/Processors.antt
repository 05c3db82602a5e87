-- ===== src/Cpu/Processors.antt =====
-- heim-cpu/src/sys/windows: the records of logical processors (wrappers/count.rs) and the counts
-- (count.rs). A call of the system that is told of more bytes than the buffer has, and a read behind
-- its end, are undefined behaviour; they stand as panics.
pub mod Records
pub mod Growth
use mathlib.Core.Option
use heim.Prelude.{
  ℕ, zero, suc, ◌+◌, ◌-◌, Bool, true, false, Option, none, some, List, [], ◌∷◌, length, drop, ltb,
  leb, ◌==◌, if◌then◌else◌,
}
use heim.Outcome.{ok, err, panic, ◌>>=◌, map_ok, map_err}
use heim.Text.{Bytes, codes}
use heim.Common.Errors.{ℤ, Result, IoResult, IoError, last_os_error, with_ffi, io_raw_os_error}
use heim.Common.Int.{int_eq}
use heim.Common.Memory.{field}
use heim.Runtime.Task.{Task, ready, await}

-- The answer of `GetLogicalProcessorInformationEx`: the records, or the last error with the size
-- that it leaves in its argument.
pub data Answer : Type 0 where
  filled : Bytes → Answer
  failed : IoError → ℕ → Answer

-- The call for a buffer of so many bytes; without a buffer, the size that it answers. `reserve` is
-- the capacity of a vector behind `Vec::reserve`, by its capacity, its length and its argument.
pub record Query (S : Type 0) : Type 0 where
  pub needed : Task S ℕ
  pub query : ℕ → Task S Answer
  pub reserve : ℕ → ℕ → ℕ → ℕ
  pub insufficient_buffer : ℤ

pub record LogicalProcessors : Type 0 where
  pub buffer : Bytes

abbrev is_code : Option ℤ → ℤ → Bool
is_code none code = false
is_code (some raw) code = int_eq raw code

module _ {S : Type 0} (sys : Query S) where
  -- What the loop of `LogicalProcessors::get` does with an answer: the next round gets the size.
  abbrev pub react :
      (ℕ → Task S (Option (Result LogicalProcessors)))
      → Answer
      → Task S (Option (Result LogicalProcessors))
  react go (filled bytes) s = (some (ok (record { buffer = bytes })), s)
  react go (failed e size) s =
      if is_code (io_raw_os_error e) sys.insufficient_buffer
      then go size s
      else (some (err (with_ffi (last_os_error e) (codes "GetLogicalProcessorInformationEx"))), s)

  -- The loop, with its rounds; the length of the vector is zero all along.
  unfoldable pub fill : ℕ → ℕ → ℕ → Task S (Option (Result LogicalProcessors))
  fill zero capacity size s = (none, s)
  fill (suc fuel) capacity size s =
      let capacity' = sys.reserve capacity 0 (size - capacity) in
      let rest = fill fuel capacity' in
      if ltb size capacity
      then (some panic, s)
      else if ltb capacity' size
      then (some panic, s)
      else let r = sys.query size s in react rest r.0 r.1

  -- `LogicalProcessors::get`
  unfoldable pub get : ℕ → Task S (Option (Result LogicalProcessors))
  unfolding fill
  get fuel s = let r = sys.needed s in fill fuel 0 r.0 r.1

-- The head of `SYSTEM_LOGICAL_PROCESSOR_INFORMATION_EX`: two numbers of 32 bits.
pub record Processor : Type 0 where
  pub relationship : ℕ
  pub size : ℕ

pub record LogicalProcessorsIter : Type 0 where
  pub bytes : Bytes
  pub offset : ℕ

abbrev pub processor_at : LogicalProcessorsIter → Processor
processor_at self = record {
  relationship = field 0 4 (drop self.offset self.bytes);
  size = field 4 4 (drop self.offset self.bytes);
}

-- `Iterator::next`
unfoldable pub next : LogicalProcessorsIter → Result (Option (Processor × LogicalProcessorsIter))
next self =
    if leb (length self.bytes) self.offset
    then ok none
    else if ltb (length self.bytes) (self.offset + 8)
    then panic
    else ok
        (some (processor_at self, record self { offset = self.offset + (processor_at self).size }))

-- `filter` and `count`, with a number of calls; `none` means that they were too few.
module _ (processor_core : ℕ) where
  abbrev pub tally :
      (LogicalProcessorsIter → Option (Result ℕ))
      → Result (Option (Processor × LogicalProcessorsIter))
      → Option (Result ℕ)
  tally go panic = some panic
  tally go (err e) = some (err e)
  tally go (ok none) = some (ok 0)
  tally go (ok (some (p, self))) =
      Option.map (map_ok (λ n. if p.relationship == processor_core then suc n else n)) (go self)

  unfoldable pub count : ℕ → LogicalProcessorsIter → Option (Result ℕ)
  unfolding next
  count zero self = none
  count (suc calls) self = tally (count calls) (next self)

  abbrev pub positive : ℕ → Option ℕ
  positive zero = none
  positive (suc n) = some (suc n)

  abbrev pub counted : ℕ → Option (Result LogicalProcessors) → Option (Result (Option ℕ))
  unfolding count
  counted calls none = none
  counted calls (some panic) = some panic
  counted calls (some (err e)) = some (err e)
  counted calls (some (ok processors)) =
      Option.map (map_ok positive) (count calls (record { bytes = processors.buffer; offset = 0 }))

  -- `physical_count`
  unfoldable pub physical_count :
      {S : Type 0} → Query S → ℕ → ℕ → Task S (Option (Result (Option ℕ)))
  unfolding get counted
  physical_count sys fuel calls s = let r = get sys fuel s in (counted calls r.0, r.1)

-- `logical_count`, with the answer of `GetActiveProcessorCount` and the last error.
unfoldable pub logical_count : ℕ → IoError → Result ℕ
logical_count result e =
    if ltb 0 result
    then ok result
    else err (with_ffi (last_os_error e) (codes "GetActiveProcessorCount"))
