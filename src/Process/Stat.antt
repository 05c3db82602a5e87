-- ===== src/Process/Stat.antt =====
-- heim-process/src/sys/linux/process/procfs/stat.rs: the parser of /proc/[pid]/stat. A text is its
-- code points; a slice at a byte offset inside a character, or behind the end, panics. `seconds` is
-- the time of a number of clock ticks.
pub mod Layout
pub mod Words
pub mod RoundTrip
use heim.Prelude.{
  ℕ, zero, suc, ◌^◌, ◌-◌, Bool, Option, none, some, List, [], ◌∷◌, ◌++◌, ltb, ◌==◌, if◌then◌else◌,
}
use heim.Outcome.{Outcome, ok, err, panic, ◌>>=◌, ok_or}
use heim.Text.{Str, codes, is_whitespace}
use heim.Text.Split.{splitn, words}
use heim.Text.Number.{max_u64, parse_unsigned}
use heim.Text.Signed.{parse_signed}
use heim.Common.Errors.{
  ℤ, Error, Result, simple, invalid_data, from_io, from_parse_int, with_message,
}
use heim.Common.Iter.{try_next, try_parse_next}

pub data Status : Type 0 where
  running sleeping waiting zombie stopped tracing dead wakekill waking parked idle : Status

unfoldable pub try_from_char : ℕ → Result Status
try_from_char value =
    if value == b'R'
    then ok running
    else if value == b'S'
    then ok sleeping
    else if value == b'D'
    then ok waiting
    else if value == b'Z'
    then ok zombie
    else if value == b'T'
    then ok stopped
    else if value == b't'
    then ok tracing
    else if value == b'X'
    then ok dead
    else if value == b'x'
    then ok dead
    else if value == b'K'
    then ok wakekill
    else if value == b'W'
    then ok waking
    else if value == b'P'
    then ok parked
    else if value == b'I'
    then ok idle
    else err (
        with_message (from_io (simple invalid_data)) (codes "Unknown process state " ++ value ∷ []))

pub record Stat (Time : Type 0) : Type 0 where
  pub pid : ℤ
  pub name : Str
  pub state : Status
  pub ppid : ℤ
  pub create_time : Time
  pub utime : Time
  pub stime : Time
  pub cutime : Time
  pub cstime : Time

abbrev pub invalid : Error
invalid = from_io (simple invalid_data)

-- The texts before and behind the last place of a character: `rfind` and the slices at it.
unfoldable pub cut_last : ℕ → Str → Option (Str × Str)
cut_last sep [] = none
cut_last sep (c ∷ s) = elim (cut_last sep s) [
  | some (before, behind) ↦ some (c ∷ before, behind)
  | none ↦ if c == sep then some ([], s) else none
]

-- Behind the first byte: the slice needs a first character, of one byte.
abbrev pub behind_first : Str → Result Str
behind_first [] = panic
behind_first (c ∷ s) = if ltb c 0x80 then ok s else panic

abbrev pub first_status : Str → Result Status
first_status [] = err invalid
first_status (chr ∷ text) = try_from_char chr

abbrev pub i32 : List Str → Result (ℤ × List Str)
i32 = try_parse_next from_parse_int (parse_signed (2 ^ 31))

abbrev pub i64 : List Str → Result (ℤ × List Str)
i64 = try_parse_next from_parse_int (parse_signed (2 ^ 63))

abbrev pub u32 : List Str → Result (ℕ × List Str)
u32 = try_parse_next from_parse_int (parse_unsigned (2 ^ 32 - 1))

abbrev pub u64 : List Str → Result (ℕ × List Str)
u64 = try_parse_next from_parse_int (parse_unsigned max_u64)

module _ {Time : Type 0} (seconds : ℕ → Time) where
  -- The fields behind the name.
  unfoldable pub read_fields : ℤ → Str → List Str → Result (Stat Time)
  read_fields pid name parts = do
    (str, parts) ← try_next parts
    state ← first_status str
    (ppid, parts) ← i32 parts
    (pgrp, parts) ← i32 parts
    (session_id, parts) ← i32 parts
    (tty_nr, parts) ← i32 parts
    (tpgid, parts) ← i32 parts
    (flags, parts) ← u32 parts
    (minflt, parts) ← u64 parts
    (cminflt, parts) ← u64 parts
    (majflt, parts) ← u64 parts
    (cmajflt, parts) ← u64 parts
    (utime, parts) ← u64 parts
    (stime, parts) ← u64 parts
    (cutime, parts) ← u64 parts
    (cstime, parts) ← u64 parts
    (priority, parts) ← i64 parts
    (nice, parts) ← i64 parts
    (num_threads, parts) ← i64 parts
    (itrealvalue, parts) ← i64 parts
    (start_time, parts) ← u64 parts
    (vsize, parts) ← i64 parts
    (rss, parts) ← i64 parts
    (rsslim, parts) ← u64 parts
    ok (record {
      pid = pid;
      name = name;
      state = state;
      ppid = ppid;
      create_time = seconds start_time;
      utime = seconds utime;
      stime = seconds stime;
      cutime = seconds cutime;
      cstime = seconds cstime;
    })

  -- `Stat::from_str`
  unfoldable pub from_str : Str → Result (Stat Time)
  unfolding read_fields
  from_str s = do
    (pid, parts) ← i32 (splitn 2 b' ' s)
    (leftover, parts) ← try_next parts
    (before, behind) ← ok_or invalid (cut_last b')' leftover)
    name ← behind_first before
    fields ← behind_first behind
    read_fields pid name (words is_whitespace fields)
