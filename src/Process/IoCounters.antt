-- ===== src/Process/IoCounters.antt =====
-- heim-process/src/sys/linux/process/procfs/io.rs
pub mod Parsed
use heim.Prelude.{ℕ, Bool, Option, none, some, List, [], ◌∷◌, if◌then◌else◌}
use heim.Outcome.{Outcome, ok, err, ◌>>=◌}
use heim.Text.{Str, codes, str_eq, is_ascii_whitespace}
use heim.Text.Split.{lines, words}
use heim.Text.Number.{parse_u64}
use heim.Common.Errors.{Result, from_parse_int}
use heim.Common.Iter.{try_next, try_parse_next}

pub record IoCounters : Type 0 where
  pub rchar : ℕ
  pub wchar : ℕ
  pub syscr : ℕ
  pub syscw : ℕ
  pub read_bytes : ℕ
  pub write_bytes : ℕ
  pub cancelled_write_bytes : ℕ

abbrev pub default : IoCounters
default = record {
  rchar = 0;
  wchar = 0;
  syscr = 0;
  syscw = 0;
  read_bytes = 0;
  write_bytes = 0;
  cancelled_write_bytes = 0;
}

-- The field that the match borrows.
pub data Counter : Type 0 where
  in_rchar in_wchar in_syscr in_syscw in_read in_write in_cancelled : Counter

unfoldable pub counter_of : Str → Option Counter
counter_of key =
    if str_eq key (codes "rchar:")
    then some in_rchar
    else if str_eq key (codes "wchar:")
    then some in_wchar
    else if str_eq key (codes "syscr:")
    then some in_syscr
    else if str_eq key (codes "syscw:")
    then some in_syscw
    else if str_eq key (codes "read_bytes:")
    then some in_read
    else if str_eq key (codes "write_bytes:")
    then some in_write
    else if str_eq key (codes "cancelled_write_bytes:")
    then some in_cancelled
    else none

abbrev pub assign : Counter → ℕ → IoCounters → IoCounters
assign in_rchar v c = record c { rchar = v }
assign in_wchar v c = record c { wchar = v }
assign in_syscr v c = record c { syscr = v }
assign in_syscw v c = record c { syscw = v }
assign in_read v c = record c { read_bytes = v }
assign in_write v c = record c { write_bytes = v }
assign in_cancelled v c = record c { cancelled_write_bytes = v }

-- The assignment to the borrowed field.
abbrev pub store : Option Counter → List Str → IoCounters → Result IoCounters
store none parts counters = ok counters
store (some field) parts counters = do
  (value, rest) ← try_parse_next from_parse_int parse_u64 parts
  ok (assign field value counters)

-- The body of the loop, on the words of the line.
abbrev pub read_parts : List Str → IoCounters → Result IoCounters
read_parts parts counters = do (key, rest) ← try_next parts; store (counter_of key) rest counters

unfoldable pub read_lines : List Str → IoCounters → Result IoCounters
read_lines [] counters = ok counters
read_lines (line ∷ lines) counters = do
  next ← read_parts (words is_ascii_whitespace line) counters
  read_lines lines next

-- `IoCounters::from_str`
unfoldable pub from_str : Str → Result IoCounters
unfolding read_lines
from_str s = read_lines (lines s) default
