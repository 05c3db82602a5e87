-- ===== src/Cpu/Times.antt =====
-- heim-cpu/src/sys/linux/times.rs. `parse` is the parse of an `f64`, divided by the number of clock
-- ticks in a second.
pub mod Parsed
use heim.Prelude.{ℕ, suc, Option, none, some, List, [], ◌∷◌, drop, ◌==◌, if◌then◌else◌}
use heim.Outcome.{Outcome, ok, err, panic, ◌>>=◌, map_err}
use heim.Text.{Str, codes, starts_with, is_whitespace}
use heim.Text.Split.{words}
use heim.Common.Errors.{Result, IoResult, ParseFloatError, from_io, from_parse_float, missing_key}
use heim.Runtime.Fs.{FilePath, Files, join, read_lines, read_lines_into}

-- `CpuTime`; its accessors are the fields.
pub record CpuTime (Time : Type 0) : Type 0 where
  pub user : Time
  pub nice : Time
  pub system : Time
  pub idle : Time
  pub io_wait : Time
  pub irq : Time
  pub soft_irq : Time
  pub steal : Time
  pub guest : Option Time
  pub guest_nice : Option Time

module _ {Time : Type 0} where
  -- The match on the index; `none` is its `break`.
  abbrev pub assign : ℕ → Time → CpuTime Time → Option (CpuTime Time)
  assign idx value times =
      if idx == 0
      then some (record times { user = value })
      else if idx == 1
      then some (record times { nice = value })
      else if idx == 2
      then some (record times { system = value })
      else if idx == 3
      then some (record times { idle = value })
      else if idx == 4
      then some (record times { io_wait = value })
      else if idx == 5
      then some (record times { irq = value })
      else if idx == 6
      then some (record times { soft_irq = value })
      else if idx == 7
      then some (record times { steal = value })
      else if idx == 8
      then some (record times { guest = some value })
      else if idx == 9
      then some (record times { guest_nice = some value })
      else none

module _ {Time : Type 0} (zero_time : Time) (parse : Str → Outcome ParseFloatError Time) where
  -- `CpuTime::default`
  abbrev pub default : CpuTime Time
  default = record {
    user = zero_time;
    nice = zero_time;
    system = zero_time;
    idle = zero_time;
    io_wait = zero_time;
    irq = zero_time;
    soft_irq = zero_time;
    steal = zero_time;
    guest = none;
    guest_nice = none;
  }

  -- The loop over the parts: a part is parsed before its index is looked at.
  unfoldable pub read_parts : ℕ → List Str → CpuTime Time → Result (CpuTime Time)
  read_parts idx [] times = ok times
  read_parts idx (part ∷ parts) times = do
    value ← map_err from_parse_float (parse part)
    elim (assign idx value times) [ none ↦ ok times | some next ↦ read_parts (suc idx) parts next ]

  -- `CpuTime::from_str`
  unfoldable pub from_str : Str → Result (CpuTime Time)
  unfolding read_parts
  from_str value = read_parts 0 (drop 1 (words is_whitespace value)) default

  module _ (files : Files) (procfs_root : FilePath) where
    -- The first item of the stream; `source` is the debug form of the root and "/stat".
    abbrev pub first_item : Str → List (Result (CpuTime Time)) → Result (CpuTime Time)
    first_item source [] = err (missing_key (codes "cumulative time line") source)
    first_item source (line ∷ lines) = line

    -- `time`
    unfoldable pub time : Str → Result (CpuTime Time)
    unfolding from_str
    time source = do
      lines ←
          map_err from_io
            (read_lines_into files from_io (λ e. e) from_str (join procfs_root (codes "stat")))
      first_item source lines

    -- What the closure of `times` adds for one line.
    abbrev pub push_line :
        IoResult Str → List (Result (CpuTime Time)) → List (Result (CpuTime Time))
    push_line (ok line) rest = if starts_with line (codes "cpu") then from_str line ∷ rest else rest
    push_line (err e) rest = err (from_io e) ∷ rest
    push_line panic rest = panic ∷ rest

    unfoldable pub filter_lines : List (IoResult Str) → List (Result (CpuTime Time))
    filter_lines [] = []
    filter_lines (line ∷ lines) = push_line line (filter_lines lines)

    -- `times`, with what its stream yields
    unfoldable pub times : Result (List (Result (CpuTime Time)))
    unfolding filter_lines
    times = do
      lines ← map_err from_io (read_lines files (join procfs_root (codes "stat")))
      ok (filter_lines (drop 1 lines))
