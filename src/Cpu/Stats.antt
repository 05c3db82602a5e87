-- ===== src/Cpu/Stats.antt =====
-- heim-cpu/src/sys/linux/stats.rs
pub mod Layout
pub mod Parsed
use heim.Prelude.{ℕ, zero, suc, ◌+◌, Bool, Option, none, some, List, [], ◌∷◌, ◌==◌, if◌then◌else◌}
use mathlib.Core.Option
use heim.Outcome.{Outcome, ok, err, panic, ◌>>=◌, map_err}
use heim.Text.{Str, codes, str_eq, is_whitespace}
use heim.Text.Split.{lines, split, trim_end}
use heim.Text.Number.{parse_u64}
use heim.Common.Errors.{Error, Result, missing_key, from_io, from_parse_int}
use heim.Runtime.Fs.{FilePath, Files, join, read_into}

-- `CpuStats`; its accessors are the fields.
pub record CpuStats : Type 0 where
  pub ctx_switches : ℕ
  pub interrupts : ℕ
  pub soft_interrupts : ℕ

abbrev pub default : CpuStats
default = record { ctx_switches = 0; interrupts = 0; soft_interrupts = 0 }

-- The field that the first match borrows.
pub data Counter : Type 0 where
  ctxt intr softirq : Counter

unfoldable pub counter_of : Str → Option Counter
counter_of name =
    if str_eq name (codes "ctxt")
    then some ctxt
    else if str_eq name (codes "intr")
    then some intr
    else if str_eq name (codes "softirq")
    then some softirq
    else none

abbrev pub assign : Counter → ℕ → CpuStats → CpuStats
assign ctxt value stats = record stats { ctx_switches = value }
assign intr value stats = record stats { interrupts = value }
assign softirq value stats = record stats { soft_interrupts = value }

module _ (source : Str) where
  -- The second match of the body. `source` is the debug form of the root and "/stat".
  abbrev pub match_value : Str → Counter → List Str → CpuStats → ℕ → Result (CpuStats × ℕ)
  match_value name counter [] stats matched = err (missing_key name source)
  match_value name counter (raw_value ∷ parts) stats matched = do
    value ← map_err from_parse_int (parse_u64 (trim_end is_whitespace raw_value))
    ok (assign counter value stats, matched + 1)

  -- The body of the loop up to the test of `matched_lines`, on the parts of the line; `none` is
  -- `continue`.
  abbrev pub match_parts : List Str → CpuStats → ℕ → Option (Result (CpuStats × ℕ))
  match_parts [] stats matched = none
  match_parts (name ∷ parts) stats matched =
      Option.map (λ counter. match_value name counter parts stats matched) (counter_of name)

  -- The test of `matched_lines`: a `break`, or the next line.
  abbrev pub after : Result (CpuStats × ℕ) → (CpuStats → ℕ → Result CpuStats) → Result CpuStats
  after found next = do state ← found; if state.1 == 3 then ok state.0 else next state.0 state.1

  unfoldable pub read_lines : List Str → CpuStats → ℕ → Result CpuStats
  read_lines [] stats matched = ok stats
  read_lines (line ∷ rest) stats matched = elim (match_parts (split b' ' line) stats matched) [
    | none ↦ read_lines rest stats matched
    | some found ↦ after found (read_lines rest)
  ]

  -- `CpuStats::from_str`
  unfoldable pub from_str : Str → Result CpuStats
  unfolding read_lines
  from_str s = read_lines (lines s) default 0

  -- `stats`
  unfoldable pub stats : Files → FilePath → Result CpuStats
  unfolding from_str
  stats files procfs_root =
      read_into files from_io (λ e. e) from_str (join procfs_root (codes "stat"))
