-- ===== src/Cpu/Count/Physical.antt =====
-- heim-cpu/src/sys/linux/count/physical.rs. The files that a glob pattern matches are a parameter:
-- `none` for a pattern that is refused, and an error for a path that cannot be read. A `HashSet` is
-- a list without duplicates.
pub mod Lines
pub mod Topology
use heim.Prelude.{
  ℕ, zero, suc, Bool, true, false, ◌||◌, Option, none, some, List, [], ◌∷◌, ◌==◌, ◌&&◌, length,
  if◌then◌else◌,
}
use heim.Outcome.{Outcome, ok, err, panic, ◌>>=◌, map_err, map_ok, ok_or, or_else}
use heim.Text.{Str, codes, starts_with, is_whitespace}
use heim.Text.Split.{split, trim_start, trim_end}
use heim.Text.Number.{parse_u64}
use heim.Common.Errors.{Error, Result, IoResult, simple, invalid_data, from_io, from_parse_int}
use heim.Runtime.Fs.{FilePath, Files, join}

-- `str::trim`
abbrev pub trim : Str → Str
trim s = trim_end is_whitespace (trim_start is_whitespace s)

unfoldable pub has : ℕ → List ℕ → Bool
has x [] = false
has x (y ∷ ys) = y == x || has x ys

unfoldable pub insert : ℕ → List ℕ → List ℕ
insert x xs = if has x xs then xs else x ∷ xs

unfoldable pub has_pair : ℕ × ℕ → List (ℕ × ℕ) → Bool
has_pair p [] = false
has_pair p (q ∷ qs) = (q.0 == p.0 && q.1 == p.1) || has_pair p qs

unfoldable pub insert_pair : ℕ × ℕ → List (ℕ × ℕ) → List (ℕ × ℕ)
unfolding has_pair
insert_pair p ps = if has_pair p ps then ps else p ∷ ps

module _ (files : Files) where
  -- The body of the loop of `topology`.
  abbrev pub read_core_id : IoResult FilePath → Result ℕ
  read_core_id try_entry = do
    entry ← map_err from_io try_entry
    contents ← map_err from_io (files.read_to_string entry)
    map_err from_parse_int (parse_u64 (trim contents))

  unfoldable pub collect_ids : List (IoResult FilePath) → List ℕ → Result (List ℕ)
  unfolding insert
  collect_ids [] acc = ok acc
  collect_ids (try_entry ∷ entries) acc = do
    core_id ← read_core_id try_entry
    collect_ids entries (insert core_id acc)

abbrev pub count_ids : List ℕ → Result ℕ
count_ids [] = err (from_io (simple invalid_data))
count_ids (x ∷ xs) = ok (length (x ∷ xs))

abbrev pub core_id_pattern : Str
core_id_pattern = codes "devices/system/cpu/cpu[0-9]/topology/core_id"

module _ (glob : Str → Option (List (IoResult FilePath))) (sysfs_root : FilePath)
    (files : Files) where
  unfoldable pub topology : Result ℕ
  unfolding collect_ids
  topology = elim (glob (join sysfs_root core_id_pattern)) [
    | none ↦ panic
    | some entries ↦ collect_ids files entries [] >>= count_ids
  ]

pub record Collector : Type 0 where
  pub physical_id : Option ℕ
  pub group : List (ℕ × ℕ)

abbrev pub nth : ℕ → List Str → Option Str
nth n [] = none
nth zero (x ∷ xs) = some x
nth (suc n) (x ∷ xs) = nth n xs

unfoldable pub parse_line : Str → Result ℕ
parse_line line = do
  value ← ok_or (from_io (simple invalid_data)) (nth 2 (split b':' line))
  map_err from_parse_int (parse_u64 (trim value))

abbrev found_physical_id : ℕ → Collector → Result Collector
found_physical_id core_id acc = elim acc.physical_id [
  | none ↦ ok (record acc { physical_id = some core_id })
  | some other ↦ panic
]

abbrev found_core_id : ℕ → Collector → Result Collector
found_core_id core_id acc = elim acc.physical_id [
  | some physical_id ↦
      ok (record { physical_id = none; group = insert_pair (physical_id, core_id) acc.group })
  | none ↦ panic
]

-- The `match` in the loop of `cpu_info`.
unfoldable pub read_line : Str → Collector → Result Collector
unfolding parse_line
read_line line acc =
    let physical = parse_line line >>= (λ core_id. found_physical_id core_id acc) in
    let core = parse_line line >>= (λ core_id. found_core_id core_id acc) in
    if starts_with line (codes "physical id")
    then physical
    else if starts_with line (codes "core id")
    then core
    else ok acc

unfoldable pub read_lines : List (IoResult Str) → Collector → Result Collector
unfolding read_line
read_lines [] acc = ok acc
read_lines (try_line ∷ lines) acc = do
  line ← map_err from_io try_line
  next ← read_line line acc
  read_lines lines next

abbrev pub count_group : List (ℕ × ℕ) → Option ℕ
count_group [] = none
count_group (x ∷ xs) = some (length (x ∷ xs))

module _ (procfs_root : FilePath) (files : Files) where
  unfoldable pub cpu_info : Result (Option ℕ)
  unfolding read_lines
  cpu_info = do
    reader ← map_err from_io (files.open_file (join procfs_root (codes "cpuinfo")))
    acc ← read_lines reader (record { physical_id = none; group = [] })
    ok (count_group acc.group)

  -- `physical_count`
  unfoldable pub physical_count :
      (Str → Option (List (IoResult FilePath))) → FilePath → Result (Option ℕ)
  unfolding topology
  physical_count glob sysfs_root = or_else (map_ok some (topology glob sysfs_root files)) cpu_info
