-- ===== src/Cpu/Count/Physical/Lines.antt =====
-- `cpu_info` on lines as the kernel writes them, with one colon.
use heim.Prelude.{
  Bool, false, ◌||◌, inl, inr, Bool-cases, Option, none, List, [], ◌∷◌, ◌++◌, map, ◌≡◌, refl, All,
  Lacks, if◌then◌else◌,
}
use heim.Outcome.{ok, err}
use heim.Text.{Str, codes, starts_with}
use heim.Text.Laws.{split-append, split_whole}
use heim.Common.Errors.{Error, IoResult, simple, invalid_data, from_io}
use heim.Runtime.Fs.{FilePath, Files, join}
use heim.Cpu.Count.Physical.{
  parse_line, Collector, read_line, read_lines, cpu_info, physical_count, topology,
}

-- A line of /proc/cpuinfo: a key and a value, without further colons, or a text without any.
pub data Line : Type 0 where
  key_value : Str → Str → Line
  plain : Str → Line

abbrev pub text_of : Line → Str
text_of (key_value k v) = k ++ b':' ∷ v
text_of (plain s) = s

abbrev pub IsLine : Line → Type 0
IsLine (key_value k v) = Lacks b':' k × Lacks b':' v
IsLine (plain s) = Lacks b':' s

-- The line is one that the loop reads.
abbrev pub is_id : Line → Bool
is_id l = starts_with (text_of l) (codes "physical id") || starts_with (text_of l) (codes "core id")

abbrev pub any_id : List Line → Bool
any_id [] = false
any_id (l ∷ ls) = is_id l || any_id ls

abbrev pub invalid : Error
invalid = from_io (simple invalid_data)

-- `parse_line` finds nothing behind the first colon.
parse_line-Line : (l : Line) → IsLine l → parse_line (text_of l) ≡ err invalid
unfolding parse_line
parse_line-Line (key_value k v) h = rw (split-append b':' k v h.0) (rw (split_whole b':' v h.1))
parse_line-Line (plain s) h = rw (split_whole b':' s h)

read_line-Line :
    (l : Line) (acc : Collector)
    → IsLine l
    → read_line (text_of l) acc ≡ (if is_id l then err invalid else ok acc)
unfolding read_line
read_line-Line l acc h = elim (Bool-cases (starts_with (text_of l) (codes "physical id"))) [
  | inl e ↦ rw e (rw (parse_line-Line l h))
  | inr e ↦ elim (Bool-cases (starts_with (text_of l) (codes "core id"))) [
    | inl f ↦ rw (e, f) (rw (parse_line-Line l h))
    | inr f ↦ rw (e, f)
  ]
]

read_lines-Line :
    (ls : List Line) (acc : Collector)
    → All IsLine ls
    → read_lines (map (λ l. ok (text_of l)) ls) acc ≡ (if any_id ls then err invalid else ok acc)
unfolding read_lines
read_lines-Line [] acc h = refl
read_lines-Line (l ∷ ls) acc h = elim (Bool-cases (is_id l)) [
  | inl e ↦ rw (read_line-Line l acc h.0) (rw e)
  | inr e ↦ rw (read_line-Line l acc h.0) (rw e (read_lines-Line ls acc h.1))
]

module _ (procfs_root : FilePath) (files : Files) (glob : Str → Option (List (IoResult FilePath)))
    (sysfs_root : FilePath) where
  -- Where the topology cannot be read and every line of /proc/cpuinfo has at most one colon, as the
  -- kernel writes them, `physical_count` is an error of kind `InvalidData` if some line starts with
  -- `physical id` or `core id`, and else no count.
  pub physical_count-Line :
      (e : Error) (ls : List Line)
      → topology glob sysfs_root files ≡ err e
      → files.open_file (join procfs_root (codes "cpuinfo")) ≡ ok (map (λ l. ok (text_of l)) ls)
      → All IsLine ls
      → physical_count procfs_root files glob sysfs_root
        ≡ (if any_id ls then err invalid else ok none)
  unfolding physical_count cpu_info
  physical_count-Line e ls t f h =
      rw (physical_count, t)
        (rw f (
          rw (read_lines-Line ls (record { physical_id = none; group = [] }) h)
            (elim (Bool-cases (any_id ls)) [ inl i ↦ rw i | inr i ↦ rw i ])))
