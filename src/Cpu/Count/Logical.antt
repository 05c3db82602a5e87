-- ===== src/Cpu/Count/Logical.antt =====
-- heim-cpu/src/sys/linux/count/logical.rs
use heim.Prelude.{
  ℕ, ◌+◌, inl, inr, Bool-cases, false, List, [], ◌∷◌, ◌++◌, ◌≡◌, refl, ap, ◌∙◌, arith, All, length,
  drop, map, if◌then◌else◌,
}
use heim.Outcome.{ok, err, ◌>>=◌, map_err, or_else}
use heim.Text.{Str, codes, starts_with}
use heim.Common.Errors.{
  Result, IoError, IoResult, ℤ, pos, negsuc, last_os_error, with_sysconf, from_io,
}
use heim.Runtime.Fs.{FilePath, Files, join}

-- `sysconf`, from what `libc::sysconf` returned, the error number and the value of the constant
-- `_SC_NPROCESSORS_ONLN`.
unfoldable pub sysconf : ℤ → IoError → ℤ → Result ℕ
sysconf (pos n) errno name = ok n
sysconf (negsuc n) errno name = err (with_sysconf (last_os_error errno) name)

-- The loop that counts the lines with a prefix.
unfoldable pub count_lines : Str → List (IoResult Str) → ℕ → Result ℕ
count_lines prefix [] count = ok count
count_lines prefix (try_line ∷ rest) count = do
  line ← map_err from_io try_line
  count_lines prefix rest (if starts_with line prefix then count + 1 else count)

module _ (procfs_root : FilePath) (files : Files) where
  unfoldable pub cpuinfo : Result ℕ
  unfolding count_lines
  cpuinfo = do
    reader ← map_err from_io (files.open_file (join procfs_root (codes "cpuinfo")))
    count_lines (codes "processor") reader 0

  unfoldable pub stat : Result ℕ
  unfolding count_lines
  stat = do
    reader ← map_err from_io (files.open_file (join procfs_root (codes "stat")))
    count_lines (codes "cpu") (drop 1 reader) 0

  -- `logical_count`
  unfoldable pub logical_count : ℤ → IoError → ℤ → Result ℕ
  unfolding sysconf
  logical_count online errno name = or_else (sysconf online errno name) (or_else cpuinfo stat)

-- The lines that start with the prefix.
abbrev occurrences : Str → List Str → ℕ
occurrences prefix [] = 0
occurrences prefix (l ∷ ls) = (if starts_with l prefix then 1 else 0) + occurrences prefix ls

count_lines-occurrences :
    (prefix : Str) (ls : List Str) (count : ℕ)
    → count_lines prefix (map ok ls) count ≡ ok (occurrences prefix ls + count)
unfolding count_lines
count_lines-occurrences prefix [] count = ap ok (omega arith)
count_lines-occurrences prefix (l ∷ ls) count = elim (Bool-cases (starts_with l prefix)) [
  | inl e ↦ rw e (count_lines-occurrences prefix ls (count + 1) ∙ ap ok (omega arith))
  | inr e ↦ rw e (count_lines-occurrences prefix ls count ∙ ap ok (omega arith))
]

-- The lines of a processor in /proc/cpuinfo: the text behind `processor`, and the other lines.
abbrev pub Block : Type 0
Block = Str × List Str

abbrev pub IsBlock : Block → Type 0
IsBlock b = All (λ l. starts_with l (codes "processor") ≡ false) b.1

abbrev pub block_lines : List Block → List Str
block_lines [] = []
block_lines (b ∷ bs) = (codes "processor" ++ b.0) ∷ (b.1 ++ block_lines bs)

occurrences-others :
    (prefix : Str) (ls rest : List Str)
    → All (λ l. starts_with l prefix ≡ false) ls
    → occurrences prefix (ls ++ rest) ≡ occurrences prefix rest
occurrences-others prefix [] rest h = refl
occurrences-others prefix (l ∷ ls) rest h =
    rw h.0 (omega (arith, occurrences-others prefix ls rest h.1))

occurrences-none :
    (prefix : Str) (ls : List Str)
    → All (λ l. starts_with l prefix ≡ false) ls
    → occurrences prefix ls ≡ 0
occurrences-none prefix [] h = refl
occurrences-none prefix (l ∷ ls) h = rw h.0 (omega (arith, occurrences-none prefix ls h.1))

occurrences-block_lines :
    (bs : List Block)
    → All IsBlock bs
    → occurrences (codes "processor") (block_lines bs) ≡ length bs
unfolding starts_with
occurrences-block_lines [] h = refl
occurrences-block_lines (b ∷ bs) h =
    rw (occurrences-others (codes "processor") b.1 (block_lines bs) h.0)
      (omega (arith, occurrences-block_lines bs h.1))

abbrev pub cpu_lines : List Str → List Str
cpu_lines [] = []
cpu_lines (t ∷ ts) = (codes "cpu" ++ t) ∷ cpu_lines ts

occurrences-cpu_lines :
    (ts others : List Str)
    → All (λ l. starts_with l (codes "cpu") ≡ false) others
    → occurrences (codes "cpu") (cpu_lines ts ++ others) ≡ length ts
unfolding starts_with
occurrences-cpu_lines [] others h = occurrences-none (codes "cpu") others h
occurrences-cpu_lines (t ∷ ts) others h = omega (arith, occurrences-cpu_lines ts others h)

module _ (procfs_root : FilePath) (files : Files) (n : ℕ) (errno : IoError) (name : ℤ) where
  -- Where sysconf fails and the lines of /proc/cpuinfo, all readable, are a block for each
  -- processor, of which the first line alone starts with `processor`, the count is the number of
  -- the blocks.
  logical_count-blocks :
      (bs : List Block)
      → All IsBlock bs
      → files.open_file (join procfs_root (codes "cpuinfo")) ≡ ok (map ok (block_lines bs))
      → logical_count procfs_root files (negsuc n) errno name ≡ ok (length bs)
  unfolding logical_count cpuinfo
  logical_count-blocks bs h e = rw e (
      rw (count_lines-occurrences (codes "processor") (block_lines bs) 0)
        (ap ok (omega (arith, occurrences-block_lines bs h))))

  -- Where sysconf fails, /proc/cpuinfo cannot be opened, and the lines of /proc/stat, all readable,
  -- are a first line, lines that start with `cpu`, and others that do not, the count is the number
  -- of the lines that start with `cpu` behind the first.
  logical_count-cpu_lines :
      (failure : IoError) (total : Str) (ts others : List Str)
      → files.open_file (join procfs_root (codes "cpuinfo")) ≡ err failure
      → files.open_file (join procfs_root (codes "stat"))
        ≡ ok (map ok (total ∷ (cpu_lines ts ++ others)))
      → All (λ l. starts_with l (codes "cpu") ≡ false) others
      → logical_count procfs_root files (negsuc n) errno name ≡ ok (length ts)
  unfolding logical_count cpuinfo stat
  logical_count-cpu_lines failure total ts others e f h = rw e (
      rw f (
        rw (count_lines-occurrences (codes "cpu") (cpu_lines ts ++ others) 0)
          (ap ok (omega (arith, occurrences-cpu_lines ts others h)))))
