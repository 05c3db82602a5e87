-- ===== src/Disk/Partitions.antt =====
-- heim-disk/src/sys/linux/partitions.rs. A stream is the list of its items; `HashSet` is the list of
-- its members, each once.
pub mod Lines
pub mod Named
pub mod Known
pub mod Physical
use heim.Prelude.{
  ℕ, Bool, true, false, not, ◌||◌, Option, none, some, List, [], ◌∷◌, ◌++◌, ◌≡◌, if◌then◌else◌,
}
use native.Mathlib.Decide.{ℕ_discrete}
use mathlib.Core.Bool.{decide}
use heim.Outcome.{Outcome, ok, err, panic, ◌>>=◌, map_err}
use heim.Text.{Str, codes, str_eq}
use heim.Text.Split.{splitn}
use heim.Common.Errors.{Error, Result, IoResult, missing_key, from_io}
use heim.Runtime.Fs.{FilePath, Files, join, read_lines}
use heim.Disk.FileSystem.{FileSystem, zfs}
use heim.Disk.FileSystem

pub record Partition : Type 0 where
  pub device : Option Str
  pub mount_point : FilePath
  pub fs_type : FileSystem
  pub options : Str

module _ (procfs_root : FilePath) where
  abbrev missing : Str → Error
  missing name = missing_key name (join procfs_root (codes "mounts"))

  -- `Partition::from_str`, over what `splitn` yields.
  unfoldable pub from_parts : List Str → Result Partition
  from_parts [] = err (missing (codes "device"))
  from_parts (device ∷ []) = err (missing (codes "mount point"))
  from_parts (device ∷ point ∷ []) = err (missing (codes "file-system type"))
  from_parts (device ∷ point ∷ fs ∷ []) = do
    fs_type ← FileSystem.from_str fs
    err (missing (codes "options"))
  from_parts (device ∷ point ∷ fs ∷ opts ∷ rest) = do
    fs_type ← FileSystem.from_str fs
    ok (record {
      device = if str_eq device (codes "none") then none else some device;
      mount_point = point;
      fs_type = fs_type;
      options = opts;
    })

  unfoldable pub from_str : Str → Result Partition
  unfolding from_parts
  from_str line = from_parts (splitn 5 b' ' line)

pub FileSystem-discrete : Discrete FileSystem
FileSystem-discrete = hlevel ℕ_discrete

-- `HashSet::contains`
unfoldable pub contains : List FileSystem → FileSystem → Bool
contains [] fs = false
contains (f ∷ set) fs = decide (FileSystem-discrete f fs) || contains set fs

-- `HashSet::insert`, with its result dropped
unfoldable pub insert : List FileSystem → FileSystem → List FileSystem
unfolding contains
insert set fs = if contains set fs then set else fs ∷ set

-- The match on `parts.next()` behind `nodev`; `none` is `continue`.
abbrev filesystem_of : Bool → List Str → Option (Result FileSystem)
filesystem_of nodev [] = none
filesystem_of true (name ∷ rest) =
    if str_eq name (codes "zfs") then some (FileSystem.from_str (codes "zfs")) else none
filesystem_of false (name ∷ rest) = some (FileSystem.from_str name)

abbrev pub filesystem_in : List Str → Option (Result FileSystem)
filesystem_in [] = none
filesystem_in (first ∷ rest) = filesystem_of (str_eq first (codes "nodev")) rest

-- What a round does with the name that the line holds.
abbrev add_found : List FileSystem → Option (Result FileSystem) → Result (List FileSystem)
add_found acc none = ok acc
add_found acc (some found) = found >>= λ fs. ok (insert acc fs)

-- One round of the loop in `known_filesystems`.
unfoldable pub add_line : List FileSystem → Str → Result (List FileSystem)
unfolding insert
add_line acc line = add_found acc (filesystem_in (splitn 2 b'\t' line))

unfoldable pub collect : List FileSystem → List (IoResult Str) → Result (List FileSystem)
unfolding add_line
collect acc [] = ok acc
collect acc (try_line ∷ lines) = do
  line ← map_err from_io try_line
  next ← add_line acc line
  collect next lines

-- `Partition::from_str(&line).ok()`, as the items that the stream has for it.
abbrev kept_items : Result Partition → List (Result Partition)
kept_items (ok p) = ok p ∷ []
kept_items (err e) = []
kept_items panic = panic ∷ []

-- What `try_filter_map` yields for a line.
abbrev parsed_line : FilePath → IoResult Str → List (Result Partition)
parsed_line procfs_root (ok line) = kept_items (from_str procfs_root line)
parsed_line procfs_root (err e) = err (from_io e) ∷ []
parsed_line procfs_root panic = panic ∷ []

unfoldable pub parse_lines : FilePath → List (IoResult Str) → List (Result Partition)
unfolding from_str
parse_lines procfs_root [] = []
parse_lines procfs_root (l ∷ lines) = parsed_line procfs_root l ++ parse_lines procfs_root lines

-- The filter of `partitions_physical` on one item.
abbrev is_kept : List FileSystem → Option Str → FileSystem → Bool
is_kept set none fs = false
is_kept set (some device) fs = contains set fs

unfoldable pub filter_physical : List FileSystem → List (Result Partition) → List (Result Partition)
unfolding contains
filter_physical set [] = []
filter_physical set (ok p ∷ ps) =
    let rest = filter_physical set ps in
    if is_kept set p.device p.fs_type then ok p ∷ rest else rest
filter_physical set (err e ∷ ps) = err e ∷ filter_physical set ps
filter_physical set (panic ∷ ps) = panic ∷ filter_physical set ps

module _ (files : Files) (procfs_root : FilePath) where
  unfoldable pub known_filesystems : Result (List FileSystem)
  unfolding collect
  known_filesystems = do
    lines ← map_err from_io (files.open_file (join procfs_root (codes "filesystems")))
    collect [] lines

  unfoldable pub partitions : Result (List (Result Partition))
  unfolding parse_lines
  partitions = do
    lines ← map_err from_io (read_lines files (join procfs_root (codes "mounts")))
    ok (parse_lines procfs_root lines)

  unfoldable pub partitions_physical : Result (List (Result Partition))
  unfolding known_filesystems partitions filter_physical
  partitions_physical = do
    filesystems ← known_filesystems
    stream ← partitions
    ok (filter_physical filesystems stream)
