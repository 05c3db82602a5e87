-- ===== src/Tests/Disk.antt =====
-- heim-disk at concrete inputs.
use heim.Prelude.{none, some, List, [], ◌∷◌, map, ◌≡◌, ◌≢◌, ◌↔◌, inl, refl}
use heim.Outcome.{ok}
use heim.Text.{Str, codes, str_eq, starts_with}
use heim.Text.Split.{lines, splitn}
use heim.Common.Errors.{IoResult, Result}
use heim.Runtime.Fs.{Files, join}
use heim.Disk.FileSystem.{
  FileSystem, ext4, hfs_plus, other, is_physical, is_virtual, as_str, lower, to_ascii_lowercase,
  eq_ignore_ascii_case,
}
use heim.Disk.FileSystem
use heim.Disk.Partitions.{Partition, from_str, partitions_physical}
use heim.Disk.Partitions.Known.{Listed}
use heim.Disk.Partitions.Physical.{Occurs, Parsed, partitions_physical-Occurs}
use heim.Tests.Machine.{lookup, files_of}

abbrev root_partition : Partition
root_partition = record {
  device = some (codes "/dev/sda1");
  mount_point = codes "/";
  fs_type = ext4;
  options = codes "rw";
}

abbrev machine : Files
machine = files_of (
    (codes "/proc/filesystems", codes "nodev\tproc\n\text4\n")
    ∷ (codes "/proc/mounts", codes "/dev/sda1 / ext4 rw 0 0\nproc /proc proc rw 0 0\n")
    ∷ [])

abbrev mounts : List (IoResult Str)
mounts = ok (codes "/dev/sda1 / ext4 rw 0 0") ∷ ok (codes "proc /proc proc rw 0 0") ∷ []

abbrev known : List Str
known = codes "nodev\tproc" ∷ codes "\text4" ∷ []

partitions_physical-Occurs_example :
    (stream : List (Result Partition)) × (partitions_physical machine (codes "/proc") ≡ ok stream)
    × ((p : Partition)
        → Occurs (ok p) stream
          ↔ (Parsed (codes "/proc") mounts p × (p.device ≢ none) × Listed (map ok known) p.fs_type))
unfolding lookup str_eq lines join starts_with
partitions_physical-Occurs_example =
    partitions_physical-Occurs machine (codes "/proc") mounts known refl refl

-- The root partition is among them, and the virtual one is not.
root_partition-Parsed : Parsed (codes "/proc") mounts root_partition
unfolding FileSystem.from_str from_str str_eq lower splitn
root_partition-Parsed = inl refl
