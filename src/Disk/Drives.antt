-- ===== src/Disk/Drives.antt =====
-- heim-disk/src/sys/windows: the iterator over the drives (bindings/drives.rs, drive.rs and
-- drive_type.rs) and the partitions (partitions.rs). The bits of the flags are a number, and
-- `lossy` is the text of 16-bit characters.
pub mod Listed
use mathlib.Core.Option
use heim.Prelude.{
  ℕ, zero, suc, ◌+◌, ◌-◌, Bool, true, false, Option, none, some, List, [], ◌∷◌, ◌++◌, take, drop,
  ◌==◌, if◌then◌else◌,
}
use heim.Outcome.{ok, err, panic, ◌>>=◌, map_ok, map_err}
use heim.Text.{Str}
use heim.Common.Errors.{Result, IoResult, IoError, last_os_error}
use heim.Common.Memory.{first_zero, before_zero}
use heim.Disk.FileSystem.{FileSystem, from_str}

-- `DriveType`
pub data DriveType : Type 0 where
  cd_rom fixed no_root_dir ram_disk remote removable : DriveType

-- The path of a drive: a letter, a colon, a backslash and a zero.
pub record Drive : Type 0 where
  pub chars : List ℕ

pub record Drives : Type 0 where
  pub buffer : List ℕ
  pub position : ℕ

-- `Drive::from`: a slice of another length panics.
abbrev pub drive_from : List ℕ → Result Drive
drive_from (a ∷ b ∷ c ∷ d ∷ []) = ok (record { chars = a ∷ b ∷ c ∷ d ∷ [] })
drive_from _ = panic

abbrev pub next_drive : Drives → Option ℕ → Result (Option (Drive × Drives))
next_drive self none = ok none
next_drive self (some zero) = ok none
next_drive self (some (suc offset)) =
    let end = self.position + suc offset + 1 in
    map_ok (λ drive. some (drive, record self { position = end }))
      (drive_from (take (end - self.position) (drop self.position self.buffer)))

-- `Iterator::next`
unfoldable pub next : Drives → Result (Option (Drive × Drives))
next self = next_drive self (first_zero (drop self.position self.buffer))

-- `Drives::new`, with what `GetLogicalDriveStringsW` answers first, and what it leaves in the buffer.
unfoldable pub new : IoResult ℕ → (ℕ → IoResult (List ℕ)) → Result Drives
new size strings = do
  expected_size ← map_err last_os_error size
  buffer ← map_err last_os_error (strings expected_size)
  ok (record { buffer = buffer; position = 0 })

-- All drives, with a number of calls; `none` means that they were too few.
abbrev pub react :
    (Drives → Option (Result (List Drive)))
    → Result (Option (Drive × Drives))
    → Option (Result (List Drive))
react go panic = some panic
react go (err e) = some (err e)
react go (ok none) = some (ok [])
react go (ok (some (drive, self))) = elim (go self) [
  | none ↦ none
  | some drives ↦ some (map_ok (λ ds. drive ∷ ds) drives)
]

unfoldable pub collect : ℕ → Drives → Option (Result (List Drive))
unfolding next
collect zero self = none
collect (suc calls) self = react (collect calls) (next self)

-- The constants of winapi that `GetDriveTypeW` answers.
pub record DriveTypes : Type 0 where
  pub drive_cdrom : ℕ
  pub drive_fixed : ℕ
  pub drive_no_root_dir : ℕ
  pub drive_ramdisk : ℕ
  pub drive_remote : ℕ
  pub drive_removable : ℕ
  pub drive_unknown : ℕ

unfoldable pub maybe_from : DriveTypes → ℕ → Result (Option DriveType)
maybe_from c value =
    if value == c.drive_cdrom
    then ok (some cd_rom)
    else if value == c.drive_fixed
    then ok (some fixed)
    else if value == c.drive_no_root_dir
    then ok (some no_root_dir)
    else if value == c.drive_ramdisk
    then ok (some ram_disk)
    else if value == c.drive_remote
    then ok (some remote)
    else if value == c.drive_removable
    then ok (some removable)
    else if value == c.drive_unknown
    then ok none
    else panic

-- What the source asks of the system about a drive: `GetDriveTypeW`, the two calls of
-- `SetThreadErrorMode`, `GetVolumeInformationW` (the flags, and the buffer of the file system) and
-- `GetVolumeNameForVolumeMountPointW`.
pub record Calls : Type 0 where
  pub types : DriveTypes
  pub drive_type : List ℕ → ℕ
  pub enter_error_mode : IoResult (Unit {0})
  pub leave_error_mode : IoResult (Unit {0})
  pub volume_information : List ℕ → IoResult (ℕ × List ℕ)
  pub volume_name : List ℕ → IoResult (List ℕ)
  pub from_bits_truncate : ℕ → ℕ
  pub lossy : List ℕ → Str

pub record Partition : Type 0 where
  pub volume : Option (List ℕ)
  pub mount_point : List ℕ
  pub drive_type : Option DriveType
  pub flags : ℕ
  pub file_system : FileSystem

module _ (calls : Calls) where
  -- `Drive::to_path_buf`
  abbrev pub to_path_buf : Drive → List ℕ
  to_path_buf self = take 3 self.chars

  -- `Drive::volume_name`
  unfoldable pub volume_name : Drive → Result (List ℕ)
  volume_name self = map_err last_os_error (map_ok before_zero (calls.volume_name self.chars))

  -- `DriveType::from_slice` and `DriveType::from_path`
  abbrev pub from_slice : List ℕ → Result (Option DriveType)
  unfolding maybe_from
  from_slice chars = maybe_from calls.types (calls.drive_type chars)

  abbrev pub from_path : List ℕ → Result (Option DriveType)
  unfolding maybe_from
  from_path path = from_slice (path ++ 0 ∷ [])

  -- What the failure to read a volume means.
  abbrev pub unreadable : {A : Type 0} → Option DriveType → IoError → Result (Option A)
  unreadable (some cd_rom) e = ok none
  unreadable (some removable) e = ok none
  unreadable _ e = err (last_os_error e)

  abbrev pub readable :
      Option DriveType → IoResult (ℕ × List ℕ) → Result (Option (Option DriveType × ℕ × FileSystem))
  readable drive_type panic = panic
  readable drive_type (err e) = unreadable drive_type e
  readable drive_type (ok (flags, fs_type)) = do
    fs ← from_str (calls.lossy (before_zero fs_type))
    ok (some (drive_type, calls.from_bits_truncate flags, fs))

  -- `Drive::information`
  unfoldable pub information : Drive → Result (Option (Option DriveType × ℕ × FileSystem))
  unfolding maybe_from
  information self = do
    drive_type ← from_slice self.chars
    _ ← map_err last_os_error calls.enter_error_mode
    let result = calls.volume_information self.chars
    _ ← map_err last_os_error calls.leave_error_mode
    readable drive_type result

  -- `Result::ok`; a panic goes on.
  abbrev pub ok_volume : Result (List ℕ) → Result (Option (List ℕ))
  ok_volume (ok name) = ok (some name)
  ok_volume (err e) = ok none
  ok_volume panic = panic

  -- The closure of `partitions`; a panic is an item that panics.
  abbrev pub partition_of :
      Drive → Result (Option (Option DriveType × ℕ × FileSystem)) → Option (Result Partition)
  unfolding volume_name
  partition_of drive panic = some panic
  partition_of drive (err e) = some (err e)
  partition_of drive (ok none) = none
  partition_of drive (ok (some (drive_type, flags, fs))) = some (
      map_ok
        (λ volume. record {
          volume = volume;
          mount_point = to_path_buf drive;
          drive_type = drive_type;
          flags = flags;
          file_system = fs;
        })
        (ok_volume (volume_name drive)))

  abbrev pub push : {A : Type 0} → Option A → List A → List A
  push none rest = rest
  push (some a) rest = a ∷ rest

  -- `filter_map`
  unfoldable pub partitions_of : List Drive → List (Result Partition)
  unfolding information partition_of
  partitions_of [] = []
  partitions_of (drive ∷ drives) =
      push (partition_of drive (information drive)) (partitions_of drives)

  -- `partitions`, with all that its stream yields
  unfoldable pub partitions : ℕ → Result Drives → Option (Result (List (Result Partition)))
  unfolding collect partitions_of
  partitions n panic = some panic
  partitions n (err e) = some (err e)
  partitions n (ok drives) = Option.map (map_ok partitions_of) (collect n drives)

  abbrev pub is_physical_type : Option DriveType → Bool
  is_physical_type (some no_root_dir) = false
  is_physical_type (some remote) = false
  is_physical_type (some ram_disk) = false
  is_physical_type none = false
  is_physical_type _ = true

  -- `try_filter`
  unfoldable pub filter_physical : List (Result Partition) → List (Result Partition)
  filter_physical [] = []
  filter_physical (panic ∷ items) = panic ∷ filter_physical items
  filter_physical ((err e) ∷ items) = (err e) ∷ filter_physical items
  filter_physical ((ok p) ∷ items) =
      let rest = filter_physical items in
      if is_physical_type p.drive_type then (ok p) ∷ rest else rest

  unfoldable pub partitions_physical : ℕ → Result Drives → Option (Result (List (Result Partition)))
  unfolding partitions filter_physical
  partitions_physical n drives = Option.map (map_ok filter_physical) (partitions n drives)
