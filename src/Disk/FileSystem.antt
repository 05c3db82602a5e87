-- ===== src/Disk/FileSystem.antt =====
-- heim-disk/src/filesystem.rs
pub mod Names
use heim.Prelude.{ℕ, ◌+◌, Bool, true, false, not, ◌&&◌, List, [], ◌∷◌, map, ◌≡◌, leb, if◌then◌else◌}
use heim.Outcome.{Outcome, ok, err}
use heim.Text.{Str, codes, str_eq}
use heim.Common.Errors.{Result}

pub data FileSystem : Type 0 where
  ext2 ext3 ext4 vfat exfat f2fs ntfs zfs hfs hfs_plus : FileSystem
  jfs reiser3 reiser4 btrfs minix nilfs xfs apfs fuse_blk : FileSystem
  other : Str → FileSystem

unfoldable pub is_physical : FileSystem → Bool
is_physical (other s) = false
is_physical _ = true

unfoldable pub is_virtual : FileSystem → Bool
unfolding is_physical
is_virtual fs = not (is_physical fs)

unfoldable pub as_str : FileSystem → Str
as_str ext2 = codes "ext2"
as_str ext3 = codes "ext3"
as_str ext4 = codes "ext4"
as_str vfat = codes "vfat"
as_str ntfs = codes "ntfs"
as_str zfs = codes "zfs"
as_str hfs = codes "hfs"
as_str reiser3 = codes "reiserfs"
as_str reiser4 = codes "reiser4"
as_str fuse_blk = codes "fuseblk"
as_str exfat = codes "exfat"
as_str f2fs = codes "f2fs"
as_str hfs_plus = codes "hfs+"
as_str jfs = codes "jfs"
as_str btrfs = codes "btrfs"
as_str minix = codes "minix"
as_str nilfs = codes "nilfs"
as_str xfs = codes "xfs"
as_str apfs = codes "apfs"
as_str (other s) = s

-- `str::eq_ignore_ascii_case`
unfoldable pub to_ascii_lowercase : ℕ → ℕ
to_ascii_lowercase c = if leb b'A' c && leb c b'Z' then c + 32 else c

unfoldable pub lower : Str → Str
unfolding to_ascii_lowercase
lower [] = []
lower (c ∷ s) = to_ascii_lowercase c ∷ lower s

unfoldable pub eq_ignore_ascii_case : Str → Str → Bool
unfolding lower
eq_ignore_ascii_case s t = str_eq (lower s) (lower t)

unfoldable pub from_str : Str → Result FileSystem
unfolding eq_ignore_ascii_case
from_str s =
    if eq_ignore_ascii_case s (codes "ext2")
    then ok ext2
    else if eq_ignore_ascii_case s (codes "ext3")
    then ok ext3
    else if eq_ignore_ascii_case s (codes "ext4")
    then ok ext4
    else if eq_ignore_ascii_case s (codes "vfat")
    then ok vfat
    else if eq_ignore_ascii_case s (codes "ntfs")
    then ok ntfs
    else if eq_ignore_ascii_case s (codes "zfs")
    then ok zfs
    else if eq_ignore_ascii_case s (codes "hfs")
    then ok hfs
    else if eq_ignore_ascii_case s (codes "reiserfs")
    then ok reiser3
    else if eq_ignore_ascii_case s (codes "reiser4")
    then ok reiser4
    else if eq_ignore_ascii_case s (codes "exfat")
    then ok exfat
    else if eq_ignore_ascii_case s (codes "f2fs")
    then ok f2fs
    else if eq_ignore_ascii_case s (codes "hfsplus")
    then ok hfs_plus
    else if eq_ignore_ascii_case s (codes "jfs")
    then ok jfs
    else if eq_ignore_ascii_case s (codes "btrfs")
    then ok btrfs
    else if eq_ignore_ascii_case s (codes "minix")
    then ok minix
    else if eq_ignore_ascii_case s (codes "nilfs")
    then ok nilfs
    else if eq_ignore_ascii_case s (codes "xfs")
    then ok xfs
    else if eq_ignore_ascii_case s (codes "apfs")
    then ok apfs
    else if eq_ignore_ascii_case s (codes "fuseblk")
    then ok fuse_blk
    else ok (other s)
