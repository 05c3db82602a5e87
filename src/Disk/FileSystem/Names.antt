-- ===== src/Disk/FileSystem/Names.antt =====
-- Which names are read back.
use heim.Prelude.{true, ◌≡◌, ◌≢◌, refl, sym, ◌∙◌, arith, if◌then◌else◌}
use mathlib.Core.Path.{subst}
use heim.Outcome.{ok, err, panic}
use heim.Text.{Str, codes, str_eq, str_eq_iff}
use heim.Common.Errors.{Error, Result}
use heim.Disk.FileSystem.{
  FileSystem, ext2, ext3, ext4, vfat, exfat, f2fs, ntfs, zfs, hfs, hfs_plus, jfs, reiser3, reiser4,
  btrfs, minix, nilfs, xfs, apfs, fuse_blk, other, is_physical, is_virtual, as_str, lower,
  eq_ignore_ascii_case, from_str,
}

-- The name of every known file system but HFS+ is read back as that file system.
from_str-as_str :
    (fs : FileSystem) → is_physical fs ≡ true → fs ≢ hfs_plus → from_str (as_str fs) ≡ ok fs
unfolding is_physical as_str from_str str_eq
from_str-as_str hfs_plus p ne = absurd (ne refl)
from_str-as_str (other s) p ne = cc
from_str-as_str ext2 p ne = refl
from_str-as_str _ p ne = refl

lower_eq : (s t : Str) → eq_ignore_ascii_case s t ≡ true → lower s ≡ lower t
unfolding eq_ignore_ascii_case
lower_eq s t h = (str_eq_iff (lower s) (lower t)).0 h

-- `from_str` with the lower-case text apart.
abbrev choose : Str → Str → Result FileSystem
choose l s =
    if str_eq l (codes "ext2")
    then ok ext2
    else if str_eq l (codes "ext3")
    then ok ext3
    else if str_eq l (codes "ext4")
    then ok ext4
    else if str_eq l (codes "vfat")
    then ok vfat
    else if str_eq l (codes "ntfs")
    then ok ntfs
    else if str_eq l (codes "zfs")
    then ok zfs
    else if str_eq l (codes "hfs")
    then ok hfs
    else if str_eq l (codes "reiserfs")
    then ok reiser3
    else if str_eq l (codes "reiser4")
    then ok reiser4
    else if str_eq l (codes "exfat")
    then ok exfat
    else if str_eq l (codes "f2fs")
    then ok f2fs
    else if str_eq l (codes "hfsplus")
    then ok hfs_plus
    else if str_eq l (codes "jfs")
    then ok jfs
    else if str_eq l (codes "btrfs")
    then ok btrfs
    else if str_eq l (codes "minix")
    then ok minix
    else if str_eq l (codes "nilfs")
    then ok nilfs
    else if str_eq l (codes "xfs")
    then ok xfs
    else if str_eq l (codes "apfs")
    then ok apfs
    else if str_eq l (codes "fuseblk")
    then ok fuse_blk
    else ok (other s)

from_str-choose : (s : Str) → from_str s ≡ choose (lower s) s
unfolding from_str
from_str-choose s = refl

choose-ne-err : (l s : Str) {e : Error} → choose l s ≢ err e
choose-ne-err l s = ground arith

choose-ne-panic : (l s : Str) → choose l s ≢ panic
choose-ne-panic l s = ground arith

choose_known :
    (l s t : Str) {fs : FileSystem}
    → is_physical fs ≡ true
    → choose l t ≡ ok fs
    → choose l s ≡ ok fs
unfolding is_physical
choose_known l s t p e = ground arith

-- If two texts differ in the case of letters only and the second is read as a known file system,
-- then so is the first, as the same one.
from_str_ignores_case :
    (s t : Str) {fs : FileSystem}
    → eq_ignore_ascii_case s t ≡ true
    → is_physical fs ≡ true
    → from_str t ≡ ok fs
    → from_str s ≡ ok fs
from_str_ignores_case s t {fs} h p e =
    from_str-choose s
    ∙ subst (λ l. choose l s ≡ ok fs) (sym (lower_eq s t h))
        (choose_known (lower t) s t p (sym (from_str-choose t) ∙ e))

-- The name that `as_str` gives to HFS+, in any case of its letters, is read as an unknown file
-- system, which counts as virtual.
from_str_hfs_plus :
    (s : Str)
    → eq_ignore_ascii_case s (as_str hfs_plus) ≡ true
    → (from_str s ≡ ok (other s)) × (is_virtual (other s) ≡ true)
from_str_hfs_plus s h = (
  from_str-choose s ∙ rw (lower_eq s (as_str hfs_plus) h) (unfold as_str lower str_eq in refl),
  unfold is_virtual in refl,
)

succeeds :
    (r : Result FileSystem)
    → ((e : Error) → r ≢ err e)
    → r ≢ panic
    → (fs : FileSystem) × (r ≡ ok fs)
succeeds (ok fs) ne np = (fs, refl)
succeeds (err e) ne np = absurd (ne e refl)
succeeds panic ne np = absurd (np refl)

-- `from_str` has no error for any text.
pub from_str_total : (s : Str) → (fs : FileSystem) × (from_str s ≡ ok fs)
unfolding from_str
from_str_total s =
    succeeds (from_str s) (λ e. choose-ne-err (lower s) s) (choose-ne-panic (lower s) s)
