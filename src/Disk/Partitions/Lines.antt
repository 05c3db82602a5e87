-- ===== src/Disk/Partitions/Lines.antt =====
-- One line of /proc/mounts, and one of /proc/filesystems.
use heim.Prelude.{none, some, [], ◌∷◌, ◌++◌, ◌≡◌, ap, ◌∙◌, Lacks, if◌then◌else◌}
use heim.Outcome.{ok}
use heim.Text.{Str, codes, str_eq}
use heim.Text.Split.{splitn}
use heim.Text.Laws.{splitn-append}
use heim.Runtime.Fs.{FilePath}
use heim.Disk.FileSystem
use heim.Disk.FileSystem.{FileSystem}
use heim.Disk.Partitions.{from_str}

-- How a mount stands in /proc/mounts: `rest` is the last two numbers.
abbrev pub mount_line : Str → Str → Str → Str → Str → Str
mount_line device point fs opts rest =
    device ++ b' ' ∷ (point ++ b' ' ∷ (fs ++ b' ' ∷ (opts ++ b' ' ∷ rest)))

splitn-mount_line :
    (device point fs opts rest : Str)
    → Lacks b' ' device
    → Lacks b' ' point
    → Lacks b' ' fs
    → Lacks b' ' opts
    → splitn 5 b' ' (mount_line device point fs opts rest) ≡ device ∷ point ∷ fs ∷ opts ∷ rest ∷ []
unfolding splitn
splitn-mount_line device point fs opts rest hd hp hf ho =
    splitn-append 3 b' ' device _ hd
    ∙ ap (λ t. device ∷ t) (splitn-append 2 b' ' point _ hp)
    ∙ ap (λ t. device ∷ point ∷ t) (splitn-append 1 b' ' fs _ hf)
    ∙ ap (λ t. device ∷ point ∷ fs ∷ t) (splitn-append 0 b' ' opts rest ho)

-- A line of /proc/mounts whose first four fields hold no space is read into these fields; the
-- device is absent if the field is "none", and the file system is what its name is read as.
from_str-mount_line :
    (procfs_root : FilePath) (device point fs opts rest : Str) {f : FileSystem}
    → Lacks b' ' device
    → Lacks b' ' point
    → Lacks b' ' fs
    → Lacks b' ' opts
    → FileSystem.from_str fs ≡ ok f
    → from_str procfs_root (mount_line device point fs opts rest)
      ≡ ok (record {
        device = if str_eq device (codes "none") then none else some device;
        mount_point = point;
        fs_type = f;
        options = opts;
      })
unfolding from_str
from_str-mount_line procfs_root device point fs opts rest hd hp hf ho e =
    rw (splitn-mount_line device point fs opts rest hd hp hf ho) (rw e)
