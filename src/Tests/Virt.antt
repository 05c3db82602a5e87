-- ===== src/Tests/Virt.antt =====
-- heim-virt at concrete inputs.
use heim.Prelude.{false, none, some, [], ◌∷◌, ◌≡◌, refl}
use heim.Outcome.{ok, panic}
use heim.Text.{codes, str_eq, starts_with}
use heim.Text.Split.{lines}
use heim.Runtime.Fs.{Files, join, read_first_line}
use heim.Virt.Kinds.{Virtualization, is_vm, is_container, as_str}
use heim.Virt.Containers.{
  detect_init_env, detect_container, detect_openvz, detect_wsl, detect_systemd_container,
  detect_cgroups,
}
use heim.Virt.Machines.{x86_64}
use heim.Virt.Detect.{on_x86_64, detect, detect_parallels}
use heim.Tests.Machine.{lookup, files_of}

abbrev parallels_machine : Files
parallels_machine =
    files_of ((codes "/sys/class/dmi/id/product_name", codes "Parallels Virtual Platform\n") ∷ [])

detect_parallels_example :
    (v : Virtualization) × (detect x86_64 none parallels_machine (codes "/proc") (codes "/sys")
      ≡ ok (some v))
    × (is_vm v ≡ false)
    × (is_container v ≡ false)
    × (as_str v ≡ panic)
unfolding detect_container detect_openvz detect_wsl detect_systemd_container detect_init_env
    detect_cgroups lookup str_eq lines read_first_line join starts_with
detect_parallels_example =
    detect_parallels none parallels_machine (codes "/proc") (codes "/sys")
      (codes "Parallels Virtual Platform") on_x86_64 refl refl refl
