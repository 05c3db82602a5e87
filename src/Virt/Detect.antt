-- ===== src/Virt/Detect.antt =====
-- heim-virt/src/sys/linux/mod.rs: the order of the probes, and what a detected kind says of the
-- files.
use mathlib.Core.Path.{subst}
use heim.Prelude.{sym, ℕ, true, false, Option, none, some, [], ◌∷◌, ◌≡◌, refl, ◌∙◌, arith}
use heim.Outcome.{Outcome, ok, err, panic, or_else}
use heim.Text.{Str, codes, starts_with}
use heim.Runtime.Fs.{FilePath, Files, join, read_first_line}
use heim.Virt.Kinds.{Virtualization, Probe, parallels, is_vm, is_container, as_str}
use heim.Virt.InitEnv.{try_guess_container_total}
use heim.Virt.Containers.{
  try_guess_container, detect_container, detect_openvz, detect_wsl, detect_systemd_container,
}
use heim.Virt.Machines.{
  TargetArch, Hypervisor, x86, x86_64, arm, aarch64, probe_files, detect_vm_cpuid, vendor_of, probe,
  detect_vm_dmi, detect_vm_device_tree,
}

starts_with-head : (c p : ℕ) (s ps : Str) → starts_with (c ∷ s) (p ∷ ps) ≡ true → c ≡ p
unfolding starts_with
starts_with-head c p s ps h = ground arith

vendor_of_parallels :
    (line : Str) → starts_with line (codes "Parallels") ≡ true → vendor_of line ≡ some parallels
unfolding vendor_of starts_with
vendor_of_parallels [] h = cc
vendor_of_parallels (c ∷ line) h =
    subst
      (λ d.
        starts_with (d ∷ line) (codes "Parallels") ≡ true → vendor_of (d ∷ line) ≡ some parallels)
      (sym (starts_with-head c b'P' line (codes "arallels") h)) (λ k. rw k) h

-- The targets that the probe of DMI is compiled for.
pub data HasDmi : TargetArch → Type 0 where
  on_x86 : HasDmi x86
  on_x86_64 : HasDmi x86_64
  on_arm : HasDmi arm
  on_aarch64 : HasDmi aarch64

detect_vm_dmi-probe :
    {arch : TargetArch} (files : Files) (sysfs_root : FilePath)
    → HasDmi arch
    → detect_vm_dmi files arch sysfs_root ≡ probe files (probe_files files sysfs_root)
unfolding detect_vm_dmi
detect_vm_dmi-probe files sysfs_root on_x86 = refl
detect_vm_dmi-probe files sysfs_root on_x86_64 = refl
detect_vm_dmi-probe files sysfs_root on_arm = refl
detect_vm_dmi-probe files sysfs_root on_aarch64 = refl

detect_vm_dmi_parallels :
    {arch : TargetArch} (files : Files) (sysfs_root : FilePath) (line : Str)
    → HasDmi arch
    → read_first_line files (join sysfs_root (codes "class/dmi/id/product_name")) ≡ ok line
    → starts_with line (codes "Parallels") ≡ true
    → detect_vm_dmi files arch sysfs_root ≡ ok parallels
unfolding probe
detect_vm_dmi_parallels files sysfs_root line has_dmi readable begins =
    detect_vm_dmi-probe files sysfs_root has_dmi
    ∙ rw (readable, probe) (rw (vendor_of_parallels line begins))

-- `res.ok()`
abbrev to_option : Probe → Outcome ⊥ (Option Virtualization)
to_option (ok v) = ok (some v)
to_option (err e) = ok none
to_option panic = panic

unfoldable pub detect :
    TargetArch → Option Hypervisor → Files → FilePath → FilePath → Outcome ⊥ (Option Virtualization)
detect arch info files procfs_root sysfs_root = to_option (
    or_else (detect_container files procfs_root) (
      or_else (detect_vm_dmi files arch sysfs_root)
        (or_else (detect_vm_cpuid arch info) (detect_vm_device_tree files arch))))

-- On a target that has the probe of DMI (x86, x86_64, arm and aarch64): if no container is detected
-- and the first DMI file begins with "Parallels", then `detect` returns a kind that is no machine, no
-- container, and for which `as_str` panics.
pub detect_parallels :
    {arch : TargetArch} (info : Option Hypervisor) (files : Files)
    (procfs_root sysfs_root : FilePath) (line : Str)
    → HasDmi arch
    → detect_container files procfs_root ≡ err tt
    → read_first_line files (join sysfs_root (codes "class/dmi/id/product_name")) ≡ ok line
    → starts_with line (codes "Parallels") ≡ true
    → (v : Virtualization) × (detect arch info files procfs_root sysfs_root ≡ ok (some v))
      × (is_vm v ≡ false)
      × (is_container v ≡ false)
      × (as_str v ≡ panic)
unfolding detect is_vm is_container as_str
detect_parallels info files procfs_root sysfs_root line has_dmi no_container readable begins =
    let found = detect_vm_dmi_parallels files sysfs_root line has_dmi readable begins in
    (parallels, simp (no_container, found), refl, refl, refl)

-- If the first line of /run/systemd/container can be read, and neither OpenVZ nor WSL is detected,
-- then detection ends there with what that line names, or `unknown`: no other probe is asked.
detect_systemd :
    (arch : TargetArch) (info : Option Hypervisor) (files : Files)
    (procfs_root sysfs_root : FilePath) (line : Str)
    → detect_openvz files procfs_root ≡ err tt
    → detect_wsl files (join procfs_root (codes "sys/kernel/osrelease")) ≡ err tt
    → read_first_line files (codes "/run/systemd/container") ≡ ok line
    → (v : Virtualization) × (try_guess_container line ≡ ok v)
      × (detect arch info files procfs_root sysfs_root ≡ ok (some v))
unfolding detect detect_container detect_systemd_container
detect_systemd arch info files procfs_root sysfs_root line no_vz no_wsl readable =
    let (v, e) = try_guess_container_total line in (v, e, simp (no_vz, no_wsl, readable, e))
