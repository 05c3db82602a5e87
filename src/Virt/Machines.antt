-- ===== src/Virt/Machines.antt =====
-- heim-virt/src/sys/linux/{dmi,cpuid,device_tree}.rs. Each probe exists on some architectures and
-- is an error on the others. The vendor that the crate raw_cpuid reads is a parameter.
use heim.Prelude.{ℕ, ◌&&◌, Option, none, some, List, [], ◌∷◌, ◌==◌, if◌then◌else◌}
use heim.Outcome.{ok, err, panic, ◌>>=◌}
use heim.Text.{Str, codes, str_eq, contains, starts_with}
use heim.Common.Errors.{IoResult}
use heim.Runtime.Fs.{FilePath, DirEntry, Files, join, read_first_line}
use heim.Virt.Kinds.{
  Virtualization, Probe, kvm, qemu, bochs, xen, vmware, oracle, hyper_v, bhyve, parallels, qnx,
  acrn, unknown,
}
use heim.Virt.Containers.{no_error}

pub data TargetArch : Type 0 where
  x86 x86_64 arm aarch64 powerpc powerpc64 other_arch : TargetArch

-- `raw_cpuid::Hypervisor`, as the match of `detect_vm_cpuid` takes it apart
pub data Hypervisor : Type 0 where
  xen_vendor vmware_vendor hyper_v_vendor kvm_vendor : Hypervisor
  unknown_vendor : ℕ → ℕ → ℕ → Hypervisor

unfoldable pub identify : Hypervisor → Probe
identify xen_vendor = ok xen
identify hyper_v_vendor = ok hyper_v
identify kvm_vendor = ok kvm
identify vmware_vendor = ok vmware
identify (unknown_vendor b c d) =
    if b == 0x54474354 && c == 0x43544743 && d == 0x47435447
    then ok qemu
    else if b == 0x76796862 && c == 0x68622065 && d == 0x20657679
    then ok bhyve
    else if b == 0x51584e51 && c == 0x53424d56 && d == 0x00004751
    then ok qnx
    else if b == 0x4e524341 && c == 0x4e524341 && d == 0x4e524341
    then ok acrn
    else err tt

identify_info : Option Hypervisor → Probe
identify_info none = err tt
identify_info (some info) = identify info

-- `detect_vm_cpuid`, over what `get_hypervisor_info` returns
unfoldable pub detect_vm_cpuid : TargetArch → Option Hypervisor → Probe
unfolding identify_info identify
detect_vm_cpuid x86 info = identify_info info
detect_vm_cpuid x86_64 info = identify_info info
detect_vm_cpuid _ info = err tt

-- The tests of `detect_vm_dmi` on one line; `none` is `continue`.
unfoldable pub vendor_of : Str → Option Virtualization
vendor_of line =
    if starts_with line (codes "KVM")
    then some kvm
    else if starts_with line (codes "QEMU")
    then some qemu
    else if starts_with line (codes "VMware")
    then some vmware
    else if starts_with line (codes "VMW")
    then some vmware
    else if starts_with line (codes "innotek GmbH")
    then some oracle
    else if starts_with line (codes "Xen")
    then some xen
    else if starts_with line (codes "Bochs")
    then some bochs
    else if starts_with line (codes "Parallels")
    then some parallels
    else if starts_with line (codes "BHYVE")
    then some bhyve
    else none

-- The loop over directory entries.
unfoldable pub find_fw_cfg : List (IoResult DirEntry) → Probe
find_fw_cfg [] = err tt
find_fw_cfg (ok entry ∷ entries) =
    let rest = find_fw_cfg entries in
    elim entry.name_text [
      | none ↦ rest
      | some file_name ↦ if contains file_name (codes "fw-cfg") then ok qemu else rest
    ]
find_fw_cfg (err e ∷ entries) = err tt
find_fw_cfg (panic ∷ entries) = panic

module _ (files : Files) where
  -- The loop over the probe files.
  unfoldable pub probe : List FilePath → Probe
  unfolding vendor_of
  probe [] = err tt
  probe (filename ∷ filenames) =
      let rest = probe filenames in
      elim (read_first_line files filename) [
        | ok line ↦ elim (vendor_of line) [ some v ↦ ok v | none ↦ rest ]
        | err e ↦ rest
        | panic ↦ panic
      ]

  abbrev pub probe_files : FilePath → List FilePath
  probe_files sysfs_root =
      join sysfs_root (codes "class/dmi/id/product_name")
      ∷ join sysfs_root (codes "class/dmi/id/sys_vendor")
      ∷ join sysfs_root (codes "class/dmi/id/board_vendor")
      ∷ join sysfs_root (codes "class/dmi/id/bios_vendor")
      ∷ []

  unfoldable pub detect_vm_dmi : TargetArch → FilePath → Probe
  unfolding probe
  detect_vm_dmi x86 sysfs_root = probe (probe_files sysfs_root)
  detect_vm_dmi x86_64 sysfs_root = probe (probe_files sysfs_root)
  detect_vm_dmi arm sysfs_root = probe (probe_files sysfs_root)
  detect_vm_dmi aarch64 sysfs_root = probe (probe_files sysfs_root)
  detect_vm_dmi _ sysfs_root = err tt

  unfoldable pub hypervisor : FilePath → Probe
  hypervisor path = do
    line ← no_error (read_first_line files path)
    if str_eq line (codes "linux,kvm")
        then ok kvm
        else if contains line (codes "xen")
        then ok xen
        else ok unknown

  unfoldable pub device_tree : FilePath → Probe
  unfolding find_fw_cfg
  device_tree path = do entries ← no_error (files.read_dir path); find_fw_cfg entries

  search_device_tree : Probe
  unfolding hypervisor device_tree
  search_device_tree = elim (hypervisor (codes "/proc/device-tree/hypervisor/compatible")) [
    | ok v ↦ ok v
    | err e ↦ device_tree (codes "/proc/device-tree")
    | panic ↦ panic
  ]

  unfoldable pub detect_vm_device_tree : TargetArch → Probe
  unfolding search_device_tree
  detect_vm_device_tree arm = search_device_tree
  detect_vm_device_tree aarch64 = search_device_tree
  detect_vm_device_tree powerpc = search_device_tree
  detect_vm_device_tree powerpc64 = search_device_tree
  detect_vm_device_tree _ = err tt
