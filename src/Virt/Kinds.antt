-- ===== src/Virt/Kinds.antt =====
-- heim-virt/src/lib.rs: the kinds of virtualization, and their names.
use heim.Prelude.{Bool, true, false, ◌≡◌, ◌↔◌, ◌⊎◌, arith}
use heim.Outcome.{Outcome, ok, panic}
use heim.Text.{Str, codes}

pub data Virtualization : Type 0 where
  kvm qemu bochs xen uml vmware oracle hyper_v bhyve parallels qnx acrn : Virtualization
  systemd_nspawn lxc_libvirt lxc open_vz docker podman rkt wsl unknown : Virtualization

-- What a probe returns.
abbrev pub Probe : Type 0
Probe = Outcome (Unit {0}) Virtualization

unfoldable pub is_vm : Virtualization → Bool
is_vm kvm = true
is_vm qemu = true
is_vm bochs = true
is_vm xen = true
is_vm uml = true
is_vm vmware = true
is_vm oracle = true
is_vm hyper_v = true
is_vm bhyve = true
is_vm qnx = true
is_vm acrn = true
is_vm _ = false

unfoldable pub is_container : Virtualization → Bool
is_container systemd_nspawn = true
is_container lxc_libvirt = true
is_container lxc = true
is_container open_vz = true
is_container docker = true
is_container podman = true
is_container rkt = true
is_container wsl = true
is_container _ = false

-- `unreachable!()` is a panic.
unfoldable pub as_str : Virtualization → Outcome ⊥ Str
as_str kvm = ok (codes "kvm")
as_str qemu = ok (codes "qemu")
as_str bochs = ok (codes "bochs")
as_str xen = ok (codes "xen")
as_str uml = ok (codes "uml")
as_str vmware = ok (codes "vmware")
as_str oracle = ok (codes "oracle")
as_str hyper_v = ok (codes "hyperv")
as_str bhyve = ok (codes "bhyve")
as_str qnx = ok (codes "qnx")
as_str acrn = ok (codes "acrn")
as_str systemd_nspawn = ok (codes "systemd-nspawn")
as_str lxc_libvirt = ok (codes "lxc-libvirt")
as_str lxc = ok (codes "lxc")
as_str open_vz = ok (codes "openvz")
as_str docker = ok (codes "docker")
as_str podman = ok (codes "podman")
as_str rkt = ok (codes "rkt")
as_str wsl = ok (codes "wsl")
as_str unknown = ok (codes "unknown")
as_str _ = panic

-- `as_str` panics on `parallels`, and on no other kind.
as_str_panics_iff : (v : Virtualization) → (as_str v ≡ panic) ↔ (v ≡ parallels)
unfolding as_str
as_str_panics_iff kvm = ground arith
as_str_panics_iff _ = ground arith

-- The two tests agree on `parallels` and `unknown` only: every other kind is a machine or a
-- container, and not both.
is_vm-is_container :
    (v : Virtualization) → (is_vm v ≡ is_container v) ↔ ((v ≡ parallels) ⊎ (v ≡ unknown))
unfolding is_vm is_container
is_vm-is_container kvm = ground arith
is_vm-is_container _ = ground arith
