-- ===== src/Virt/Containers.antt =====
-- heim-virt/src/sys/linux/containers.rs
use heim.Prelude.{not, ◌&&◌, Option, none, some, List, [], ◌∷◌, if◌then◌else◌}
use heim.Outcome.{Outcome, ok, err, panic, ◌>>=◌, map_err, or_else}
use heim.Text.{Str, codes, str_eq, contains}
use heim.Text.Split.{split}
use heim.Common.Errors.{IoResult}
use heim.Runtime.Fs.{FilePath, Files, join, read_lines, read_first_line}
use heim.Virt.Kinds.{
  Virtualization, Probe, systemd_nspawn, lxc_libvirt, lxc, open_vz, docker, podman, rkt, wsl,
  unknown,
}

-- `map_err(|_| ())`
abbrev pub no_error : {A : Type 0} → IoResult A → Outcome (Unit {0}) A
no_error = map_err (λ _. tt)

unfoldable pub try_guess_container : Str → Probe
try_guess_container value =
    if str_eq value (codes "lxc")
    then ok lxc
    else if str_eq value (codes "lxc-libvirt")
    then ok lxc_libvirt
    else if str_eq value (codes "systemd-nspawn")
    then ok systemd_nspawn
    else if str_eq value (codes "docker")
    then ok docker
    else if str_eq value (codes "podman")
    then ok podman
    else if str_eq value (codes "rkt")
    then ok rkt
    else if str_eq value (codes "wsl")
    then ok wsl
    else ok unknown

-- The loop of `detect_cgroups` over the lines.
unfoldable pub find_cgroup : List (IoResult Str) → Probe
find_cgroup [] = err tt
find_cgroup (ok l ∷ lines) =
    let rest = find_cgroup lines in
    if contains l (codes "lxc")
    then ok lxc
    else if contains l (codes "docker")
    then ok docker
    else if contains l (codes "rkt")
    then ok rkt
    else rest
find_cgroup (err e ∷ lines) = find_cgroup lines
find_cgroup (panic ∷ lines) = panic

-- The body of the loop of `detect_init_env`, on what `split('=')` yields.
unfoldable pub container_of : List Str → Option Virtualization
unfolding try_guess_container
container_of (name ∷ value ∷ rest) =
    if str_eq name (codes "container")
    then (elim (try_guess_container value) [ ok v ↦ some v | _ ↦ none ])
    else none
container_of _ = none

-- `filter_map` and `next`
unfoldable pub first_container : List Str → Probe
unfolding container_of
first_container [] = err tt
first_container (var ∷ vars) =
    let rest = first_container vars in
    elim (container_of (split b'=' var)) [ some v ↦ ok v | none ↦ rest ]

module _ (files : Files) where
  unfoldable pub detect_wsl : FilePath → Probe
  detect_wsl path = do
    line ← no_error (read_first_line files path)
    if contains line (codes "Microsoft")
        then ok wsl
        else if contains line (codes "WSL")
        then ok wsl
        else err tt

  unfoldable pub detect_systemd_container : FilePath → Probe
  unfolding try_guess_container
  detect_systemd_container path = do
    line ← no_error (read_first_line files path)
    try_guess_container line

  unfoldable pub detect_cgroups : FilePath → Probe
  unfolding find_cgroup
  detect_cgroups path = do lines ← no_error (read_lines files path); find_cgroup lines

  unfoldable pub detect_init_env : FilePath → Probe
  unfolding first_container
  detect_init_env path = do
    contents ← no_error (files.read_to_string path)
    first_container (split 0 contents)

  module _ (procfs_root : FilePath) where
    unfoldable pub detect_openvz : Probe
    detect_openvz =
        if files.exists (join procfs_root (codes "vz"))
          && not (files.exists (join procfs_root (codes "bc")))
        then ok open_vz
        else err tt

    unfoldable pub detect_container : Probe
    detect_container = or_else detect_openvz (
        or_else (detect_wsl (join procfs_root (codes "sys/kernel/osrelease"))) (
          or_else (detect_systemd_container (codes "/run/systemd/container")) (
            or_else (detect_init_env (codes "/proc/1/environ"))
              (detect_cgroups (codes "/proc/self/cgroup")))))
