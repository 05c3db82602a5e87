-- ===== src/Virt/Names.antt =====
-- How the names of kinds and vendors in files are read.
use heim.Prelude.{
  Bool, true, false, ◌||◌, ◌⊎◌, inl, inr, none, some, List, [], ◌∷◌, ◌++◌, ◌≡◌, ◌≢◌, refl, arith,
  ◌∙◌, ap, sym, All, Option-cases,
}
use heim.Outcome.{Outcome, ok, err, panic, ◌>>=◌, map_err}
use heim.Text.{Str, codes, str_eq, starts_with}
use heim.Common.Errors.{IoError, IoResult}
use heim.Runtime.Fs.{FilePath, Files, read_first_line}
use heim.Virt.Kinds.{
  Virtualization, kvm, qemu, bochs, xen, vmware, oracle, bhyve, parallels, systemd_nspawn,
  lxc_libvirt, lxc, open_vz, docker, podman, rkt, wsl, is_container, as_str,
}
use heim.Virt.Containers.{try_guess_container}
use heim.Virt.Machines.{vendor_of, probe}

-- The name of every kind of container but OpenVZ is read back as that kind.
try_guess_container-as_str :
    (v : Virtualization)
    → is_container v ≡ true
    → v ≢ open_vz
    → (map_err (λ e. absurd e) (as_str v) >>= try_guess_container) ≡ ok v
unfolding is_container as_str try_guess_container str_eq
try_guess_container-as_str systemd_nspawn c ne = refl
try_guess_container-as_str lxc_libvirt c ne = refl
try_guess_container-as_str lxc c ne = refl
try_guess_container-as_str open_vz c ne = absurd (ne refl)
try_guess_container-as_str docker c ne = refl
try_guess_container-as_str podman c ne = refl
try_guess_container-as_str rkt c ne = refl
try_guess_container-as_str wsl c ne = refl
try_guess_container-as_str _ c ne = cc

-- What a vendor writes at the start of a DMI file.
abbrev pub prefixes : Virtualization → List Str
prefixes kvm = codes "KVM" ∷ []
prefixes qemu = codes "QEMU" ∷ []
prefixes vmware = codes "VMware" ∷ codes "VMW" ∷ []
prefixes oracle = codes "innotek GmbH" ∷ []
prefixes xen = codes "Xen" ∷ []
prefixes bochs = codes "Bochs" ∷ []
prefixes parallels = codes "Parallels" ∷ []
prefixes bhyve = codes "BHYVE" ∷ []
prefixes _ = []

abbrev pub begins_with_one : Str → List Str → Bool
begins_with_one line [] = false
begins_with_one line (p ∷ ps) = starts_with line p || begins_with_one line ps

ok_injective : {E A : Type 0} {x y : A} → ◌≡◌ {A = Outcome E A} (ok x) (ok y) → x ≡ y
ok_injective e = cc

vendor_of-prefixes :
    (line : Str) (v : Virtualization)
    → vendor_of line ≡ some v
    → begins_with_one line (prefixes v) ≡ true
unfolding vendor_of
vendor_of-prefixes line kvm e = ground arith
vendor_of-prefixes line _ e = ground arith

module _ (files : Files) where
  -- The file cannot be read, or its first line names no vendor.
  abbrev pub Unmatched : FilePath → Type 0
  Unmatched path = (line : Str) → read_first_line files path ≡ ok line → vendor_of line ≡ none

  -- The first file of the list that names a vendor names this one.
  pub record FirstMatch (v : Virtualization) (paths : List FilePath) : Type 0 where
    pub before : List FilePath
    pub path : FilePath
    pub behind : List FilePath
    pub line : Str
    pub splits : paths ≡ before ++ path ∷ behind
    pub unmatched : All Unmatched before
    pub readable : read_first_line files path ≡ ok line
    pub named : begins_with_one line (prefixes v) ≡ true

  FirstMatch-cons :
      {v : Virtualization} {paths : List FilePath} (p : FilePath)
      → Unmatched p
      → FirstMatch v paths
      → FirstMatch v (p ∷ paths)
  FirstMatch-cons p u f = record {
    before = p ∷ f.before;
    path = f.path;
    behind = f.behind;
    line = f.line;
    splits = ap (λ t. p ∷ t) f.splits;
    unmatched = (u, f.unmatched);
    readable = f.readable;
    named = f.named;
  }

  FirstMatch-here :
      {v : Virtualization} (p : FilePath) (paths : List FilePath) (line : Str)
      → read_first_line files p ≡ ok line
      → begins_with_one line (prefixes v) ≡ true
      → FirstMatch v (p ∷ paths)
  FirstMatch-here p paths line r n = record {
    before = [];
    path = p;
    behind = paths;
    line = line;
    splits = refl;
    unmatched = tt;
    readable = r;
    named = n;
  }

  Outcome-cases :
      (r : IoResult Str)
      → ((line : Str) × (r ≡ ok line)) ⊎ ((e : IoError) × (r ≡ err e)) ⊎ (r ≡ panic)
  Outcome-cases (ok line) = inl (line, refl)
  Outcome-cases (err e) = inr (inl (e, refl))
  Outcome-cases panic = inr (inr refl)

  -- A kind that the DMI probe reports is that of the first file in the list that names a vendor:
  -- the files before it cannot be read or name none.
  probe-FirstMatch :
      (paths : List FilePath) (v : Virtualization) → probe files paths ≡ ok v → FirstMatch v paths
  unfolding probe
  probe-FirstMatch [] v e = cc
  probe-FirstMatch (p ∷ paths) v e = elim (Outcome-cases (read_first_line files p)) [
    | inl (line, r) ↦ elim (Option-cases (vendor_of line)) [
      | inl none_named ↦
          FirstMatch-cons p (λ l q. ap vendor_of (ok_injective (sym q ∙ r)) ∙ none_named)
            (probe-FirstMatch paths v (rw none_named at (rw (r, probe) at e)))
      | inr (w, named) ↦
          let same : w ≡ v = ok_injective (rw named at (rw (r, probe) at e)) in
          FirstMatch-here p paths line r (vendor_of-prefixes line v (named ∙ ap some same))
    ]
    | inr (inl (x, r)) ↦
        FirstMatch-cons p (λ l q. cc) (probe-FirstMatch paths v (rw (r, probe) at e))
    | inr (inr r) ↦ cc (rw (r, probe) at e)
  ]
