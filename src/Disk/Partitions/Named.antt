-- ===== src/Disk/Partitions/Named.antt =====
-- Which file system a line of /proc/filesystems names, apart from how the code takes it apart.
use mathlib.Core.Path.{subst}
use heim.Prelude.{
  true, false, ◌↔◌, ◌⊎◌, inl, inr, none, some, [], ◌∷◌, ◌++◌, ◌≡◌, ◌≢◌, refl, sym, ap, ◌∙◌, arith,
  ◌==◌, ==_iff, Lacks, Bool-cases,
}
use heim.Outcome.{ok}
use heim.Text.{Str, codes, str_eq, str_eq_iff, str_eq_refl}
use heim.Text.Split.{splitn}
use heim.Text.Laws.{splitn_two, splitn_whole}
use heim.Disk.FileSystem.{FileSystem, zfs, lower, eq_ignore_ascii_case, to_ascii_lowercase}
use heim.Disk.FileSystem
use heim.Disk.Partitions.{filesystem_in}

-- The file systems that a line of /proc/filesystems makes count as physical: the one of the name
-- behind the first tab if "nodev" is not in front of it, and zfs also behind "nodev".
pub data Names (line : Str) : FileSystem → Type 0 where
  physical :
      {fs : FileSystem} (first name : Str)
      → line ≡ first ++ b'\t' ∷ name
      → Lacks b'\t' first
      → first ≢ codes "nodev"
      → FileSystem.from_str name ≡ ok fs
      → Names line fs
  zfs_pool : line ≡ codes "nodev\tzfs" → Names line zfs

cut_tab :
    (s : Str)
    → Lacks b'\t' s
      ⊎ ((first : Str) × (name : Str) × (s ≡ first ++ b'\t' ∷ name) × Lacks b'\t' first)
cut_tab [] = inl tt
cut_tab (c ∷ s) = elim (Bool-cases (c == b'\t')) [
  | inl here ↦ inr ([], s, ap (λ d. d ∷ s) ((==_iff c b'\t').0 here), tt)
  | inr other ↦
      let differs : c ≢ b'\t' = let iff = ==_iff c b'\t' in ground arith in
      elim (cut_tab s) [
        | inl lacks ↦ inl (differs, lacks)
        | inr (first, name, e, lacks) ↦ inr (c ∷ first, name, ap (λ t. c ∷ t) e, (differs, lacks))
      ]
]

from_str_zfs : FileSystem.from_str (codes "zfs") ≡ ok zfs
unfolding FileSystem.from_str str_eq lower
from_str_zfs = refl

parts_named :
    (first name : Str)
    → str_eq first (codes "nodev") ≡ false
    → filesystem_in (first ∷ name ∷ []) ≡ some (FileSystem.from_str name)
parts_named first name h = rw h refl

parts_zfs :
    (first name : Str)
    → str_eq first (codes "nodev") ≡ true
    → str_eq name (codes "zfs") ≡ true
    → filesystem_in (first ∷ name ∷ []) ≡ some (ok zfs)
parts_zfs first name h k = rw (h, k) (ap some from_str_zfs)

parts_nodev :
    (first name : Str)
    → str_eq first (codes "nodev") ≡ true
    → str_eq name (codes "zfs") ≡ false
    → filesystem_in (first ∷ name ∷ []) ≡ none
parts_nodev first name h k = rw (h, k) refl

parts-Names :
    (line first name : Str) (fs : FileSystem)
    → line ≡ first ++ b'\t' ∷ name
    → Lacks b'\t' first
    → filesystem_in (first ∷ name ∷ []) ≡ some (ok fs)
    → Names line fs
parts-Names line first name fs at lacks e = elim (Bool-cases (str_eq first (codes "nodev"))) [
  | inl nodev ↦ elim (Bool-cases (str_eq name (codes "zfs"))) [
    | inl pool ↦
        let same : zfs ≡ fs = let found = parts_zfs first name nodev pool in cc in
        let whole : line ≡ codes "nodev\tzfs" =
          at
          ∙ ap (λ f. f ++ b'\t' ∷ name) ((str_eq_iff first (codes "nodev")).0 nodev)
          ∙ ap (λ n. codes "nodev\t" ++ n) ((str_eq_iff name (codes "zfs")).0 pool) in
        subst (Names line) same (zfs_pool whole)
    | inr other ↦ let found = parts_nodev first name nodev other in cc
  ]
  | inr plain ↦
      physical first name at lacks
        (λ same. let nodev = (str_eq_iff first (codes "nodev")).1 same in cc)
        (let found = parts_named first name plain in cc)
]

filesystem_in-Names :
    (line : Str) (fs : FileSystem)
    → filesystem_in (splitn 2 b'\t' line) ≡ some (ok fs)
    → Names line fs
filesystem_in-Names line fs e = elim (cut_tab line) [
  | inl lacks ↦
      let none_found : filesystem_in (splitn 2 b'\t' line) ≡ none =
        ap filesystem_in (splitn_whole 0 b'\t' line lacks) in
      cc
  | inr (first, name, at, lacks) ↦ parts-Names line first name fs at lacks (
      sym (ap filesystem_in (splitn_two b'\t' first name lacks))
      ∙ sym (ap (λ l. filesystem_in (splitn 2 b'\t' l)) at)
      ∙ e)
]

Names-filesystem_in :
    (line : Str) (fs : FileSystem)
    → Names line fs
    → filesystem_in (splitn 2 b'\t' line) ≡ some (ok fs)
Names-filesystem_in line fs (physical first name at lacks other e) =
    let plain : str_eq first (codes "nodev") ≡ false =
      elim (Bool-cases (str_eq first (codes "nodev"))) [
        | inl nodev ↦ absurd (other ((str_eq_iff first (codes "nodev")).0 nodev))
        | inr plain ↦ plain
      ] in
    ap (λ l. filesystem_in (splitn 2 b'\t' l)) at
    ∙ ap filesystem_in (splitn_two b'\t' first name lacks)
    ∙ parts_named first name plain
    ∙ ap some e
Names-filesystem_in line fs (zfs_pool at) =
    ap (λ l. filesystem_in (splitn 2 b'\t' l)) at
    ∙ ap filesystem_in (splitn_two b'\t' (codes "nodev") (codes "zfs") (omega arith))
    ∙ parts_zfs (codes "nodev") (codes "zfs") (str_eq_refl (codes "nodev"))
        (str_eq_refl (codes "zfs"))

-- What the code finds in a line is what the line names.
pub filesystem_in_iff :
    (line : Str) (fs : FileSystem)
    → (filesystem_in (splitn 2 b'\t' line) ≡ some (ok fs)) ↔ Names line fs
filesystem_in_iff line fs = (filesystem_in-Names line fs, Names-filesystem_in line fs)
