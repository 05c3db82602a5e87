-- ===== src/Disk/Partitions/Known.antt =====
-- Which file systems `known_filesystems` collects, and that it does.
use heim.Prelude.{
  map, true, ◌||◌, ◌↔◌, ◌⊎◌, inl, inr, Option, none, some, List, [], ◌∷◌, ◌≡◌, refl, ap, Bool-cases,
}
use mathlib.Core.Path.{subst}
use mathlib.Core.Bool.{decide}
use heim.Outcome.{ok, err, panic, bind-eq-ok}
use heim.Text.{Str, codes, str_eq}
use heim.Text.Split.{splitn}
use heim.Common.Errors.{Result, IoResult}
use heim.Disk.FileSystem.{FileSystem}
use heim.Disk.Partitions.Named.{Names, filesystem_in_iff}
use heim.Disk.FileSystem.Names.{from_str_total}
use heim.Disk.Partitions.{
  FileSystem-discrete, contains, insert, filesystem_in, add_found, add_line, collect,
}

contains-cons :
    (f fs : FileSystem) (set : List FileSystem)
    → (contains (f ∷ set) fs ≡ true) ↔ ((f ≡ fs) ⊎ (contains set fs ≡ true))
unfolding contains decide
contains-cons f fs set =
    elim (FileSystem-discrete f fs)
      as (λ d. (decide d || contains set fs ≡ true) ↔ ((f ≡ fs) ⊎ (contains set fs ≡ true))) [
        | yes p ↦ (λ _. inl p, λ _. refl)
        | no n ↦ (
          λ h. inr h,
          λ (x : (f ≡ fs) ⊎ (contains set fs ≡ true)). elim x [ inl p ↦ absurd (n p) | inr h ↦ h ],
        )
      ]

contains-insert :
    (set : List FileSystem) (f fs : FileSystem)
    → (contains (insert set f) fs ≡ true) ↔ ((f ≡ fs) ⊎ (contains set fs ≡ true))
contains-insert set f fs = elim (Bool-cases (contains set f)) [
  | inl old ↦
      unfold insert in
      rw old (
        λ h. inr h,
        λ (x : (f ≡ fs) ⊎ (contains set fs ≡ true)). elim x [
          | inl p ↦ subst (λ g. contains set g ≡ true) p old
          | inr h ↦ h
        ],
      )
  | inr new ↦ unfold insert in rw new (contains-cons f fs set)
]

contains-add_found :
    (acc : List FileSystem) (o : Option (Result FileSystem)) {next : List FileSystem}
    (fs : FileSystem)
    → add_found acc o ≡ ok next
    → (contains next fs ≡ true) ↔ ((o ≡ some (ok fs)) ⊎ (contains acc fs ≡ true))
contains-add_found acc none {next} fs e =
    let same : acc ≡ next = cc in
    rw (← same) (
      λ h. inr h,
      λ (x : (none ≡ some (ok fs)) ⊎ (contains acc fs ≡ true)). elim x [ inl p ↦ cc | inr h ↦ h ],
    )
contains-add_found acc (some (ok f)) {next} fs e =
    let same : insert acc f ≡ next = cc in
    rw (← same) (
      λ h. elim ((contains-insert acc f fs).0 h) [
        | inl p ↦ inl (ap (λ g. some (ok g)) p)
        | inr k ↦ inr k
      ],
      λ (x : (some (ok f) ≡ some (ok fs)) ⊎ (contains acc fs ≡ true)).
          (contains-insert acc f fs).1 (elim x [ inl p ↦ inl (cc) | inr k ↦ inr k ]),
    )
contains-add_found acc (some (err x)) fs e = cc
contains-add_found acc (some panic) fs e = cc

or_first : {A B C : Type 0} → (A → C) → A ⊎ B → C ⊎ B
or_first f (inl a) = inl (f a)
or_first f (inr b) = inr b

contains-add_line :
    (acc : List FileSystem) (line : Str) {next : List FileSystem} (fs : FileSystem)
    → add_line acc line ≡ ok next
    → (contains next fs ≡ true) ↔ (Names line fs ⊎ (contains acc fs ≡ true))
contains-add_line acc line {next} fs e =
    let named = filesystem_in_iff line fs in
    let found =
      contains-add_found acc (filesystem_in (splitn 2 b'\t' line)) {next = next} fs
        (unfold add_line in e) in
    (λ h. or_first named.0 (found.0 h), λ h. found.1 (or_first named.1 h))

-- A line of the file names the file system.
abbrev pub Listed : List (IoResult Str) → FileSystem → Type 0
Listed [] fs = ⊥
Listed (ok line ∷ lines) fs = Names line fs ⊎ Listed lines fs
Listed (err e ∷ lines) fs = Listed lines fs
Listed (panic ∷ lines) fs = Listed lines fs

or_swap : {A B C : Type 0} → A ⊎ (B ⊎ C) → (B ⊎ A) ⊎ C
or_swap (inl a) = inl (inr a)
or_swap (inr (inl b)) = inl (inl b)
or_swap (inr (inr c)) = inr c

or_unswap : {A B C : Type 0} → (B ⊎ A) ⊎ C → A ⊎ (B ⊎ C)
or_unswap (inl (inl b)) = inr (inl b)
or_unswap (inl (inr a)) = inl a
or_unswap (inr c) = inr (inr c)

pub or_map : {A B C : Type 0} → (B → C) → A ⊎ B → A ⊎ C
or_map f (inl a) = inl a
or_map f (inr b) = inr (f b)

pub contains-collect :
    (acc : List FileSystem) (lines : List (IoResult Str)) {set : List FileSystem} (fs : FileSystem)
    → collect acc lines ≡ ok set
    → (contains set fs ≡ true) ↔ (Listed lines fs ⊎ (contains acc fs ≡ true))
unfolding collect
contains-collect acc [] {set} fs e =
    let same : acc ≡ set = cc in
    rw (← same)
      (λ h. inr h, λ (x : ⊥ ⊎ (contains acc fs ≡ true)). elim x [ inl p ↦ absurd p | inr h ↦ h ])
contains-collect acc (ok line ∷ lines) {set} fs e =
    let (next, added, rest) =
      bind-eq-ok (add_line acc line) (λ next. collect next lines) {b = set} e in
    let later = contains-collect next lines fs rest in
    let here = contains-add_line acc line fs added in
    (λ h. or_swap (or_map here.0 (later.0 h)), λ h. later.1 (or_map here.1 (or_unswap h)))
contains-collect acc (err x ∷ lines) fs e = cc
contains-collect acc (panic ∷ lines) fs e = cc

add_line_lem :
    (acc : List FileSystem) (line : Str)
    → add_line acc line ≡ add_found acc (filesystem_in (splitn 2 b'\t' line))
unfolding add_line
add_line_lem acc line = refl

add_found_total :
    (acc : List FileSystem) (parts : List Str)
    → (next : List FileSystem) × (add_found acc (filesystem_in parts) ≡ ok next)
add_found_total acc [] = (acc, refl)
add_found_total acc (first ∷ []) = (acc, refl)
add_found_total acc (first ∷ name ∷ rest) = elim (Bool-cases (str_eq first (codes "nodev"))) [
  | inl nodev ↦ elim (Bool-cases (str_eq name (codes "zfs"))) [
    | inl zfs ↦
        let (fs, e) = from_str_total (codes "zfs") in (insert acc fs, rw nodev (rw zfs (rw e)))
    | inr other ↦ (acc, rw nodev (rw other))
  ]
  | inr physical ↦ let (fs, e) = from_str_total name in (insert acc fs, rw physical (rw e))
]

-- Lines that can be read are collected without an error.
pub collect_total :
    (acc : List FileSystem) (lines : List Str)
    → (set : List FileSystem) × (collect acc (map ok lines) ≡ ok set)
unfolding collect
collect_total acc [] = (acc, refl)
collect_total acc (line ∷ lines) =
    let (next, added) = add_found_total acc (splitn 2 b'\t' line) in
    let (set, rest) = collect_total next lines in (set, rw (add_line_lem acc line) (rw added rest))
