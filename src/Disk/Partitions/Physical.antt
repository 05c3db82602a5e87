-- ===== src/Disk/Partitions/Physical.antt =====
-- Which partitions `partitions_physical` yields, in terms of the lines of the two files.
use heim.Prelude.{
  map, true, false, ◌↔◌, ◌⊎◌, inl, inr, Option, none, some, List, [], ◌∷◌, ◌++◌, ◌≡◌, ◌≢◌, refl, ap,
  sym, ◌∙◌, Bool-cases, if◌then◌else◌,
}
use heim.Outcome.{ok, err, panic, ◌>>=◌, bind-eq-ok}
use heim.Text.{Str, codes}
use heim.Common.Errors.{Error, Result, IoResult}
use heim.Runtime.Fs.{FilePath, Files, join}
use heim.Disk.FileSystem.{FileSystem}
use heim.Disk.Partitions.Known.{Listed, or_map, contains-collect, collect_total}
use heim.Disk.Partitions.{
  Partition, from_str, contains, collect, kept_items, parse_lines, is_kept, filter_physical,
  known_filesystems, partitions, partitions_physical,
}

-- The item occurs in the list.
abbrev pub Occurs : {A : Type 0} → A → List A → Type 0
Occurs a [] = ⊥
Occurs a (x ∷ xs) = (x ≡ a) ⊎ Occurs a xs

-- A line of the file is read as the partition.
abbrev pub Parsed : FilePath → List (IoResult Str) → Partition → Type 0
Parsed root [] p = ⊥
Parsed root (ok line ∷ lines) p = (from_str root line ≡ ok p) ⊎ Parsed root lines p
Parsed root (err e ∷ lines) p = Parsed root lines p
Parsed root (panic ∷ lines) p = Parsed root lines p

or_both : {A B C : Type 0} → (A → C) → (B → C) → A ⊎ B → C
or_both f g (inl a) = f a
or_both f g (inr b) = g b

or_right : {A B C : Type 0} → (A → ⊥) → (B → C) → A ⊎ B → C
or_right f g = or_both (λ a. absurd (f a)) g

true-false : ¬ (true ≡ false)
true-false e = cc

Occurs-parsed :
    {p : Partition} {R : Type 0} (r : Result Partition) (rest : List (Result Partition))
    → Occurs (ok p) rest ↔ R
    → Occurs (ok p) (kept_items r ++ rest) ↔ ((r ≡ ok p) ⊎ R)
Occurs-parsed (ok q) rest later = (or_map later.0, or_map later.1)
Occurs-parsed (err e) rest later = (λ h. inr (later.0 h), or_right (λ x. cc) later.1)
Occurs-parsed panic rest later =
    (or_right (λ x. cc) (λ h. inr (later.0 h)), or_right (λ x. cc) (λ h. inr (later.1 h)))

Occurs-parse_lines :
    (root : FilePath) (lines : List (IoResult Str)) (p : Partition)
    → Occurs (ok p) (parse_lines root lines) ↔ Parsed root lines p
unfolding parse_lines
Occurs-parse_lines root [] p = (λ x. x, λ x. x)
Occurs-parse_lines root (ok line ∷ lines) p =
    Occurs-parsed (from_str root line) (parse_lines root lines) (Occurs-parse_lines root lines p)
Occurs-parse_lines root (err e ∷ lines) p =
    let later = Occurs-parse_lines root lines p in
    (or_right (λ x. cc) later.0, λ h. inr (later.1 h))
Occurs-parse_lines root (panic ∷ lines) p =
    let later = Occurs-parse_lines root lines p in
    (or_right (λ x. cc) later.0, λ h. inr (later.1 h))

filter_physical-cons :
    (set : List FileSystem) (q : Partition) (ps : List (Result Partition))
    → filter_physical set (ok q ∷ ps) ≡ (
        if is_kept set q.device q.fs_type
        then ok q ∷ filter_physical set ps
        else filter_physical set ps)
unfolding filter_physical
filter_physical-cons set q ps = refl

filter_physical-err :
    (set : List FileSystem) (e : Error) (ps : List (Result Partition))
    → filter_physical set (err e ∷ ps) ≡ err e ∷ filter_physical set ps
unfolding filter_physical
filter_physical-err set e ps = refl

filter_physical-panic :
    (set : List FileSystem) (ps : List (Result Partition))
    → filter_physical set (panic ∷ ps) ≡ panic ∷ filter_physical set ps
unfolding filter_physical
filter_physical-panic set ps = refl

kept_same :
    (set : List FileSystem) {q p : Partition}
    → ◌≡◌ {A = Result Partition} (ok q) (ok p)
    → is_kept set q.device q.fs_type ≡ is_kept set p.device p.fs_type
kept_same set {q} {p} e =
    let same : q ≡ p = cc in ap (λ (r : Partition). is_kept set r.device r.fs_type) same

Occurs-filter_physical :
    (set : List FileSystem) (ps : List (Result Partition)) (p : Partition)
    → Occurs (ok p) (filter_physical set ps)
      ↔ (Occurs (ok p) ps × (is_kept set p.device p.fs_type ≡ true))
Occurs-filter_physical set [] p = unfold filter_physical in (λ x. absurd x, λ x. absurd x.0)
Occurs-filter_physical set (ok q ∷ ps) p =
    let later = Occurs-filter_physical set ps p in
    rw filter_physical-cons (elim (Bool-cases (is_kept set q.device q.fs_type)) [
      | inl kept ↦ rw kept (
        or_both (λ e. (inl e, sym (kept_same set e) ∙ kept))
            (λ h. (inr (later.0 h).0, (later.0 h).1)),
        λ x. elim x.0 [ inl e ↦ inl e | inr h ↦ inr (later.1 (h, x.1)) ],
      )
      | inr dropped ↦ rw dropped (
        λ h. (inr (later.0 h).0, (later.0 h).1),
        λ x. elim x.0 [
          | inl e ↦ absurd (true-false (sym (kept_same set e ∙ x.1) ∙ dropped))
          | inr h ↦ later.1 (h, x.1)
        ],
      )
    ])
Occurs-filter_physical set (err e ∷ ps) p =
    let later = Occurs-filter_physical set ps p in
    rw filter_physical-err (
      or_right (λ x. cc) (λ h. (inr (later.0 h).0, (later.0 h).1)),
      λ x. elim x.0 [ inl e ↦ cc | inr h ↦ inr (later.1 (h, x.1)) ],
    )
Occurs-filter_physical set (panic ∷ ps) p =
    let later = Occurs-filter_physical set ps p in
    rw filter_physical-panic (
      or_right (λ x. cc) (λ h. (inr (later.0 h).0, (later.0 h).1)),
      λ x. elim x.0 [ inl e ↦ cc | inr h ↦ inr (later.1 (h, x.1)) ],
    )

partitions_physical_lem :
    (files : Files) (root : FilePath) (mounts known : List (IoResult Str))
    → files.open_file (join root (codes "filesystems")) ≡ ok known
    → files.open_file (join root (codes "mounts")) ≡ ok mounts
    → partitions_physical files root
      ≡ (collect [] known >>= λ set. ok (filter_physical set (parse_lines root mounts)))
partitions_physical_lem files root mounts known k m =
    unfold partitions_physical known_filesystems partitions in simp (k, m)

is_kept_iff :
    (set : List FileSystem) (device : Option Str) (fs : FileSystem)
    → (is_kept set device fs ≡ true) ↔ ((device ≢ none) × (contains set fs ≡ true))
is_kept_iff set none fs = (λ e. cc, λ x. absurd (x.0 refl))
is_kept_iff set (some d) fs = (λ e. (cc, e), λ x. x.1)

not_contains-nil : (fs : FileSystem) → ¬ (contains [] fs ≡ true)
unfolding contains
not_contains-nil fs e = cc

or_left : {A B : Type 0} → (B → ⊥) → A ⊎ B → A
or_left f (inl a) = a
or_left f (inr b) = absurd (f b)

yields-Occurs :
    (files : Files) (root : FilePath) (mounts known : List (IoResult Str))
    {stream : List (Result Partition)} (p : Partition)
    → files.open_file (join root (codes "filesystems")) ≡ ok known
    → files.open_file (join root (codes "mounts")) ≡ ok mounts
    → partitions_physical files root ≡ ok stream
    → Occurs (ok p) stream ↔ (Parsed root mounts p × (p.device ≢ none) × Listed known p.fs_type)
yields-Occurs files root mounts known {stream} p k m e =
    let (set, collected, filtered) =
      bind-eq-ok (collect [] known) (λ set. ok (filter_physical set (parse_lines root mounts)))
        {b = stream} (sym (partitions_physical_lem files root mounts known k m) ∙ e) in
    let built : filter_physical set (parse_lines root mounts) ≡ stream = cc in
    let kept = Occurs-filter_physical set (parse_lines root mounts) p in
    let parsed = Occurs-parse_lines root mounts p in
    let physical = is_kept_iff set p.device p.fs_type in
    let listed = contains-collect [] known p.fs_type collected in
    rw (← built) (
      λ h.
          let (occurs, test) = kept.0 h in
          let (device, member) = physical.0 test in
          (parsed.0 occurs, device, or_left (not_contains-nil p.fs_type) (listed.0 member)),
      λ x. kept.1 (parsed.1 x.0, physical.1 (x.1, listed.1 (inl x.2))),
    )

-- If both files can be opened and the lines of /proc/filesystems can be read, then
-- `partitions_physical` returns a stream, and this yields exactly the partitions that a line of
-- /proc/mounts is read as, that have a device, and whose file system a line of /proc/filesystems
-- makes physical: it is read from the name behind the first tab of a line that does not have "nodev"
-- before this tab, or it is zfs and a line has just this name behind "nodev".
pub partitions_physical-Occurs :
    (files : Files) (root : FilePath) (mounts : List (IoResult Str)) (known : List Str)
    → files.open_file (join root (codes "filesystems")) ≡ ok (map ok known)
    → files.open_file (join root (codes "mounts")) ≡ ok mounts
    → (stream : List (Result Partition)) × (partitions_physical files root ≡ ok stream)
      × ((p : Partition)
          → Occurs (ok p) stream
            ↔ (Parsed root mounts p × (p.device ≢ none) × Listed (map ok known) p.fs_type))
partitions_physical-Occurs files root mounts known k m =
    let (set, collected) = collect_total [] known in
    let stream = filter_physical set (parse_lines root mounts) in
    let found : partitions_physical files root ≡ ok stream =
      partitions_physical_lem files root mounts (map ok known) k m ∙ rw collected in
    (stream, found, λ p. yields-Occurs files root mounts (map ok known) p k m found)
