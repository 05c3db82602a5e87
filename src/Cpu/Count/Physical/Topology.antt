-- ===== src/Cpu/Count/Physical/Topology.antt =====
-- `topology`, and the ids that it counts.
use heim.Prelude.{
  ℕ, Bool, true, false, ◌||◌, inl, inr, Bool-cases, Option, some, List, [], ◌∷◌, map, ◌≡◌, refl,
  sym, ap, ◌∙◌, length, ◌==◌, ==_iff,
}
use heim.Outcome.{ok}
use heim.Text.{Str}
use heim.Common.Errors.{IoResult}
use heim.Runtime.Fs.{FilePath, Files, join}
use heim.Cpu.Count.Physical.{
  has, insert, read_core_id, collect_ids, count_ids, core_id_pattern, topology,
}

-- No id occurs twice.
abbrev pub Unique : List ℕ → Type 0
Unique [] = Unit
Unique (x ∷ xs) = (has x xs ≡ false) × Unique xs

insert-Unique : (x : ℕ) (xs : List ℕ) → Unique xs → Unique (insert x xs)
unfolding insert
insert-Unique x xs h = elim (Bool-cases (has x xs)) [ inl e ↦ rw e h | inr e ↦ rw e (e, h) ]

or_absorb : (a b : Bool) → (a ≡ true → b ≡ true) → (a || b) ≡ b
or_absorb true b h = sym (h refl)
or_absorb false b h = refl

has-insert : (x y : ℕ) (xs : List ℕ) → has y (insert x xs) ≡ ((x == y) || has y xs)
unfolding insert has
has-insert x y xs = elim (Bool-cases (has x xs)) [
  | inl e ↦ rw e (
      sym (
        or_absorb (x == y) (has y xs) (λ same. ap (λ z. has z xs) (sym ((==_iff x y).0 same)) ∙ e)))
  | inr e ↦ rw e
]

or_swap : (a b c : Bool) → (a || (b || c)) ≡ ((b || a) || c)
or_swap true true c = refl
or_swap true false c = refl
or_swap false true c = refl
or_swap false false c = refl

-- The ids that the files hold, one for each file.
abbrev pub Reads : Files → List FilePath → List ℕ → Type 0
Reads files [] [] = Unit
Reads files (p ∷ ps) (n ∷ ns) = (read_core_id files (ok p) ≡ ok n) × Reads files ps ns
Reads files _ _ = ⊥

collect_ids-Unique :
    (files : Files) (ps : List FilePath) (ns acc : List ℕ)
    → Reads files ps ns
    → Unique acc
    → (ids : List ℕ) × (collect_ids files (map ok ps) acc ≡ ok ids)
      × Unique ids
      × ((x : ℕ) → has x ids ≡ (has x ns || has x acc))
unfolding collect_ids has
collect_ids-Unique files [] [] acc r u = (acc, refl, u, λ x. refl)
collect_ids-Unique files (p ∷ ps) (n ∷ ns) acc r u =
    let (ids, found, unique, same) =
      collect_ids-Unique files ps ns (insert n acc) r.1 (insert-Unique n acc u) in
    (
      ids,
      rw r.0 found,
      unique,
      λ x.
          same x
          ∙ ap (λ b. has x ns || b) (has-insert n x acc)
          ∙ or_swap (has x ns) (n == x) (has x acc),
    )
collect_ids-Unique files [] (n ∷ ns) acc r u = absurd r
collect_ids-Unique files (p ∷ ps) [] acc r u = absurd r

or_false : (b : Bool) → (b || false) ≡ b
or_false true = refl
or_false false = refl

has_first : (n : ℕ) (ns : List ℕ) → has n (n ∷ ns) ≡ true
unfolding has
has_first n ns = rw ((==_iff n n).1 refl)

count_ids-ne-nil : (ids : List ℕ) (x : ℕ) → has x ids ≡ true → count_ids ids ≡ ok (length ids)
unfolding has
count_ids-ne-nil [] x h = cc
count_ids-ne-nil (y ∷ ids) x h = refl

module _ (glob : Str → Option (List (IoResult FilePath))) (sysfs_root : FilePath)
    (files : Files) where
  -- Where the pattern matches at least one file and every one of them holds an id, `topology` is the
  -- number of the different ids in them.
  pub topology-Unique :
      (p : FilePath) (ps : List FilePath) (n : ℕ) (ns : List ℕ)
      → glob (join sysfs_root core_id_pattern) ≡ some (map ok (p ∷ ps))
      → Reads files (p ∷ ps) (n ∷ ns)
      → (ids : List ℕ) × Unique ids
        × ((x : ℕ) → has x ids ≡ has x (n ∷ ns))
        × (topology glob sysfs_root files ≡ ok (length ids))
  unfolding topology has
  topology-Unique p ps n ns g r =
      let (ids, found, unique, same) = collect_ids-Unique files (p ∷ ps) (n ∷ ns) [] r tt in
      let same_ids : (x : ℕ) → has x ids ≡ has x (n ∷ ns) =
        λ x. same x ∙ or_false (has x (n ∷ ns)) in
      (
        ids,
        unique,
        same_ids,
        rw (topology, g) (rw found (count_ids-ne-nil ids n (same_ids n ∙ has_first n ns))),
      )
