-- ===== src/Process/Handle/Names.antt =====
-- The name of a process whose program's name is longer than the kernel keeps.
use heim.Prelude.{
  ◌≤◌, ◌≡◌, refl, arith, ap, true, false, Option, none, some, List, [], ◌∷◌, ◌++◌, ◌==◌, length,
  leb, Lacks, Bool-cases, inl, inr,
}
use heim.Outcome.{ok}
use heim.Text.{Str, Bytes, codes, as_bytes, str_eq, starts_with}
use heim.Text.Split.{split, prepend}
use heim.Text.Laws.{split_whole}
use heim.Memchr.{Memchr}
use heim.Process.Command.{from}
use heim.Process.Command.Arguments.{terminated, first_argument}
use heim.Process.System.{System, Times}
use heim.Process.Stat.{Stat}
use heim.Process.Procfs.{process_file_path, stat, command}
use heim.Process.Handle.{Process}
use heim.Process.Handle.Paths.{name, file_name, full_name, last_name}

-- A part of a path that names a file.
abbrev pub IsName : Bytes → Type 0
IsName part =
    Lacks b'/' part
    × (str_eq part [] ≡ false)
    × (str_eq part (codes ".") ≡ false)
    × (str_eq part (codes "..") ≡ false)

last_name-name :
    (part : Bytes) (found : Option Bytes) (parts : List Bytes)
    → IsName part
    → last_name found (parts ++ part ∷ []) ≡ some part
last_name-name part found [] (_, full, dot, dots) = rw full (rw dot (rw dots))
last_name-name part found (other ∷ parts) h =
    let skip = last_name-name part found parts h in
    let none_found = last_name-name part none parts h in
    let other_found = last_name-name part (some other) parts h in
    ground (arith, skip, none_found, other_found)

-- The part behind the last slash is the last of the parts, and there is one before it.
split-ends :
    (dir part : Bytes)
    → Lacks b'/' part
    → (first : Bytes) × (parts : List Bytes) × (split b'/' (dir ++ b'/' ∷ part)
        ≡ first ∷ (parts ++ part ∷ []))
unfolding split
split-ends [] part h = ([], [], ap (λ l. [] ∷ l) (split_whole b'/' part h))
split-ends (c ∷ dir) part h =
    let (first, parts, e) = split-ends dir part h in
    elim (Bool-cases (c == b'/')) [
      | inl slash ↦ ([], first ∷ parts, rw slash (ap (λ l. [] ∷ l) e))
      | inr other ↦ (c ∷ first, parts, rw other (rw e (unfold prepend in refl)))
    ]

file_name-path : (dir part : Bytes) → IsName part → file_name (dir ++ b'/' ∷ part) ≡ some part
unfolding file_name
file_name-path dir part h =
    let (first, parts, e) = split-ends dir part h.0 in
    rw e (last_name-name part none (first ∷ parts) h)

starts_with-append : (p s : Bytes) → starts_with (p ++ s) p ≡ true
unfolding starts_with
starts_with-append [] s = ground arith
starts_with-append (c ∷ p) s = ground (arith, starts_with-append p s)

module _ {S Time : Type 0} (sys : System S) (times : Times Time) (m : Memchr) (lossy : Bytes → Str)
    (self : Process Time) where
  full_name-terminated :
      (short : Str) (dir rest : Bytes) (args : List Bytes)
      → IsName (as_bytes short ++ rest)
      → Lacks 0 (dir ++ b'/' ∷ (as_bytes short ++ rest))
      → full_name sys times m lossy short
          (ok (from (terminated 0 ((dir ++ b'/' ∷ (as_bytes short ++ rest)) ∷ args))))
        ≡ lossy (as_bytes short ++ rest)
  full_name-terminated short dir rest args is_name h =
      rw (first_argument m (dir ++ b'/' ∷ (as_bytes short ++ rest)) args h, full_name)
        (rw (file_name-path dir (as_bytes short ++ rest) is_name)
          (rw (starts_with-append (as_bytes short) rest)))

  -- A name of 15 bytes or more, which the kernel may have cut, is completed to the name of the
  -- program if the first argument on the command line is a path of the program: any directory, a
  -- slash and the name. A zero byte ends each argument, and the first has none inside.
  pub name-terminated :
      (stats : Stat Time) (contents : Str) (s t u : S) (dir rest : Bytes) (args : List Bytes)
      → stat sys times self.pid s ≡ (ok stats, t)
      → 15 ≤ length (as_bytes stats.name)
      → sys.read_to_string (process_file_path sys self.pid (codes "cmdline")) t ≡ (ok contents, u)
      → as_bytes contents ≡ terminated 0 ((dir ++ b'/' ∷ (as_bytes stats.name ++ rest)) ∷ args)
      → IsName (as_bytes stats.name ++ rest)
      → Lacks 0 (dir ++ b'/' ∷ (as_bytes stats.name ++ rest))
      → name sys times m lossy self s ≡ (ok (lossy (as_bytes stats.name ++ rest)), u)
  unfolding name command
  name-terminated stats contents s t u dir rest args shown long read line is_name h =
      let long : leb 15 (length (as_bytes stats.name)) ≡ true = ground arith in
      rw shown
        (rw long (rw read (rw line (rw (full_name-terminated stats.name dir rest args is_name h)))))
