-- ===== src/Tests/Cpu.antt =====
-- heim-cpu at concrete inputs.
use heim.Prelude.{ℕ, Option, some, List, [], ◌∷◌, length, ◌≡◌, refl, arith}
use heim.Outcome.{ok, err}
use heim.Text.{Str, codes, str_eq, starts_with, is_whitespace}
use heim.Text.Split.{trim_start, trim_end, lines}
use heim.Text.Number.{parse_unsigned}
use heim.Common.Errors.{IoResult, simple, invalid_data, from_io}
use heim.Runtime.Fs.{FilePath, Files, join}
use heim.Cpu.Count.Physical.{has, topology, physical_count}
use heim.Cpu.Count.Physical.Lines.{Line, key_value, plain, physical_count-Line}
use heim.Cpu.Count.Physical.Topology.{Unique, topology-Unique}
use heim.Tests.Machine.{lookup, files_of}

abbrev no_matches : Str → Option (List (IoResult FilePath))
no_matches pattern = some []

abbrev two_matches : Str → Option (List (IoResult FilePath))
two_matches pattern = some (ok (codes "/a") ∷ ok (codes "/b") ∷ [])

abbrev machine : Files
machine = files_of (
    (
      codes "/proc/cpuinfo",
      codes "processor\t: 0\nphysical id\t: 0\ncore id\t\t: 0\n\nprocessor\t: 1\n",
    )
    ∷ (codes "/a", codes "3\n")
    ∷ (codes "/b", codes "3\n")
    ∷ [])

abbrev info_lines : List Line
info_lines =
    key_value (codes "processor\t") (codes " 0")
    ∷ key_value (codes "physical id\t") (codes " 0")
    ∷ key_value (codes "core id\t\t") (codes " 0")
    ∷ plain []
    ∷ key_value (codes "processor\t") (codes " 1")
    ∷ []

physical_count-Line_example :
    physical_count (codes "/proc") machine no_matches (codes "/sys")
    ≡ err (from_io (simple invalid_data))
unfolding topology lookup str_eq lines join starts_with
physical_count-Line_example =
    physical_count-Line (codes "/proc") machine no_matches (codes "/sys")
      (from_io (simple invalid_data)) info_lines refl refl
      (
        (omega arith, omega arith),
        (
          (omega arith, omega arith),
          ((omega arith, omega arith), (tt, ((omega arith, omega arith), tt))),
        ),
      )

topology-Unique_example :
    (ids : List ℕ) × Unique ids
    × ((x : ℕ) → has x ids ≡ has x (3 ∷ 3 ∷ []))
    × (topology two_matches (codes "/sys") machine ≡ ok (length ids))
unfolding lookup str_eq trim_start trim_end is_whitespace parse_unsigned
topology-Unique_example =
    topology-Unique two_matches (codes "/sys") machine (codes "/a") (codes "/b" ∷ []) 3 (3 ∷ [])
      refl (refl, (refl, tt))
