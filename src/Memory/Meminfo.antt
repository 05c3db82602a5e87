-- ===== src/Memory/Meminfo.antt =====
-- heim-memory/src/sys/linux/memory.rs
pub mod Layout
pub mod Parsed
use heim.Prelude.{
  ℕ, zero, suc, ◌+◌, Bool, Option, none, some, List, [], ◌∷◌, ◌++◌, ◌≡◌, ◌==◌, if◌then◌else◌,
}
use heim.Outcome.{Outcome, ok, err, panic, ◌>>=◌}
use heim.Text.{Str, Bytes, codes, str_eq}
use heim.Text.Split.{lines, splitn}
use heim.Common.Errors.{Error, Result, simple, invalid_data, from_io, with_file}
use heim.Runtime.Fs.{FilePath, Files, join, read_into}
use heim.Memory.Value.{first_bytes, one_of, number_text, parse_number}

-- `Memory`; its accessors are the fields.
pub record Memory (Information : Type 0) : Type 0 where
  pub total : Information
  pub free : Information
  pub available : Information
  pub buffers : Information
  pub cached : Information
  pub active : Information
  pub inactive : Information
  pub shared : Information

-- The field that `let field = match … { … }` borrows.
pub data Field : Type 0 where
  mem_total mem_free mem_available in_buffers in_cache in_active in_inactive shmem : Field

unfoldable pub field_of : Str → Option Field
field_of name =
    if str_eq name (codes "MemTotal")
    then some mem_total
    else if str_eq name (codes "MemFree")
    then some mem_free
    else if str_eq name (codes "MemAvailable")
    then some mem_available
    else if str_eq name (codes "Buffers")
    then some in_buffers
    else if str_eq name (codes "Cached")
    then some in_cache
    else if str_eq name (codes "Active")
    then some in_active
    else if str_eq name (codes "Inactive")
    then some in_inactive
    else if str_eq name (codes "Shmem")
    then some shmem
    else none

abbrev pub first_letters : List Bytes
first_letters = codes "Me" ∷ codes "Ac" ∷ codes "In" ∷ codes "Bu" ∷ codes "Ca" ∷ codes "Sh" ∷ []

module _ {Information : Type 0} where
  abbrev pub assign : Field → Information → Memory Information → Memory Information
  assign mem_total v m = record m { total = v }
  assign mem_free v m = record m { free = v }
  assign mem_available v m = record m { available = v }
  assign in_buffers v m = record m { buffers = v }
  assign in_cache v m = record m { cached = v }
  assign in_active v m = record m { active = v }
  assign in_inactive v m = record m { inactive = v }
  assign shmem v m = record m { shared = v }

-- How a round of the loop ends: `continue` and the end of the body, or the early `return`.
pub data Flow (A : Type 0) : Type 0 where
  go_on : A → ℕ → Flow A
  return_ok : A → Flow A

module _ {Information : Type 0} where
  -- The loop goes on with the remaining lines, or has returned.
  abbrev pub after :
      Flow (Memory Information)
      → (Memory Information → ℕ → Result (Memory Information))
      → Result (Memory Information)
  after (go_on m matched) rest = rest m matched
  after (return_ok m) rest = ok m

module _ {Information : Type 0} (kilobyte : ℕ → Information) where
  -- The body from `let value = kbytes.parse::<u64>()?` on.
  unfoldable store : Field → Str → Memory Information → ℕ → Result (Flow (Memory Information))
  store field kbytes memory matched = do
    value ← parse_number kbytes
    let stored = assign field (kilobyte value) memory
    ok (if matched + 1 == 8 then return_ok stored else go_on stored (matched + 1))

  unfoldable match_value :
      Field → List Str → Memory Information → ℕ → Result (Flow (Memory Information))
  unfolding store
  match_value field [] memory matched = ok (go_on memory matched)
  match_value field (value ∷ parts) memory matched = elim (number_text value) [
    | none ↦ ok (go_on memory matched)
    | some kbytes ↦ store field kbytes memory matched
  ]

  unfoldable match_parts : List Str → Memory Information → ℕ → Result (Flow (Memory Information))
  unfolding match_value
  match_parts [] memory matched = ok (go_on memory matched)
  match_parts (name ∷ parts) memory matched = elim (field_of name) [
    | none ↦ ok (go_on memory matched)
    | some field ↦ match_value field parts memory matched
  ]

  -- The body of the loop.
  unfoldable pub read_line : Str → Memory Information → ℕ → Result (Flow (Memory Information))
  unfolding match_parts
  read_line line memory matched = elim (first_bytes line) [
    | none ↦ panic
    | some letters ↦
        if one_of letters first_letters
        then match_parts (splitn 2 b':' line) memory matched
        else ok (go_on memory matched)
  ]

  module _ (procfs_root : FilePath) where
    abbrev pub incomplete : Error
    incomplete = with_file (from_io (simple invalid_data)) (join procfs_root (codes "meminfo"))

    unfoldable pub read_lines : List Str → Memory Information → ℕ → Result (Memory Information)
    unfolding read_line
    read_lines [] memory matched = err incomplete
    read_lines (line ∷ rest) memory matched = do
      flow ← read_line line memory matched
      after flow (read_lines rest)

    module _ (default : Information) where
      abbrev pub empty : Memory Information
      empty = record {
        total = default;
        free = default;
        available = default;
        buffers = default;
        cached = default;
        active = default;
        inactive = default;
        shared = default;
      }

      -- `Memory::from_str`
      unfoldable pub from_str : Str → Result (Memory Information)
      unfolding read_lines
      from_str meminfo = read_lines (lines meminfo) empty 0

      -- `memory`
      unfoldable pub memory : Files → Result (Memory Information)
      unfolding from_str
      memory files = read_into files from_io (λ e. e) from_str (join procfs_root (codes "meminfo"))
