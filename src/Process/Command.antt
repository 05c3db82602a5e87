-- ===== src/Process/Command.antt =====
-- heim-process/src/sys/linux/process/procfs/command.rs: the command line of a process, from the
-- bytes of its `cmdline`. An `OsString` is its bytes.
pub mod Arguments
pub mod Join
use heim.Prelude.{
  ℕ, zero, suc, ◌+◌, ◌≡◌, refl, Bool, true, false, Option, none, some, List, [], ◌∷◌, ◌++◌, map,
  arith, length, take, drop, leb, ◌==◌, if◌then◌else◌,
}
use mathlib.Core.Option
use heim.Text.{Bytes}
use heim.Memchr.{Memchr}

pub data Delimiter : Type 0 where
  null space : Delimiter

abbrev pub as_char : Delimiter → ℕ
as_char null = 0
as_char space = b' '

-- `Delimiter::from`, for a `char` and for a byte
unfoldable pub from_raw : ℕ → Delimiter
from_raw raw = if raw == 0 then null else if raw == b' ' then space else null

pub record Command : Type 0 where
  pub line : Bytes
  pub delimiter : Delimiter

-- `bytes.pop()`, with its result dropped
unfoldable pub pop : Bytes → Bytes
pop [] = []
pop (b ∷ []) = []
pop (b ∷ c ∷ s) = b ∷ pop (c ∷ s)

unfoldable pub with_spaces : Bytes → Bytes
unfolding pop
with_spaces line = pop (map (λ byte. if byte == 0 then b' ' else byte) line)

unfoldable pub to_os_string : Command → Bytes
unfolding with_spaces
to_os_string c = elim c.delimiter [ space ↦ c.line | null ↦ with_spaces c.line ]

-- `into_os_string`, which consumes the command
unfoldable pub into_os_string : Command → Bytes
unfolding with_spaces
into_os_string c = elim c.delimiter [ space ↦ c.line | null ↦ with_spaces c.line ]

-- `as_bytes().last()`
unfoldable pub last : Bytes → Option ℕ
last [] = none
last (b ∷ []) = some b
last (b ∷ c ∷ s) = last (c ∷ s)

abbrev delimiter_of : Option ℕ → Delimiter
delimiter_of none = null
delimiter_of (some chr) = from_raw chr

-- `Command::from`
unfoldable pub from : Bytes → Command
unfolding from_raw last
from os_string = record { line = os_string; delimiter = delimiter_of (last os_string) }

pub record CommandIter : Type 0 where
  pub line : Bytes
  pub delimiter : Delimiter
  pub position : ℕ

abbrev pub into_iter : Command → CommandIter
into_iter c = record { line = c.line; delimiter = c.delimiter; position = 0 }

module _ (m : Memchr) where
  open m use {memchr}

  -- The item, and the iterator behind the call.
  unfoldable pub next : CommandIter → Option Bytes × CommandIter
  next it =
      if leb (length it.line) it.position
      then (none, it)
      else let bytes = drop it.position it.line in
        elim (memchr (as_char it.delimiter) bytes) [
          | none ↦ (none, it)
          | some offset ↦
              (some (take offset bytes), record it { position = it.position + (offset + 1) })
        ]

  -- `collect`; `none` means that the fuel ran out.
  unfoldable pub collect : ℕ → CommandIter → Option (List Bytes)
  unfolding next
  collect zero it = none
  collect (suc fuel) it =
      let rest = collect fuel (next it).1 in
      elim (next it).0 [ none ↦ some [] | some item ↦ Option.map (λ items. item ∷ items) rest ]
