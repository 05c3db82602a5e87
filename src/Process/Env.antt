-- ===== src/Process/Env.antt =====
-- heim-process/src/sys/unix/env.rs: the environment of a process, from the bytes of its `environ`.
pub mod RoundTrip
use mathlib.Core.Option
use heim.Prelude.{
  ℕ, zero, suc, ◌+◌, Option, none, some, List, [], ◌∷◌, ◌++◌, length, take, drop, ◌==◌,
  if◌then◌else◌,
}
use heim.Text.{Bytes}
use heim.Memchr.{Memchr}

-- `Environment`, and what its three iterators yield in turn.
pub record Environment : Type 0 where
  pub pairs : List (Bytes × Bytes)

module _ (m : Memchr) where
  open m use {memchr}

  -- The `=` is looked for behind the first byte.
  unfoldable pub split_pair : Bytes → Option (Bytes × Bytes)
  split_pair kv =
      Option.map (λ delimiter. (take (suc delimiter) kv, drop (suc (suc delimiter)) kv))
        (memchr b'=' (drop 1 kv))

  -- What `result.push` adds for one entry.
  abbrev push_pair : Option (Bytes × Bytes) → List (Bytes × Bytes) → List (Bytes × Bytes)
  push_pair none result = result
  push_pair (some pair) result = result ++ pair ∷ []

  -- The loop over `&bytes[position..]`; `none` means that the fuel ran out.
  unfoldable pub parse : ℕ → Bytes → List (Bytes × Bytes) → Option Environment
  unfolding split_pair
  parse zero bytes result = none
  parse (suc fuel) bytes result = elim (memchr 0 bytes) [
    | none ↦ some (record { pairs = result })
    | some offset ↦
        let next =
          parse fuel (drop (suc offset) bytes)
            (push_pair (split_pair (take offset bytes)) result) in
        if offset == 0 then some (record { pairs = result }) else next
  ]

  -- `Environment::from_bytes`, with a round for each byte and one more.
  unfoldable pub from_bytes : Bytes → Option Environment
  unfolding parse
  from_bytes bytes = parse (suc (length bytes)) bytes []
