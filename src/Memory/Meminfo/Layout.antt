-- ===== src/Memory/Meminfo/Layout.antt =====
-- What `Memory::from_str` returns for a text in the layout of /proc/meminfo.
use heim.Prelude.{
  ℕ, ◌+◌, ◌≤◌, Bool, true, false, inl, inr, none, some, List, [], ◌∷◌, ◌++◌, ◌≡◌, refl, ap, arith,
  All, All-append, Lacks, length, length-append, ◌==◌, Bool-cases, if◌then◌else◌,
}
use heim.Outcome.{ok}
use heim.Text.{Str, Bytes, codes, str_eq, is_whitespace, utf8}
use heim.Text.Split.{lines}
use heim.Text.Laws.{OneLine, lines-append, splitn_two}
use heim.Text.Number.{max_u64}
use heim.Text.Decimal.{decimal-OneLine, decimal}
use heim.Common.Errors.{Result}
use heim.Runtime.Fs.{FilePath}
use heim.Memory.Value.{
  first_bytes, one_of, number_text-decimal, parse_number-decimal, first_bytes_long,
}
use heim.Memory.Meminfo.{
  Memory, Field, mem_total, mem_free, mem_available, in_buffers, in_cache, in_active, in_inactive,
  shmem, field_of, first_letters, assign, Flow, go_on, return_ok, store, match_value, match_parts,
  after, read_line, read_lines,
}

abbrev pub name_of : Field → Str
name_of mem_total = codes "MemTotal"
name_of mem_free = codes "MemFree"
name_of mem_available = codes "MemAvailable"
name_of in_buffers = codes "Buffers"
name_of in_cache = codes "Cached"
name_of in_active = codes "Active"
name_of in_inactive = codes "Inactive"
name_of shmem = codes "Shmem"

-- A line of the file: one of the eight fields, or another key.
pub data Item : Type 0 where
  entry : Field → Str → ℕ → Str → Item
  other : Str → Str → Item

abbrev pub item_line : Item → Str
item_line (entry f pad n unit) = name_of f ++ b':' ∷ (pad ++ (decimal n ++ b' ' ∷ unit))
item_line (other name rest) = name ++ b':' ∷ rest

abbrev pub IsItem : Item → Type 0
IsItem (entry f pad n unit) =
    All (λ c. is_whitespace c ≡ true) pad × (n ≤ max_u64) × OneLine pad × OneLine unit
IsItem (other name rest) =
    (field_of name ≡ none) × (2 ≤ length name) × Lacks b':' name × OneLine name × OneLine rest

-- The items, a line each, and the text behind them.
abbrev pub render : List Item → Str → Str
render [] rest = rest
render (i ∷ is) rest = item_line i ++ b'\n' ∷ render is rest

name_of-Lacks : (f : Field) → Lacks b':' (name_of f) × OneLine (name_of f)
name_of-Lacks mem_total = omega arith
name_of-Lacks _ = omega arith

field_of-name_of : (f : Field) → field_of (name_of f) ≡ some f
unfolding field_of str_eq
field_of-name_of mem_total = refl
field_of-name_of _ = refl

name_of-letters :
    (f : Field) (s : Str)
    → (b : Bytes) × (first_bytes (name_of f ++ s) ≡ some b) × (one_of b first_letters ≡ true)
unfolding first_bytes utf8 str_eq
name_of-letters mem_total s = (_, refl, refl)
name_of-letters _ s = (_, refl, refl)

item_line-OneLine : (i : Item) → IsItem i → OneLine (item_line i)
item_line-OneLine (entry f pad n unit) (space, fits, (p1, p2), (u1, u2)) =
    let (d1, d2) = decimal-OneLine n in
    let (colon, (n1, n2)) = name_of-Lacks f in
    (
      All-append _ (name_of f) _ n1
          (omega arith, All-append _ pad _ p1 (All-append _ (decimal n) _ d1 (omega arith, u1))),
      All-append _ (name_of f) _ n2
          (omega arith, All-append _ pad _ p2 (All-append _ (decimal n) _ d2 (omega arith, u2))),
    )
item_line-OneLine (other name rest) (f, l, c, (n1, n2), (r1, r2)) =
    (All-append _ name _ n1 (omega arith, r1), All-append _ name _ n2 (omega arith, r2))

module _ {Information : Type 0} (kilobyte : ℕ → Information) where
  -- How the round for an entry ends.
  abbrev flow_of : Field → ℕ → Memory Information → ℕ → Flow (Memory Information)
  flow_of f n m k =
      let stored = assign f (kilobyte n) m in
      if k + 1 == 8 then return_ok stored else go_on stored (k + 1)

  read_line-entry :
      (f : Field) (pad : Str) (n : ℕ) (unit : Str) (m : Memory Information) (k : ℕ)
      → IsItem (entry f pad n unit)
      → read_line kilobyte (item_line (entry f pad n unit)) m k ≡ ok (flow_of f n m k)
  unfolding read_line
  read_line-entry f pad n unit m k (space, fits, p, u) =
      let value = pad ++ (decimal n ++ b' ' ∷ unit) in
      let (b, letters, relevant) = name_of-letters f (b':' ∷ value) in
      rw (read_line, letters)
        (rw relevant (
          rw (splitn_two b':' (name_of f) value (name_of-Lacks f).0) (
            rw (match_parts, field_of-name_of f)
              (rw (match_value, number_text-decimal pad unit n space)
                (rw (store, parse_number-decimal n fits))))))

  read_line-other :
      (name rest : Str) (m : Memory Information) (k : ℕ)
      → IsItem (other name rest)
      → read_line kilobyte (item_line (other name rest)) m k ≡ ok (go_on m k)
  unfolding read_line
  read_line-other name rest m k (no_field, long, colon, n, r) =
      let (b, letters) =
        first_bytes_long (name ++ b':' ∷ rest)
          (omega (arith, length-append {0} name (b':' ∷ rest))) in
      elim (Bool-cases (one_of b first_letters)) [
        | inl relevant ↦
            rw (read_line, letters)
              (rw relevant (rw (splitn_two b':' name rest colon) (rw (match_parts, no_field))))
        | inr ignored ↦ rw (read_line, letters) (rw ignored)
      ]

  after-ext :
      (x : Flow (Memory Information)) {p q : Memory Information → ℕ → Result (Memory Information)}
      → ((m : Memory Information) (k : ℕ) → p m k ≡ q m k)
      → after x p ≡ after x q
  after-ext (go_on m k) h = h m k
  after-ext (return_ok m) h = refl

  -- What the loop makes of the items, and of the lines `behind` them.
  abbrev pub run :
      List Item
      → (Memory Information → ℕ → Result (Memory Information))
      → Memory Information
      → ℕ
      → Result (Memory Information)
  run [] behind m k = behind m k
  run (other name rest ∷ is) behind m k = run is behind m k
  run (entry f pad n unit ∷ is) behind m k = after (flow_of f n m k) (run is behind)

  pub run-entry :
      (f : Field) (pad : Str) (n : ℕ) (unit : Str) (is : List Item)
      (behind : Memory Information → ℕ → Result (Memory Information)) (m : Memory Information)
      (k : ℕ) (b : Bool)
      → (k + 1 == 8) ≡ b
      → run (entry f pad n unit ∷ is) behind m k ≡ (
          if b
          then ok (assign f (kilobyte n) m)
          else run is behind (assign f (kilobyte n) m) (k + 1))
  run-entry f pad n unit is behind m k true h =
      ap
        (λ b.
          after
            (if b
              then return_ok (assign f (kilobyte n) m)
              else go_on (assign f (kilobyte n) m) (k + 1))
            (run is behind))
        h
  run-entry f pad n unit is behind m k false h =
      ap
        (λ b.
          after
            (if b
              then return_ok (assign f (kilobyte n) m)
              else go_on (assign f (kilobyte n) m) (k + 1))
            (run is behind))
        h

  pub read_lines-render :
      (root : FilePath) (items : List Item) (rest : Str) (m : Memory Information) (k : ℕ)
      → All IsItem items
      → read_lines kilobyte root (lines (render items rest)) m k
        ≡ run items (read_lines kilobyte root (lines rest)) m k
  unfolding read_lines
  read_lines-render root [] rest m k h = refl
  read_lines-render root (entry f pad n unit ∷ is) rest m k h =
      let (a, b) = item_line-OneLine (entry f pad n unit) h.0 in
      rw (lines-append (item_line (entry f pad n unit)) (render is rest) a b) (
        rw (read_line-entry f pad n unit m k h.0)
          (after-ext (flow_of f n m k) (λ x j. read_lines-render root is rest x j h.1)))
  read_lines-render root (other name text ∷ is) rest m k h =
      let (a, b) = item_line-OneLine (other name text) h.0 in
      rw (lines-append (item_line (other name text)) (render is rest) a b)
        (rw (read_line-other name text m k h.0) (read_lines-render root is rest m k h.1))
