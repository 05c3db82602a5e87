-- ===== src/Memory/Meminfo/Parsed.antt =====
-- `Memory::from_str` on a text in the layout of /proc/meminfo: with the eight fields, with fewer, and
-- with a blank line.
use heim.Prelude.{
  ℕ, ◌+◌, ◌<◌, true, false, inl, inr, Option, none, some, List, [], ◌∷◌, ◌≡◌, refl, sym, ap, ◌∙◌,
  arith, All, ◌==◌, Bool-cases, if◌then◌else◌,
}
use heim.LastValue.{later, value_of, value_of-later}
use heim.Outcome.{ok, err, panic}
use heim.Text.{Str, str_eq}
use heim.Text.Split.{lines}
use heim.Common.Errors.{Result}
use heim.Runtime.Fs.{FilePath}
use heim.Memory.Value.{first_bytes}
use heim.Memory.Meminfo.{
  Memory, Field, mem_total, mem_free, mem_available, in_buffers, in_cache, in_active, in_inactive,
  shmem, assign, read_line, incomplete, read_lines, empty, from_str,
}
use heim.Memory.Meminfo.Layout.{
  name_of, Item, entry, other, IsItem, render, run, run-entry, read_lines-render,
}

-- The number of lines with one of the eight keys.
abbrev pub entries : List Item → ℕ
entries [] = 0
entries (entry f pad n unit ∷ is) = 1 + entries is
entries (other name rest ∷ is) = entries is

-- The last value that the items have for a field.
abbrev pub last_value : Field → List Item → Option ℕ
last_value f [] = none
last_value f (other name rest ∷ is) = last_value f is
last_value f (entry g pad n unit ∷ is) =
    later (last_value f is) (if str_eq (name_of f) (name_of g) then some n else none)

abbrev pub get : {Information : Type 0} → Field → Memory Information → Information
get mem_total m = m.total
get mem_free m = m.free
get mem_available m = m.available
get in_buffers m = m.buffers
get in_cache m = m.cached
get in_active m = m.active
get in_inactive m = m.inactive
get shmem m = m.shared

get-assign :
    {Information : Type 0} (f g : Field) (v : Information) (m : Memory Information)
    → get f (assign g v m) ≡ (if str_eq (name_of f) (name_of g) then v else get f m)
unfolding str_eq
get-assign mem_total mem_total v m = refl
get-assign mem_total _ v m = refl
get-assign mem_free mem_total v m = refl
get-assign mem_free _ v m = refl
get-assign mem_available mem_total v m = refl
get-assign mem_available _ v m = refl
get-assign in_buffers mem_total v m = refl
get-assign in_buffers _ v m = refl
get-assign in_cache mem_total v m = refl
get-assign in_cache _ v m = refl
get-assign in_active mem_total v m = refl
get-assign in_active _ v m = refl
get-assign in_inactive mem_total v m = refl
get-assign in_inactive _ v m = refl
get-assign shmem mem_total v m = refl
get-assign shmem _ v m = refl

module _ {Information : Type 0} (kilobyte : ℕ → Information) where
  -- The record after the items.
  fill : List Item → Memory Information → Memory Information
  fill [] m = m
  fill (entry f pad n unit ∷ is) m = fill is (assign f (kilobyte n) m)
  fill (other name rest ∷ is) m = fill is m

  get-fill :
      (f : Field) (items : List Item) (m : Memory Information)
      → get f (fill items m) ≡ value_of kilobyte (last_value f items) (get f m)
  unfolding fill
  get-fill f [] m = refl
  get-fill f (other name rest ∷ is) m = get-fill f is m
  get-fill f (entry g pad n unit ∷ is) m =
      get-fill f is (assign g (kilobyte n) m)
      ∙ ap (value_of kilobyte (last_value f is)) (get-assign f g (kilobyte n) m)
      ∙ value_of-later kilobyte (last_value f is) (str_eq (name_of f) (name_of g)) n (get f m)

  get-empty :
      (root : FilePath) (default : Information) (f : Field)
      → get f (empty kilobyte root default) ≡ default
  get-empty root default mem_total = refl
  get-empty root default _ = refl

  -- Fewer than eight entries: the loop is at the lines behind them.
  run_short :
      (items : List Item) (behind : Memory Information → ℕ → Result (Memory Information))
      (m : Memory Information) (k : ℕ)
      → k + entries items < 8
      → run kilobyte items behind m k ≡ behind (fill items m) (k + entries items)
  unfolding fill
  run_short [] behind m k h = ap (behind m) (omega arith)
  run_short (other name rest ∷ is) behind m k h = run_short is behind m k h
  run_short (entry f pad n unit ∷ is) behind m k h =
      let next : (k + 1 == 8) ≡ false = ground arith in
      run-entry kilobyte f pad n unit is behind m k false next
      ∙ run_short is behind (assign f (kilobyte n) m) (k + 1) (omega arith)
      ∙ ap (behind _) (omega arith)

  -- Just eight: the loop returns at the last of them, and the other items change nothing.
  fill_others : (items : List Item) (m : Memory Information) → entries items ≡ 0 → fill items m ≡ m
  unfolding fill
  fill_others [] m h = refl
  fill_others (other name rest ∷ is) m h = fill_others is m h
  fill_others (entry f pad n unit ∷ is) m h = absurd (omega arith)

  run_full :
      (items : List Item) (behind : Memory Information → ℕ → Result (Memory Information))
      (m : Memory Information) (k : ℕ)
      → k < 8
      → k + entries items ≡ 8
      → run kilobyte items behind m k ≡ ok (fill items m)
  unfolding fill
  run_full [] behind m k l h = absurd (omega arith)
  run_full (other name rest ∷ is) behind m k l h = run_full is behind m k l h
  run_full (entry f pad n unit ∷ is) behind m k l h = elim (Bool-cases (k + 1 == 8)) [
    | inl e ↦
        let none_left : entries is ≡ 0 = ground arith in
        run-entry kilobyte f pad n unit is behind m k true e
        ∙ ap ok (sym (fill_others is (assign f (kilobyte n) m) none_left))
    | inr e ↦
        let more : k + 1 < 8 = ground arith in
        run-entry kilobyte f pad n unit is behind m k false e
        ∙ run_full is behind (assign f (kilobyte n) m) (k + 1) more (omega arith)
  ]

  module _ (root : FilePath) (default : Information) where
    -- Let each line be one of the eight keys with white space, a number that fits a u64, a space
    -- and a unit behind its colon, or another key of two characters or more with any text. If eight
    -- lines have one of the eight keys, then the text is parsed, whatever stands behind the lines,
    -- and each field of the result has the last value that the lines have for it, in kilobytes, or
    -- the default.
    pub from_str-render :
        (items : List Item) (rest : Str)
        → All IsItem items
        → entries items ≡ 8
        → (memory : Memory Information) × (from_str kilobyte root default (render items rest)
            ≡ ok memory)
          × ((f : Field) → get f memory ≡ value_of kilobyte (last_value f items) default)
    unfolding from_str
    from_str-render items rest h n = (
      fill items (empty kilobyte root default),
      read_lines-render kilobyte root items rest (empty kilobyte root default) 0 h
          ∙ run_full items _ (empty kilobyte root default) 0 (omega arith) (omega arith),
      λ f.
          get-fill f items (empty kilobyte root default)
          ∙ ap (value_of kilobyte (last_value f items)) (get-empty root default f),
    )

    -- A text of lines as in `from_str-render`, of which fewer than eight have one of the eight
    -- keys, is refused with an error of kind `InvalidData` that names the file.
    from_str-incomplete :
        (items : List Item)
        → All IsItem items
        → entries items < 8
        → from_str kilobyte root default (render items []) ≡ err (incomplete kilobyte root)
    unfolding from_str lines read_lines
    from_str-incomplete items h n =
        read_lines-render kilobyte root items [] (empty kilobyte root default) 0 h
        ∙ run_short items _ (empty kilobyte root default) 0 (omega arith)

    -- Lines as in `from_str-render`, of which fewer than eight have one of the eight keys, and then
    -- a blank line: the slice of its first two bytes panics, whatever follows.
    from_str-blank_line :
        (items : List Item) (rest : Str)
        → All IsItem items
        → entries items < 8
        → from_str kilobyte root default (render items (b'\n' ∷ rest)) ≡ panic
    unfolding from_str lines read_lines read_line first_bytes
    from_str-blank_line items rest h n =
        read_lines-render kilobyte root items (b'\n' ∷ rest) (empty kilobyte root default) 0 h
        ∙ run_short items _ (empty kilobyte root default) 0 (omega arith)
