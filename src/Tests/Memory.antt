-- ===== src/Tests/Memory.antt =====
-- heim-memory at concrete inputs.
use heim.Prelude.{ℕ, ◌*◌, ◌≤◌, List, [], ◌∷◌, ◌≡◌, refl, arith, All}
use heim.LastValue.{value_of}
use heim.Outcome.{ok}
use heim.Text.{Str, codes, str_eq, is_whitespace}
use heim.Text.Number.{max_u64}
use heim.Memory.Meminfo.{
  Memory, Field, mem_total, mem_free, mem_available, in_buffers, in_cache, in_active, in_inactive,
  shmem, field_of, from_str,
}
use heim.Memory.Meminfo.Layout.{Item, entry, other, IsItem, render}
use heim.Memory.Meminfo.Parsed.{get, last_value, from_str-render}

abbrev bytes : ℕ → ℕ
bytes n = n * 1000

abbrev blanks : Str
blanks = codes "   "

abbrev all_items : List Item
all_items =
    entry mem_total blanks 32827236 (codes "kB")
    ∷ entry mem_free blanks 2500 (codes "kB")
    ∷ entry mem_available blanks 9000 (codes "kB")
    ∷ entry in_buffers blanks 70 (codes "kB")
    ∷ entry in_cache blanks 80 (codes "kB")
    ∷ other (codes "SwapCached") (codes " 0 kB")
    ∷ entry in_active blanks 1 (codes "kB")
    ∷ entry in_inactive blanks 2 (codes "kB")
    ∷ entry shmem blanks 3 (codes "kB")
    ∷ []

kilobytes-IsItem : (f : Field) (n : ℕ) → n ≤ max_u64 → IsItem (entry f blanks n (codes "kB"))
unfolding is_whitespace
kilobytes-IsItem f n h =
    ((refl, (refl, (refl, tt))), h, (omega arith, omega arith), (omega arith, omega arith))

all_items-IsItem : All IsItem all_items
unfolding field_of str_eq
all_items-IsItem = (
  kilobytes-IsItem mem_total 32827236 (omega arith),
  (
    kilobytes-IsItem mem_free 2500 (omega arith),
    (
      kilobytes-IsItem mem_available 9000 (omega arith),
      (
        kilobytes-IsItem in_buffers 70 (omega arith),
        (
          kilobytes-IsItem in_cache 80 (omega arith),
          (
            (
              refl,
              omega arith,
              omega arith,
              (omega arith, omega arith),
              (omega arith, omega arith),
            ),
            (
              kilobytes-IsItem in_active 1 (omega arith),
              (
                kilobytes-IsItem in_inactive 2 (omega arith),
                (kilobytes-IsItem shmem 3 (omega arith), tt),
              ),
            ),
          ),
        ),
      ),
    ),
  ),
)

from_str-render_example :
    (memory : Memory ℕ) × (from_str bytes
        (codes "/proc")
        0
        (render all_items (codes "Slab: 4 kB\n"))
      ≡ ok memory)
    × ((f : Field) → get f memory ≡ value_of bytes (last_value f all_items) 0)
from_str-render_example =
    from_str-render bytes (codes "/proc") 0 all_items (codes "Slab: 4 kB\n") all_items-IsItem refl
