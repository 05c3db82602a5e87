-- ===== src/Cpu/Stats/Layout.antt =====
-- Texts in the layout of /proc/stat.
use heim.Prelude.{
  ℕ, ◌+◌, ◌≤◌, false, Option, none, some, List, [], ◌∷◌, ◌++◌, append-nil, ◌≡◌, refl, ap, ◌∙◌,
  arith, All, All-append, Lacks, if◌then◌else◌,
}
use heim.LastValue.{later, value_of, value_of-later}
use heim.Text.{Str, codes, str_eq, is_whitespace}
use heim.Text.Split.{split}
use heim.Text.Laws.{OneLine, split-append, split_whole}
use heim.Text.Number.{max_u64}
use heim.Text.Decimal.{decimal, IsDigit, decimal-IsDigit}
use heim.Cpu.Stats.{CpuStats, Counter, ctxt, intr, softirq, counter_of, assign}

abbrev pub name_of : Counter → Str
name_of ctxt = codes "ctxt"
name_of intr = codes "intr"
name_of softirq = codes "softirq"

-- A line: one of the counters with its value, and further numbers if there are any; or another key.
pub data Item : Type 0 where
  counter : Counter → ℕ → Option Str → Item
  other : Str → Option Str → Item

abbrev pub behind : Option Str → Str
behind none = []
behind (some t) = b' ' ∷ t

abbrev pub item_line : Item → Str
item_line (counter c n t) = name_of c ++ b' ' ∷ (decimal n ++ behind t)
item_line (other name t) = name ++ behind t

abbrev pub IsItem : Item → Type 0
IsItem (counter c n t) = (n ≤ max_u64) × OneLine (behind t)
IsItem (other name t) = (counter_of name ≡ none) × Lacks b' ' name × OneLine (name ++ behind t)

abbrev pub get : Counter → CpuStats → ℕ
get ctxt s = s.ctx_switches
get intr s = s.interrupts
get softirq s = s.soft_interrupts

-- The last value that the items have for a counter.
abbrev pub last_value : Counter → List Item → Option ℕ
last_value c [] = none
last_value c (other name t ∷ is) = last_value c is
last_value c (counter d n t ∷ is) =
    later (last_value c is) (if str_eq (name_of c) (name_of d) then some n else none)

-- The number of lines with a counter.
abbrev pub counters : List Item → ℕ
counters [] = 0
counters (counter c n t ∷ is) = 1 + counters is
counters (other name t ∷ is) = counters is

get-assign :
    (c d : Counter) (v : ℕ) (s : CpuStats)
    → get c (assign d v s) ≡ (if str_eq (name_of c) (name_of d) then v else get c s)
unfolding str_eq
get-assign ctxt ctxt v s = refl
get-assign ctxt _ v s = refl
get-assign intr ctxt v s = refl
get-assign intr _ v s = refl
get-assign softirq ctxt v s = refl
get-assign softirq _ v s = refl

-- The statistics after the items.
unfoldable pub fill : List Item → CpuStats → CpuStats
fill [] s = s
fill (counter c n t ∷ is) s = fill is (assign c n s)
fill (other name t ∷ is) s = fill is s

pub get-fill :
    (c : Counter) (items : List Item) (s : CpuStats)
    → get c (fill items s) ≡ value_of (λ n. n) (last_value c items) (get c s)
unfolding fill
get-fill c [] s = refl
get-fill c (other name t ∷ is) s = get-fill c is s
get-fill c (counter d n t ∷ is) s =
    get-fill c is (assign d n s)
    ∙ ap (value_of (λ n. n) (last_value c is)) (get-assign c d n s)
    ∙ value_of-later (λ n. n) (last_value c is) (str_eq (name_of c) (name_of d)) n (get c s)

pub fill_others : (items : List Item) (s : CpuStats) → counters items ≡ 0 → fill items s ≡ s
unfolding fill
fill_others [] s h = refl
fill_others (other name t ∷ is) s h = fill_others is s h
fill_others (counter c n t ∷ is) s h = absurd (omega arith)

pub digits_Solid :
    (s : Str) → All IsDigit s → All (λ c. is_whitespace c ≡ false) s × Lacks b' ' s × OneLine s
unfolding is_whitespace
digits_Solid [] h = (tt, tt, (tt, tt))
digits_Solid (c ∷ s) h =
    let (a, b, (d, e)) = digits_Solid s h.1 in
    let solid : is_whitespace c ≡ false = ground arith in
    ((solid, a), (omega arith, b), ((omega arith, d), (omega arith, e)))

pub name_of-Lacks : (c : Counter) → Lacks b' ' (name_of c) × OneLine (name_of c)
name_of-Lacks ctxt = omega arith
name_of-Lacks _ = omega arith

pub counter_of-name_of : (c : Counter) → counter_of (name_of c) ≡ some c
unfolding counter_of str_eq
counter_of-name_of ctxt = refl
counter_of-name_of _ = refl

pub item_line-OneLine : (i : Item) → IsItem i → OneLine (item_line i)
item_line-OneLine (counter c n t) (fits, (t1, t2)) =
    let (a, b, (d1, d2)) = digits_Solid (decimal n) (decimal-IsDigit n) in
    let (blank, (n1, n2)) = name_of-Lacks c in
    (
      All-append _ (name_of c) _ n1 (omega arith, All-append _ (decimal n) _ d1 t1),
      All-append _ (name_of c) _ n2 (omega arith, All-append _ (decimal n) _ d2 t2),
    )
item_line-OneLine (other name t) (f, l, one) = one

-- The first part of a line, and those behind it.
pub split-behind :
    (name : Str) (t : Option Str)
    → Lacks b' ' name
    → (parts : List Str) × (split b' ' (name ++ behind t) ≡ name ∷ parts)
split-behind name none h = ([], rw append-nil (split_whole b' ' name h))
split-behind name (some t) h = (split b' ' t, split-append b' ' name t h)
