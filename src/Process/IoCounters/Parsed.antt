-- ===== src/Process/IoCounters/Parsed.antt =====
-- What `IoCounters::from_str` returns for a text in the layout of /proc/[pid]/io.
use heim.Prelude.{
  ℕ, ◌≤◌, Option, none, some, List, [], ◌∷◌, ◌++◌, map, ◌≡◌, ◌≢◌, refl, ap, ◌∙◌, arith, All,
  if◌then◌else◌,
}
use heim.LastValue.{later, value_of, value_of-later}
use heim.Outcome.{ok, err}
use heim.Text.{Str, codes, str_eq, is_ascii_whitespace}
use heim.Text.Split.{lines, words}
use heim.Text.Laws.{
  OneLine, OneLine-append, OneLine-cons, unlines, lines-unlines, Solid, words_last,
}
use heim.Text.Number.{max_u64}
use heim.Text.Decimal.{
  decimal, decimal-IsDigit, decimal-ne-nil, decimal-OneLine, parse_unsigned-decimal,
}
use heim.Common.Iter.{end_of_input}
use heim.Process.Statm.{digits_Solid, words-word}
use heim.Process.IoCounters.{
  IoCounters, default, Counter, in_rchar, in_wchar, in_syscr, in_syscw, in_read, in_write,
  in_cancelled, counter_of, assign, read_lines, from_str,
}

abbrev pub name_of : Counter → Str
name_of in_rchar = codes "rchar:"
name_of in_wchar = codes "wchar:"
name_of in_syscr = codes "syscr:"
name_of in_syscw = codes "syscw:"
name_of in_read = codes "read_bytes:"
name_of in_write = codes "write_bytes:"
name_of in_cancelled = codes "cancelled_write_bytes:"

abbrev pub Entry : Type 0
Entry = Counter × ℕ

abbrev pub entry_line : Entry → Str
entry_line e = name_of e.0 ++ b' ' ∷ decimal e.1

abbrev pub get : Counter → IoCounters → ℕ
get in_rchar c = c.rchar
get in_wchar c = c.wchar
get in_syscr c = c.syscr
get in_syscw c = c.syscw
get in_read c = c.read_bytes
get in_write c = c.write_bytes
get in_cancelled c = c.cancelled_write_bytes

-- The last value that the entries have for a counter.
abbrev pub last_value : Counter → List Entry → Option ℕ
last_value c [] = none
last_value c (e ∷ es) =
    later (last_value c es) (if str_eq (name_of c) (name_of e.0) then some e.1 else none)

get-assign :
    (c d : Counter) (v : ℕ) (s : IoCounters)
    → get c (assign d v s) ≡ (if str_eq (name_of c) (name_of d) then v else get c s)
unfolding str_eq
get-assign in_rchar in_rchar v s = refl
get-assign in_rchar _ v s = refl
get-assign in_wchar in_rchar v s = refl
get-assign in_wchar _ v s = refl
get-assign in_syscr in_rchar v s = refl
get-assign in_syscr _ v s = refl
get-assign in_syscw in_rchar v s = refl
get-assign in_syscw _ v s = refl
get-assign in_read in_rchar v s = refl
get-assign in_read _ v s = refl
get-assign in_write in_rchar v s = refl
get-assign in_write _ v s = refl
get-assign in_cancelled in_rchar v s = refl
get-assign in_cancelled _ v s = refl

fill : List Entry → IoCounters → IoCounters
fill [] s = s
fill (e ∷ es) s = fill es (assign e.0 e.1 s)

get-fill :
    (c : Counter) (es : List Entry) (s : IoCounters)
    → get c (fill es s) ≡ value_of (λ n. n) (last_value c es) (get c s)
unfolding fill
get-fill c [] s = refl
get-fill c (e ∷ es) s =
    get-fill c es (assign e.0 e.1 s)
    ∙ ap (value_of (λ n. n) (last_value c es)) (get-assign c e.0 e.1 s)
    ∙ value_of-later (λ n. n) (last_value c es) (str_eq (name_of c) (name_of e.0)) e.1 (get c s)

get-default : (c : Counter) → get c default ≡ 0
get-default in_rchar = refl
get-default _ = refl

counter_of-name_of : (c : Counter) → counter_of (name_of c) ≡ some c
unfolding counter_of str_eq
counter_of-name_of in_rchar = refl
counter_of-name_of _ = refl

name_of-Solid : (c : Counter) → (name_of c ≢ []) × Solid is_ascii_whitespace (name_of c)
unfolding is_ascii_whitespace
name_of-Solid in_rchar = (λ e. cc, ground arith)
name_of-Solid _ = (λ e. cc, ground arith)

words_whole :
    (t : Str) → t ≢ [] → Solid is_ascii_whitespace t → words is_ascii_whitespace t ≡ t ∷ []
words_whole [] ne h = absurd (ne refl)
words_whole (c ∷ t) ne h = words_last is_ascii_whitespace c t h

words-entry_line :
    (e : Entry) → words is_ascii_whitespace (entry_line e) ≡ name_of e.0 ∷ decimal e.1 ∷ []
words-entry_line (c, n) =
    let (ne, solid) = name_of-Solid c in
    words-word (name_of c) (decimal n) ne solid
    ∙ ap (λ w. name_of c ∷ w)
        (words_whole (decimal n) (decimal-ne-nil n) (digits_Solid (decimal n) (decimal-IsDigit n)))

entry_line-OneLine : (e : Entry) → OneLine (entry_line e)
entry_line-OneLine (c, n) =
    OneLine-append (name_of c) (b' ' ∷ decimal n) (named c)
      (OneLine-cons b' ' (decimal n) (omega arith) (omega arith) (decimal-OneLine n))
  where
    named : (c : Counter) → OneLine (name_of c)
    named in_rchar = omega arith
    named _ = omega arith

entries-OneLine : (es : List Entry) → All OneLine (map entry_line es)
entries-OneLine [] = tt
entries-OneLine (e ∷ es) = (entry_line-OneLine e, entries-OneLine es)

read_lines-entries :
    (es : List Entry) (ls : List Str) (s : IoCounters)
    → All (λ e. e.1 ≤ max_u64) es
    → read_lines (map entry_line es ++ ls) s ≡ read_lines ls (fill es s)
unfolding fill read_lines
read_lines-entries [] ls s h = refl
read_lines-entries ((c, n) ∷ es) ls s h = rw (words-entry_line (c, n)) (
    rw (counter_of-name_of c)
      (rw (parse_unsigned-decimal max_u64 n h.0) (read_lines-entries es ls (assign c n s) h.1)))

-- A text of lines with one of the seven keys and a number that fits a u64 each, in any order, is
-- parsed, and each counter of the result is the last value that the text has for it, or zero.
from_str-entry_line :
    (es : List Entry)
    → All (λ e. e.1 ≤ max_u64) es
    → (counters : IoCounters) × (from_str (unlines (map entry_line es) []) ≡ ok counters)
      × ((c : Counter) → get c counters ≡ value_of (λ n. n) (last_value c es) 0)
unfolding from_str read_lines lines
from_str-entry_line es h = (
  fill es default,
  rw (lines-unlines (map entry_line es) [] (entries-OneLine es))
      (read_lines-entries es [] default h),
  λ c. get-fill c es default ∙ ap (value_of (λ n. n) (last_value c es)) (get-default c),
)

-- A text of lines with one of the seven keys and a number that fits a u64 each, and then a blank
-- line, is refused with an error of kind `InvalidData`, whatever follows.
from_str_blank_line :
    (es : List Entry) (rest : Str)
    → All (λ e. e.1 ≤ max_u64) es
    → from_str (unlines (map entry_line es) (b'\n' ∷ rest)) ≡ err end_of_input
unfolding from_str read_lines lines words
from_str_blank_line es rest h =
    rw (lines-unlines (map entry_line es) (b'\n' ∷ rest) (entries-OneLine es))
      (read_lines-entries es ([] ∷ lines rest) default h)
