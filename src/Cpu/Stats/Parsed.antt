-- ===== src/Cpu/Stats/Parsed.antt =====
-- What `CpuStats::from_str` returns for a text in the layout of /proc/stat.
use heim.Prelude.{
  ℕ, ◌+◌, ◌≤◌, ◌<◌, Bool, true, false, inl, inr, Bool-cases, Option, none, some, List, [], ◌∷◌,
  ◌++◌, map, ◌≡◌, refl, sym, ap, ◌∙◌, arith, All, Lacks, ◌==◌, if◌then◌else◌,
}
use heim.LastValue.{value_of}
use heim.Outcome.{ok}
use heim.Text.{Str, is_whitespace}
use heim.Text.Split.{lines, split}
use heim.Text.Laws.{OneLine, unlines, lines-unlines, split-append, trim_end-Solid}
use heim.Text.Number.{max_u64}
use heim.Text.Decimal.{decimal, decimal-IsDigit, parse_unsigned-decimal}
use heim.Common.Errors.{Result}
use heim.Cpu.Stats.{
  CpuStats, default, Counter, ctxt, counter_of, assign, match_parts, after, read_lines, from_str,
}
use heim.Cpu.Stats.Layout.{
  name_of, Item, behind, item_line, IsItem, get, last_value, counters, fill, get-fill, fill_others,
  digits_Solid, name_of-Lacks, counter_of-name_of, item_line-OneLine, split-behind, counter, other,
}

module _ (source : Str) where
  match_parts-counter :
      (c : Counter) (n : ℕ) (t : Option Str) (s : CpuStats) (k : ℕ)
      → n ≤ max_u64
      → match_parts source (split b' ' (item_line (counter c n t))) s k
        ≡ some (ok (assign c n s, k + 1))
  match_parts-counter c n t s k fits =
      let (solid, blank, one) = digits_Solid (decimal n) (decimal-IsDigit n) in
      let (parts, e) = split-behind (decimal n) t blank in
      rw (split-append b' ' (name_of c) (decimal n ++ behind t) (name_of-Lacks c).0) (
        rw e (
          rw (counter_of-name_of c) (
            rw (trim_end-Solid is_whitespace (decimal n) solid)
              (rw (parse_unsigned-decimal max_u64 n fits)))))

  match_parts-other :
      (name : Str) (t : Option Str) (s : CpuStats) (k : ℕ)
      → counter_of name ≡ none
      → Lacks b' ' name
      → match_parts source (split b' ' (name ++ behind t)) s k ≡ none
  match_parts-other name t s k no_counter blank =
      let (parts, e) = split-behind name t blank in rw e (rw no_counter)

  read_lines-other :
      (name : Str) (t : Option Str) (ls : List Str) (s : CpuStats) (k : ℕ)
      → IsItem (other name t)
      → read_lines source (item_line (other name t) ∷ ls) s k ≡ read_lines source ls s k
  unfolding read_lines
  read_lines-other name t ls s k (no_counter, blank, one) =
      ap
        (λ (o : Option (Result (CpuStats × ℕ))). elim o [
          | none ↦ read_lines source ls s k
          | some found ↦ after source found (read_lines source ls)
        ])
        (match_parts-other name t s k no_counter blank)

  read_lines-counter :
      (c : Counter) (n : ℕ) (t : Option Str) (ls : List Str) (s : CpuStats) (k : ℕ) (b : Bool)
      → IsItem (counter c n t)
      → (k + 1 == 3) ≡ b
      → read_lines source (item_line (counter c n t) ∷ ls) s k
        ≡ (if b then ok (assign c n s) else read_lines source ls (assign c n s) (k + 1))
  unfolding read_lines
  read_lines-counter c n t ls s k b (fits, one) e =
      ap
        (λ (o : Option (Result (CpuStats × ℕ))). elim o [
          | none ↦ read_lines source ls s k
          | some found ↦ after source found (read_lines source ls)
        ])
        (match_parts-counter c n t s k fits)
      ∙ ap
          (λ (x : Bool).
            if x then ok (assign c n s) else read_lines source ls (assign c n s) (k + 1))
          e

  -- Fewer than three counters: the loop is at the lines behind the items.
  read_short :
      (items : List Item) (ls : List Str) (s : CpuStats) (k : ℕ)
      → All IsItem items
      → k + counters items < 3
      → read_lines source (map item_line items ++ ls) s k
        ≡ read_lines source ls (fill items s) (k + counters items)
  unfolding fill
  read_short [] ls s k h n = ap (read_lines source ls s) (omega arith)
  read_short (other name t ∷ is) ls s k h n =
      read_lines-other name t (map item_line is ++ ls) s k h.0 ∙ read_short is ls s k h.1 n
  read_short (counter c v t ∷ is) ls s k h n =
      let next : (k + 1 == 3) ≡ false = ground arith in
      read_lines-counter c v t (map item_line is ++ ls) s k false h.0 next
      ∙ read_short is ls (assign c v s) (k + 1) h.1 (omega arith)
      ∙ ap (read_lines source ls _) (omega arith)

  -- Just three: the loop ends at the last of them.
  read_full :
      (items : List Item) (ls : List Str) (s : CpuStats) (k : ℕ)
      → All IsItem items
      → k < 3
      → k + counters items ≡ 3
      → read_lines source (map item_line items ++ ls) s k ≡ ok (fill items s)
  unfolding fill
  read_full [] ls s k h l n = absurd (omega arith)
  read_full (other name t ∷ is) ls s k h l n =
      read_lines-other name t (map item_line is ++ ls) s k h.0 ∙ read_full is ls s k h.1 l n
  read_full (counter c v t ∷ is) ls s k h l n = elim (Bool-cases (k + 1 == 3)) [
    | inl e ↦
        let none_left : counters is ≡ 0 = ground arith in
        read_lines-counter c v t (map item_line is ++ ls) s k true h.0 e
        ∙ ap ok (sym (fill_others is (assign c v s) none_left))
    | inr e ↦
        let more : k + 1 < 3 = ground arith in
        read_lines-counter c v t (map item_line is ++ ls) s k false h.0 e
        ∙ read_full is ls (assign c v s) (k + 1) h.1 more (omega arith)
  ]

  items-OneLine : (items : List Item) → All IsItem items → All OneLine (map item_line items)
  items-OneLine [] h = tt
  items-OneLine (i ∷ is) h = (item_line-OneLine i h.0, items-OneLine is h.1)

  get-default : (c : Counter) → get c default ≡ 0
  get-default ctxt = refl
  get-default _ = refl

  -- Let each line be one of the three keys with a number that fits a u64 behind a space, and
  -- further text behind another space or none; or a line with another first part. If three lines
  -- have one of the keys, then the text is parsed, whatever stands behind the lines, and each
  -- counter of the result is the last value that the lines have for it, or zero.
  from_str-items :
      (items : List Item) (rest : Str)
      → All IsItem items
      → counters items ≡ 3
      → (stats : CpuStats) × (from_str source (unlines (map item_line items) rest) ≡ ok stats)
        × ((c : Counter) → get c stats ≡ value_of (λ n. n) (last_value c items) 0)
  unfolding from_str
  from_str-items items rest h n = (
    fill items default,
    rw (lines-unlines (map item_line items) rest (items-OneLine items h))
        (read_full items (lines rest) default 0 h (omega arith) (omega arith)),
    λ c. get-fill c items default ∙ ap (value_of (λ n. n) (last_value c items)) (get-default c),
  )

  -- A text of lines as in `from_str-items`, of which fewer than three have one of the keys, is no
  -- error: a counter that no line has is zero in the result, and the others are the last value that
  -- the lines have for them.
  from_str_missing_counter :
      (items : List Item)
      → All IsItem items
      → counters items < 3
      → (stats : CpuStats) × (from_str source (unlines (map item_line items) []) ≡ ok stats)
        × ((c : Counter) → get c stats ≡ value_of (λ n. n) (last_value c items) 0)
  unfolding from_str read_lines lines
  from_str_missing_counter items h n = (
    fill items default,
    rw (lines-unlines (map item_line items) [] (items-OneLine items h))
        (read_short items [] default 0 h (omega arith)),
    λ c. get-fill c items default ∙ ap (value_of (λ n. n) (last_value c items)) (get-default c),
  )
