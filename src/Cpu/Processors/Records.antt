-- ===== src/Cpu/Processors/Records.antt =====
-- The counts of records that stand one behind the other.
use mathlib.Core.Option
use mathlib.Core.Path.{ap₂}
use heim.Prelude.{
  ℕ, zero, suc, ◌+◌, ◌/◌, ◌%◌, ◌^◌, ◌<◌, ◌≡◌, refl, sym, ap, ◌∙◌, arith, some, none, List, [], ◌∷◌,
  ◌++◌, append_assoc, append-nil, All, length, length-append, drop_left, leb, ltb, ◌==◌,
  if◌then◌else◌, if_true, if_false,
}
use heim.Outcome.{ok, map_ok}
use heim.Text.{Bytes}
use heim.Cpu.Processors.{
  Query, LogicalProcessorsIter, processor_at, next, tally, count, positive, get, physical_count,
}

-- A record by its relationship and what follows its head.
pub record Entry : Type 0 where
  pub relationship : ℕ
  pub body : Bytes

-- A number of 32 bits in memory
abbrev word : ℕ → Bytes → Bytes
word n rest = n % 256 ∷ n / 256 % 256 ∷ n / 65536 % 256 ∷ n / 16777216 % 256 ∷ rest

abbrev pub entry : Entry → Bytes
entry e = word e.relationship (word (length e.body + 8) e.body)

abbrev pub entries : List Entry → Bytes
entries [] = []
entries (e ∷ es) = entry e ++ entries es

abbrev pub IsEntry : Entry → Type 0
IsEntry e = (e.relationship < 2 ^ 32) × (length e.body + 8 < 2 ^ 32)

-- How many records are of the relationship.
abbrev pub cores : ℕ → List Entry → ℕ
cores processor_core [] = 0
cores processor_core (e ∷ es) =
    let n = cores processor_core es in if e.relationship == processor_core then suc n else n

abbrev at_entries : Bytes → List Entry → LogicalProcessorsIter
at_entries before es = record { bytes = before ++ entries es; offset = length before }

inside :
    (before : Bytes) (e : Entry) (es : List Entry)
    → length (before ++ entries (e ∷ es)) ≡ length before + (length (entry e) + length (entries es))
inside before e es =
    length-append before (entries (e ∷ es))
    ∙ ap (λ n. length before + n) (length-append (entry e) (entries es))

processor_at-entries :
    (before : Bytes) (e : Entry) (es : List Entry)
    → IsEntry e
    → processor_at (at_entries before (e ∷ es))
      ≡ record { relationship = e.relationship; size = length (entry e) }
processor_at-entries before e es h =
    rw (drop_left before (entries (e ∷ es)))
      (ap₂ (λ r n. record { relationship = r; size = n }) (omega arith) (omega arith))

next-entries :
    (before : Bytes) (e : Entry) (es : List Entry)
    → IsEntry e
    → next (at_entries before (e ∷ es))
      ≡ ok (
          some (
            record { relationship = e.relationship; size = length (entry e) },
            at_entries (before ++ entry e) es,
          ))
unfolding next
next-entries before e es h =
    let total = inside before e es in
    if_false {c = leb (length (before ++ entries (e ∷ es))) (length before)} _ _ (ground arith)
    ∙ if_false {c = ltb (length (before ++ entries (e ∷ es))) (length before + 8)} _ _
        (ground arith)
    ∙ ap
        (λ p.
          ok (some (p, record (at_entries before (e ∷ es)) { offset = length before + p.size })))
        (processor_at-entries before e es h)
    ∙ ap₂
        (λ offset bytes. ok (
          some (
            record { relationship = e.relationship; size = length (entry e) },
            record { offset = offset; bytes = bytes },
          )))
        (sym (length-append before (entry e))) (sym (append_assoc before (entry e) (entries es)))

next_end : (before : Bytes) → next (at_entries before []) ≡ ok none
unfolding next
next_end before =
    let total = ap length (append-nil before) in
    if_true {c = leb (length (before ++ [])) (length before)} _ _ (ground arith)

count-at_entries :
    (processor_core calls : ℕ) (before : Bytes) (es : List Entry)
    → All IsEntry es
    → length es < calls
    → count processor_core calls (at_entries before es) ≡ some (ok (cores processor_core es))
unfolding count
count-at_entries processor_core zero before es h lt = absurd (omega arith)
count-at_entries processor_core (suc calls) before [] h lt =
    ap (tally processor_core (count processor_core calls)) (next_end before)
count-at_entries processor_core (suc calls) before (e ∷ es) h lt =
    ap (tally processor_core (count processor_core calls)) (next-entries before e es h.0)
    ∙ ap (Option.map (map_ok (λ n. if e.relationship == processor_core then suc n else n)))
        (count-at_entries processor_core calls (before ++ entry e) es h.1 (omega arith))

positive-cores :
    (processor_core n : ℕ) → positive processor_core n ≡ (if n == 0 then none else some n)
positive-cores processor_core zero = refl
positive-cores processor_core (suc n) = sym (if_false {c = suc n == 0} _ _ (ground arith))

-- If the system answers with records one behind the other, the number of physical processors is that
-- of the records of a core, and there is none if no record is.
pub physical_count-entries :
    {S : Type 0} (sys : Query S) (processor_core fuel calls : ℕ) (s t : S) (es : List Entry)
    → get sys fuel s ≡ (some (ok (record { buffer = entries es })), t)
    → All IsEntry es
    → length es < calls
    → (physical_count processor_core sys fuel calls s).0
      ≡ some (ok (if cores processor_core es == 0 then none else some (cores processor_core es)))
unfolding physical_count
physical_count-entries sys processor_core fuel calls s t es e h lt = rw e (
    ap (Option.map (map_ok (positive processor_core)))
      (count-at_entries processor_core calls [] es h lt)
    ∙ ap (λ n. some (ok n)) (positive-cores processor_core (cores processor_core es)))
