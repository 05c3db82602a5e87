-- ===== src/Process/Handle/Slot.antt =====
-- The history of one process number: the process that has it, if any, is a name and a line of
-- procfs, and another one can follow when it is gone. The kernel does not give a number out again
-- within the clock tick in which it gave it out before.
use heim.Prelude.{
  ℕ, suc, ◌≤◌, ◌<◌, ◌≡◌, refl, sym, ap, ◌∙◌, arith, ◌↔◌, ◌⊎◌, inl, inr, Option, none, some, Lacks,
}
use heim.Text.{Str}
use heim.Process.Stat.{Status}
use heim.Process.Stat.Layout.{Fields, IsFields}

-- What the line of a process tells.
pub record Entry : Type 0 where
  pub name : Str
  pub state : Status
  pub fields : Fields
  pub more : Str

pub record IsEntry (e : Entry) : Type 0 where
  pub fields_fit : IsFields e.fields
  pub more_fits : Lacks b')' e.more

abbrev pub start : Entry → ℕ
start e = e.fields.start_time

-- `fresh` is the first tick in which the number can be given out again; `generation` counts how
-- often it was given out.
pub record Slot : Type 0 where
  pub holder : Option Entry
  pub clock : ℕ
  pub fresh : ℕ
  pub generation : ℕ

pub data Step (s : Slot) : Slot → Type 0 where
  passes : Step s (record s { clock = suc s.clock })
  exits : Step s (record s { holder = none })
  changes :
      (e d : Entry) → s.holder ≡ some e → start d ≡ start e → Step s (record s { holder = some d })
  starts :
      (e : Entry)
      → s.holder ≡ none
      → start e ≡ s.clock
      → s.fresh ≤ s.clock
      → Step s (record {
        holder = some e;
        clock = s.clock;
        fresh = suc s.clock;
        generation = suc s.generation;
      })

pub data Steps (s : Slot) : Slot → Type 0 where
  here : Steps s s
  next : {t u : Slot} → Steps s t → Step t u → Steps s u

-- The process that has the number was started before the number is fresh again.
abbrev pub IsSlot : Slot → Type 0
IsSlot s = (e : Entry) → s.holder ≡ some e → start e < s.fresh

-- The process that has the number at `t` is the one that had it at `s`, or a later one.
abbrev Holds : Slot → Slot → Entry → Type 0
Holds s t e =
    ((t.generation ≡ s.generation) × (d : Entry) × (s.holder ≡ some d) × (start d ≡ start e))
    ⊎ ((s.generation < t.generation) × (s.fresh ≤ start e))

record Since (s t : Slot) : Type 0 where
  generation_grows : s.generation ≤ t.generation
  fresh_grows : s.fresh ≤ t.fresh
  holds : (e : Entry) → t.holder ≡ some e → Holds s t e

abbrev start_of : Option Entry → ℕ
start_of none = 0
start_of (some e) = start e

Holds-start : (s t : Slot) (e d : Entry) → Holds s t e → start d ≡ start e → Holds s t d
Holds-start s t e d (inl (same, x, r, z)) q = inl (same, x, r, z ∙ sym q)
Holds-start s t e d (inr (later, fresh)) q = inr (later, omega arith)

Since-Step : (s t u : Slot) → Since s t → Step t u → Since s u
Since-Step s t _ h passes = record {
  generation_grows = h.generation_grows;
  fresh_grows = h.fresh_grows;
  holds = h.holds;
}
Since-Step s t _ h exits = record {
  generation_grows = h.generation_grows;
  fresh_grows = h.fresh_grows;
  holds = λ e q. ground arith;
}
Since-Step s t _ h (changes e d p q) = record {
  generation_grows = h.generation_grows;
  fresh_grows = h.fresh_grows;
  holds = λ e' r. Holds-start s t e e' (h.holds e p) (sym (ap start_of r) ∙ q);
}
Since-Step s t _ h (starts e p q f) = record {
  generation_grows = ground (arith, h.generation_grows);
  fresh_grows = ground (arith, h.fresh_grows);
  holds = λ e' r.
      let same : start e ≡ start e' = ap start_of r in
      inr (omega (arith, h.generation_grows), omega (arith, h.fresh_grows, q, f, same));
}

since : (s t : Slot) → Steps s t → Since s t
since s _ here = record {
  generation_grows = omega arith;
  fresh_grows = omega arith;
  holds = λ e h. inl (refl, e, h, refl);
}
since s _ (next {t} {u} steps step) = Since-Step s t u (since s t steps) step

-- A process that has the number later but is another one was started at another tick.
pub restarted :
    (s t : Slot) (d e : Entry)
    → IsSlot s
    → Steps s t
    → s.holder ≡ some d
    → t.holder ≡ some e
    → (start e ≡ start d) ↔ (t.generation ≡ s.generation)
restarted s t d e is_slot steps p q =
    let before : start d < s.fresh = is_slot d p in
    elim ((since s t steps).holds e q) [
      | inl (same, d', r, z) ↦ (λ _. same, λ _. sym z ∙ ap start_of (sym r ∙ p))
      | inr (later, fresh) ↦ (λ z. omega arith, λ z. omega arith)
    ]
