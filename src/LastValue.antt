-- ===== src/LastValue.antt =====
-- The value that a parser leaves in a field: that of the last line that has the field's key.
use heim.Prelude.{ℕ, Bool, true, false, Option, none, some, ◌≡◌, refl, if◌then◌else◌}

abbrev pub later : Option ℕ → Option ℕ → Option ℕ
later (some x) y = some x
later none y = y

-- The field that was `old` before the lines, if `x` is the last value that they have for it.
abbrev pub value_of {ℓ} : {A : Type ℓ} → (ℕ → A) → Option ℕ → A → A
value_of f none old = old
value_of f (some n) old = f n

pub value_of-later {ℓ} :
    {A : Type ℓ} (f : ℕ → A) (x : Option ℕ) (b : Bool) (n : ℕ) (old : A)
    → value_of f x (if b then f n else old) ≡ value_of f (later x (if b then some n else none)) old
value_of-later f none true n old = refl
value_of-later f none false n old = refl
value_of-later f (some x) b n old = refl
