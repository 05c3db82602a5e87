-- ===== src/Cpu/Times/Parsed.antt =====
-- What `CpuTime::from_str` returns for a line in the layout of /proc/stat.
use heim.Prelude.{ℕ, ◌≡◌, some, List, [], ◌∷◌, ◌++◌, map}
use heim.Outcome.{Outcome, ok}
use heim.Text.{Str}
use heim.Text.Layout.{padded, IsWord, words-padded, decimals-IsWord}
use heim.Text.Decimal.{decimal}
use heim.Common.Errors.{ParseFloatError}
use heim.Cpu.Times.{from_str, read_parts}

-- The numbers of a line, in clock ticks.
pub record Ticks : Type 0 where
  pub user : ℕ
  pub nice : ℕ
  pub system : ℕ
  pub idle : ℕ
  pub io_wait : ℕ
  pub irq : ℕ
  pub soft_irq : ℕ
  pub steal : ℕ
  pub guest : ℕ
  pub guest_nice : ℕ

abbrev pub numbers_of : Ticks → List ℕ
numbers_of t =
    t.user ∷ t.nice ∷ t.system ∷ t.idle ∷ t.io_wait ∷ t.irq ∷ t.soft_irq ∷ t.steal ∷ t.guest
    ∷ t.guest_nice ∷ []

-- A line: the name of the processor, the numbers, and further ones if there are any.
abbrev pub parts_of : Str → Ticks → List ℕ → List Str
parts_of name t more = name ∷ map decimal (numbers_of t ++ more)

module _ {Time : Type 0} (zero_time : Time) (parse : Str → Outcome ParseFloatError Time)
    (seconds : ℕ → Time) (parse-decimal : (n : ℕ) → parse (decimal n) ≡ ok (seconds n)) where
  -- The times of a line are read in their order, whatever the blanks between them, and further
  -- numbers are passed over, given that a natural number is parsed.
  from_str-Ticks :
      (gap : ℕ → ℕ) (name : Str) (t : Ticks) (more : List ℕ)
      → IsWord name
      → from_str zero_time parse (padded gap (parts_of name t more))
        ≡ ok (record {
          user = seconds t.user;
          nice = seconds t.nice;
          system = seconds t.system;
          idle = seconds t.idle;
          io_wait = seconds t.io_wait;
          irq = seconds t.irq;
          soft_irq = seconds t.soft_irq;
          steal = seconds t.steal;
          guest = some (seconds t.guest);
          guest_nice = some (seconds t.guest_nice);
        })
  unfolding from_str read_parts
  from_str-Ticks gap name t [] h =
      rw (words-padded gap (parts_of name t []) (h, decimals-IsWord (numbers_of t)))
        (simp (parse-decimal))
  from_str-Ticks gap name t (n ∷ more) h =
      rw
        (words-padded gap (parts_of name t (n ∷ more))
          (h, decimals-IsWord (numbers_of t ++ n ∷ more)))
        (simp (parse-decimal))
