-- ===== src/Process/Windows/Priority.antt =====
-- heim-process/src/os/windows/priority.rs and src/sys/windows/process/priority.rs. The text of the
-- error is left out.
use heim.Prelude.{ℕ, ◌==◌, if◌then◌else◌}
use heim.Outcome.{ok, err}
use heim.Common.Errors.{IoResult, simple, invalid_input}

pub data Priority : Type 0 where
  idle below_normal normal above_normal high real_time : Priority

-- The constants of winapi that the source names.
pub record Classes : Type 0 where
  pub above_normal_class : ℕ
  pub below_normal_class : ℕ
  pub high_class : ℕ
  pub idle_class : ℕ
  pub normal_class : ℕ
  pub realtime_class : ℕ

module _ (c : Classes) where
  -- `TryFrom<DWORD> for Priority`
  unfoldable pub try_from : ℕ → IoResult Priority
  try_from value =
      if value == c.above_normal_class
      then ok above_normal
      else if value == c.below_normal_class
      then ok below_normal
      else if value == c.high_class
      then ok high
      else if value == c.idle_class
      then ok idle
      else if value == c.normal_class
      then ok normal
      else if value == c.realtime_class
      then ok real_time
      else err (simple invalid_input)

  -- `From<Priority> for DWORD`
  abbrev pub number_of : Priority → ℕ
  number_of above_normal = c.above_normal_class
  number_of below_normal = c.below_normal_class
  number_of high = c.high_class
  number_of idle = c.idle_class
  number_of normal = c.normal_class
  number_of real_time = c.realtime_class
