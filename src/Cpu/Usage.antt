-- ===== src/Cpu/Usage.antt =====
-- heim-cpu/src/usage.rs, over the operations on floating-point numbers that it uses.
use heim.Prelude.{ℕ, Bool, if◌then◌else◌}
use heim.Outcome.{ok, ◌>>=◌}
use heim.Common.Errors.{Result}
use heim.Cpu.Times.{CpuTime}

pub record Floats (F Ratio Instant : Type 0) : Type 0 where
  pub plus : F → F → F
  pub minus : F → F → F
  pub times : F → F → F
  pub div : F → F → F
  pub of_count : ℕ → F
  pub zero_float : F
  -- `Ratio::new`, behind the cast to `f32`
  pub ratio : F → Ratio
  pub is_zero : F → Bool
  -- `as_secs_f64` of the difference of two instants, the later one first
  pub seconds_since : Instant → Instant → F

pub record CpuUsage (F Instant : Type 0) : Type 0 where
  pub cpu_count : ℕ
  pub cpu_time : CpuTime F
  pub taken_at : Instant

module _ {F Ratio Instant : Type 0} (floats : Floats F Ratio Instant) where
  open floats use {plus, minus, times, div, of_count, zero_float, ratio, is_zero, seconds_since}

  abbrev delta_proc : CpuUsage F Instant → CpuUsage F Instant → F
  delta_proc self rhs =
      plus (minus self.cpu_time.user rhs.cpu_time.user)
        (minus self.cpu_time.system rhs.cpu_time.system)

  abbrev delta_time_secs : CpuUsage F Instant → CpuUsage F Instant → F
  delta_time_secs self rhs =
      times (seconds_since self.taken_at rhs.taken_at) (of_count self.cpu_count)

  -- `Sub::sub`
  unfoldable pub sub : CpuUsage F Instant → CpuUsage F Instant → Ratio
  sub self rhs =
      if is_zero (delta_time_secs self rhs)
      then ratio zero_float
      else ratio
          (times (div (delta_proc self rhs) (delta_time_secs self rhs)) (of_count self.cpu_count))

-- `usage`, with the results of the two futures that it joins and the instant behind them
unfoldable pub usage :
    {F Instant : Type 0} → Result (CpuTime F) → Result ℕ → Instant → Result (CpuUsage F Instant)
usage time logical_count now = do
  cpu_time ← time
  cpu_count ← logical_count
  ok (record { cpu_count = cpu_count; cpu_time = cpu_time; taken_at = now })
