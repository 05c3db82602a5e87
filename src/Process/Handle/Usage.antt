-- ===== src/Process/Handle/Usage.antt =====
-- heim-process/src/process/cpu_usage.rs, and what process/mod.rs adds to the calls that it passes on.
use heim.Prelude.{ℕ, if◌then◌else◌}
use heim.Outcome.{ok, map_err}
use heim.Common.Errors.{Result}
use heim.Runtime.Task.{Task, ready, await, ◌>>=◌}
use heim.Cpu.Usage.{Floats}
use heim.Process.Errors.{ProcessResult, from_error}
use heim.Process.System.{System, Times}
use heim.Process.Handle.{Process, CpuTime, parent_pid, get, cpu_time}

pub record CpuUsage (F Instant : Type 0) : Type 0 where
  pub cpu_count : ℕ
  pub cpu_time : CpuTime F
  pub taken_at : Instant

module _ {F Ratio Instant : Type 0} (floats : Floats F Ratio Instant) where
  open floats use {plus, minus, times, div, of_count, zero_float, ratio, is_zero, seconds_since}

  abbrev delta_proc : CpuUsage F Instant → CpuUsage F Instant → F
  delta_proc self rhs =
      plus (minus self.cpu_time.utime rhs.cpu_time.utime)
        (minus self.cpu_time.stime rhs.cpu_time.stime)

  abbrev delta_time_secs : CpuUsage F Instant → CpuUsage F Instant → F
  delta_time_secs self rhs =
      times (seconds_since self.taken_at rhs.taken_at) (of_count self.cpu_count)

  -- `Sub::sub`
  unfoldable pub sub : CpuUsage F Instant → CpuUsage F Instant → Ratio
  sub self rhs =
      if is_zero (delta_time_secs self rhs)
      then ratio zero_float
      else ratio
          (times (div (delta_proc self rhs) (delta_time_secs self rhs)) (of_count self.cpu_count))

module _ {S : Type 0} (sys : System S) {Time : Type 0} (times : Times Time) where
  -- `Process::parent`
  unfoldable pub parent : Process Time → Task S (ProcessResult (Process Time))
  unfolding parent_pid get
  parent self = do ppid ← parent_pid sys times self; get sys times ppid

  -- `Process::cpu_usage`; the two futures of the join answer in turn, the count of processors as
  -- `logical_count`, and `now` is the clock.
  unfoldable pub cpu_usage :
      {Instant : Type 0}
      → Task S (Result ℕ)
      → (S → Instant)
      → Process Time
      → Task S (ProcessResult (CpuUsage Time Instant))
  unfolding cpu_time
  cpu_usage logical_count now self = do
    time ← cpu_time sys times self
    count ← await logical_count (λ r. ready (map_err from_error r))
    λ s. (ok (record { cpu_count = count; cpu_time = time; taken_at = now s }), s)
