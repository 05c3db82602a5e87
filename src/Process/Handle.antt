-- ===== src/Process/Handle.antt =====
-- heim-process/src/sys/linux/process/mod.rs, sys/linux/pids.rs and sys/common.rs: a process, what is
-- asked of it and the signals that it is sent.
pub mod Slot
pub mod Signals
pub mod Paths
pub mod All
pub mod Names
pub mod NetCounters
pub mod Usage
use heim.Prelude.{ℕ, Option, Bool, true, false, ◌&&◌, [], ◌∷◌, if◌then◌else◌}
use heim.Outcome.{ok, err, panic, map_ok}
use heim.Common.Errors.{ℤ}
use heim.Common.Errors
use heim.Runtime.Task.{Task, ready, await, ◌>>=◌}
use heim.Process.Errors.{ProcessResult, no_such_process}
use heim.Common.Int.{int_eq}
use heim.Process.System.{System, Times}
use heim.Process.Signal.{Signal, Libc}
use heim.Process.Signal
use heim.Process.Unix.{pid_kill, pid_priority, pid_setpriority, pid_wait}
use heim.Process.Stat.{Stat, Status}
use heim.Process.Procfs.{stat}

pub record UniqueId (Time : Type 0) : Type 0 where
  pub pid : ℤ
  pub create_time : Time

pub record Process (Time : Type 0) : Type 0 where
  pub pid : ℤ
  pub unique_id : UniqueId Time

-- `CpuTime`
pub record CpuTime (Time : Type 0) : Type 0 where
  pub utime : Time
  pub stime : Time
  pub children_utime : Time
  pub children_stime : Time

-- `CpuTime::from`
abbrev pub cpu_time_of : {Time : Type 0} → Stat Time → CpuTime Time
cpu_time_of stat = record {
  utime = stat.utime;
  stime = stat.stime;
  children_utime = stat.cutime;
  children_stime = stat.cstime;
}

module _ {S : Type 0} (sys : System S) {Time : Type 0} (times : Times Time) where
  -- `UniqueId::new`
  unfoldable pub new_id : ℤ → Time → ProcessResult (UniqueId Time)
  new_id pid create_time =
      if times.is_nan create_time
      then panic
      else ok (record { pid = pid; create_time = create_time })

  -- `==` of two processes
  unfoldable pub same_process : Process Time → Process Time → Bool
  same_process self other =
      int_eq self.unique_id.pid other.unique_id.pid
      && times.same self.unique_id.create_time other.unique_id.create_time

  abbrev process_of : ℤ → Stat Time → ProcessResult (Process Time)
  unfolding new_id
  process_of pid stats =
      map_ok (λ id. record { pid = pid; unique_id = id }) (new_id pid stats.create_time)

  -- `get`
  unfoldable pub get : ℤ → Task S (ProcessResult (Process Time))
  unfolding new_id
  get pid = do stats ← stat sys times pid; ready (process_of pid stats)

  -- `current`
  unfoldable pub current : Task S (ProcessResult (Process Time))
  current = await sys.getpid get

  abbrev field : {A : Type 0} → (Stat Time → A) → Process Time → Task S (ProcessResult A)
  field read self = await (stat sys times self.pid) (λ r. ready (map_ok read r))

  unfoldable pub parent_pid : Process Time → Task S (ProcessResult ℤ)
  parent_pid = field (λ stats. stats.ppid)

  unfoldable pub status : Process Time → Task S (ProcessResult Status)
  status = field (λ stats. stats.state)

  unfoldable pub cpu_time : Process Time → Task S (ProcessResult (CpuTime Time))
  cpu_time = field cpu_time_of

  unfoldable pub create_time : Process Time → Task S (ProcessResult Time)
  create_time self = ready (ok self.unique_id.create_time)

  unfoldable pub niceness : Process Time → Task S (ProcessResult ℤ)
  niceness self = pid_priority sys self.pid

  unfoldable pub set_niceness : Process Time → ℤ → Task S (ProcessResult Unit)
  set_niceness self value = pid_setpriority sys self.pid value

  -- `wait`, with the rounds of its loop
  unfoldable pub wait : ℕ → Process Time → Task S (Option (ProcessResult Unit))
  wait fuel self = pid_wait sys fuel self.pid

  -- `is_running`
  unfoldable pub is_running : Process Time → Task S (ProcessResult Bool)
  unfolding get same_process
  is_running self = await (get self.pid) (λ r. ready (map_ok (λ other. same_process other self) r))

  module _ (c : Libc) where
    abbrev signal_if : Process Time → Signal → Bool → Task S (ProcessResult Unit)
    signal_if self signal true = pid_kill sys c self.pid signal
    signal_if self signal false = ready (err (no_such_process self.pid))

    -- `_signal` and `signal`
    unfoldable pub send : Process Time → Signal → Task S (ProcessResult Unit)
    unfolding is_running
    send self signal = do running ← is_running self; signal_if self signal running

    unfoldable pub suspend : Process Time → Task S (ProcessResult Unit)
    suspend self = send self Signal.stop

    unfoldable pub resume : Process Time → Task S (ProcessResult Unit)
    resume self = send self Signal.cont

    unfoldable pub terminate : Process Time → Task S (ProcessResult Unit)
    terminate self = send self Signal.term

    unfoldable pub kill : Process Time → Task S (ProcessResult Unit)
    kill self = send self Signal.kill
