-- ===== src/Process/Mac/Handle.antt =====
-- heim-process/src/sys/macos/process: a process and what is asked of it (mod.rs, cpu_times.rs,
-- memory.rs and io_counters.rs). Its identity is that of Process/Handle.
pub mod Zombies
pub mod Reuse
use heim.Prelude.{ℕ, Bool, true, false, Option, none, some, List, [], ◌∷◌, if◌then◌else◌}
use heim.Outcome.{ok, err, panic, map_ok, map_err}
use heim.Text.{Str, Bytes}
use heim.Common.Errors.{ℤ, pos, Result, IoError, IoResult, kind_of_io}
use heim.Common.Int.{int_eq}
use heim.Common.Memory.{before_zero}
use heim.Runtime.Task.{Task, ready, await, ◌>>=◌}
use heim.Process.Errors.{ProcessResult, access_denied, no_such_process, from_error, from_io}
use heim.Process.Handle.{Process, new_id, same_process}
use heim.Process.Mac.{
  Darwin, KinfoProc, TaskInfo, RusageInfo, process, catch_zombie, is_denied, try_from,
}
use heim.Process.Mac.Listed.{pids}
use heim.Process.Signal.{Signal, Libc}
use heim.Process.Signal
use heim.Process.Stat.{Status}
use heim.Process.System.{System, Times}
use heim.Process.Unix.{pid_kill, pid_priority, pid_setpriority, pid_wait}

-- `CpuTime`, `Memory` and `IoCounters`
pub record CpuTime (Time : Type 0) : Type 0 where
  pub utime : Time
  pub stime : Time

pub record Memory : Type 0 where
  pub resident_size : ℕ
  pub virtual_size : ℕ
  pub faults : ℕ
  pub pageins : ℕ

pub record IoCounters : Type 0 where
  pub read_bytes : ℕ
  pub write_bytes : ℕ

-- `From<proc_taskinfo>` and `From<rusage_info_v2>`
abbrev pub cpu_time_of : {Time : Type 0} → (ℕ → Time) → TaskInfo → CpuTime Time
cpu_time_of nanoseconds info = record {
  utime = nanoseconds info.pti_total_user;
  stime = nanoseconds info.pti_total_system;
}

abbrev pub memory_of : TaskInfo → Memory
memory_of info = record {
  resident_size = info.pti_resident_size;
  virtual_size = info.pti_virtual_size;
  faults = info.pti_faults;
  pageins = info.pti_pageins;
}

abbrev pub counters_of : RusageInfo → IoCounters
counters_of info = record {
  read_bytes = info.ri_diskio_bytesread;
  write_bytes = info.ri_diskio_bytesread;
}

-- What the sources take from elsewhere: the time of a `timeval` and of a number of nanoseconds, and
-- the lossy text of bytes.
pub record Conversions (Time TimeVal : Type 0) : Type 0 where
  pub into_time : TimeVal → Time
  pub nanoseconds : ℕ → Time
  pub lossy : Bytes → Str

module _ {S Time TimeVal : Type 0} (sys : System S) (mac : Darwin S TimeVal) (times : Times Time)
    (conv : Conversions Time TimeVal) where
  abbrev pub read_info :
      {A : Type 0}
      → (KinfoProc TimeVal → ProcessResult A)
      → ℤ
      → ProcessResult (KinfoProc TimeVal)
      → Task S (ProcessResult A)
  unfolding catch_zombie
  read_info read pid (ok info) = ready (read info)
  read_info read pid (err e) = catch_zombie sys mac e pid
  read_info read pid panic = ready panic

  -- The match of most methods on `bindings::process`.
  abbrev pub ask :
      {A : Type 0} → (KinfoProc TimeVal → ProcessResult A) → ℤ → Task S (ProcessResult A)
  unfolding process read_info
  ask read pid = await (process sys mac pid) (read_info read pid)

  abbrev pub denied_or_caught : {A : Type 0} → ℤ → IoError → Task S (ProcessResult A)
  unfolding catch_zombie
  denied_or_caught pid e =
      if is_denied (kind_of_io sys.decode e)
      then ready (err (access_denied pid))
      else catch_zombie sys mac (from_io e) pid

  -- The match of `cwd`, `cpu_time` and `memory` on the answer of the library.
  abbrev pub answered : {A B : Type 0} → (A → B) → ℤ → IoResult A → Task S (ProcessResult B)
  unfolding denied_or_caught
  answered read pid (ok a) = ready (ok (read a))
  answered read pid (err e) = denied_or_caught pid e
  answered read pid panic = ready panic

  abbrev pub path_for : ℤ → IoResult Bytes → Task S (ProcessResult Bytes)
  unfolding catch_zombie
  path_for pid (ok path) = ready (ok path)
  path_for pid (err e) =
      if int_eq pid (pos 0)
      then ready (err (access_denied pid))
      else catch_zombie sys mac (from_io e) pid
  path_for pid panic = ready panic

  abbrev pub process_of : ℤ → KinfoProc TimeVal → ProcessResult (Process Time)
  unfolding new_id
  process_of pid info =
      map_ok (λ id. record { pid = pid; unique_id = id })
        (new_id sys times pid (conv.into_time info.p_starttime))

  -- `get` and `current`
  unfoldable pub get : ℤ → Task S (ProcessResult (Process Time))
  unfolding ask process_of
  get pid = ask (process_of pid) pid

  unfoldable pub current : Task S (ProcessResult (Process Time))
  unfolding get
  current = await sys.getpid get

  unfoldable pub parent_pid : Process Time → Task S (ProcessResult ℤ)
  unfolding ask
  parent_pid self = ask (λ info. ok info.e_ppid) self.pid

  unfoldable pub name : Process Time → Task S (ProcessResult Str)
  unfolding ask
  name self = ask (λ info. ok (conv.lossy (before_zero info.p_comm))) self.pid

  unfoldable pub status : Process Time → Task S (ProcessResult Status)
  unfolding ask try_from
  status self = ask (λ info. map_err from_error (try_from info.p_stat)) self.pid

  unfoldable pub exe : Process Time → Task S (ProcessResult Bytes)
  unfolding path_for
  exe self = await (mac.pid_path self.pid) (path_for self.pid)

  unfoldable pub cwd : Process Time → Task S (ProcessResult Bytes)
  unfolding answered
  cwd self = await (mac.pid_cwd self.pid) (answered (λ path. path) self.pid)

  unfoldable pub create_time : Process Time → Task S (ProcessResult Time)
  create_time self = ready (ok self.unique_id.create_time)

  unfoldable pub cpu_time : Process Time → Task S (ProcessResult (CpuTime Time))
  unfolding answered
  cpu_time self = await (mac.task_info self.pid) (answered (cpu_time_of conv.nanoseconds) self.pid)

  unfoldable pub memory : Process Time → Task S (ProcessResult Memory)
  unfolding answered
  memory self = await (mac.task_info self.pid) (answered memory_of self.pid)

  abbrev io_for : ℤ → IoResult RusageInfo → ProcessResult IoCounters
  io_for pid (ok info) = ok (counters_of info)
  io_for pid (err e) =
      if is_denied (kind_of_io sys.decode e) then err (access_denied pid) else err (from_io e)
  io_for pid panic = panic

  -- `io`, which `io_counters` calls
  unfoldable pub io : ℤ → Task S (ProcessResult IoCounters)
  io pid = await (mac.pid_rusage pid) (λ r. ready (io_for pid r))

  unfoldable pub niceness : Process Time → Task S (ProcessResult ℤ)
  unfolding pid_priority
  niceness self = pid_priority sys self.pid

  unfoldable pub set_niceness : Process Time → ℤ → Task S (ProcessResult Unit)
  unfolding pid_setpriority
  set_niceness self value = pid_setpriority sys self.pid value

  -- `wait`, with the rounds of its loop
  unfoldable pub wait : ℕ → Process Time → Task S (Option (ProcessResult Unit))
  unfolding pid_wait
  wait fuel self = pid_wait sys fuel self.pid

  unfoldable pub is_running : Process Time → Task S (ProcessResult Bool)
  unfolding get same_process
  is_running self =
      await (get self.pid) (λ r. ready (map_ok (λ other. same_process sys times other self) r))

  abbrev get_all : List ℤ → Task S (List (ProcessResult (Process Time)))
  unfolding get
  get_all [] s = ([], s)
  get_all (pid ∷ pids) s =
      let r = get pid s in let rest = get_all pids r.1 in (r.0 ∷ rest.0, rest.1)

  abbrev get_listed :
      Option (Result (List ℤ)) → Task S (Option (Result (List (ProcessResult (Process Time)))))
  unfolding get_all
  get_listed none s = (none, s)
  get_listed (some (ok pids)) s = let r = get_all pids s in (some (ok r.0), r.1)
  get_listed (some (err e)) s = (some (err e), s)
  get_listed (some panic) s = (some panic, s)

  -- `processes`, with what its stream yields and the rounds of the loop of `pids`
  unfoldable pub processes : ℕ → Task S (Option (Result (List (ProcessResult (Process Time)))))
  unfolding pids get_listed
  processes fuel = await (pids mac fuel) get_listed

  module _ (c : Libc) where
    abbrev pub signal_if : Process Time → Signal → Bool → Task S (ProcessResult Unit)
    unfolding pid_kill
    signal_if self signal true = pid_kill sys c self.pid signal
    signal_if self signal false = ready (err (no_such_process self.pid))

    -- `_signal` and `signal`
    unfoldable pub send : Process Time → Signal → Task S (ProcessResult Unit)
    unfolding is_running signal_if
    send self signal = do running ← is_running self; signal_if self signal running

    unfoldable pub suspend : Process Time → Task S (ProcessResult Unit)
    unfolding send
    suspend self = send self Signal.stop

    unfoldable pub resume : Process Time → Task S (ProcessResult Unit)
    unfolding send
    resume self = send self Signal.cont

    unfoldable pub terminate : Process Time → Task S (ProcessResult Unit)
    unfolding send
    terminate self = send self Signal.term

    unfoldable pub kill : Process Time → Task S (ProcessResult Unit)
    unfolding send
    kill self = send self Signal.kill
