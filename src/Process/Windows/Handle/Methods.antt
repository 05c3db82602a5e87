-- ===== src/Process/Windows/Handle/Methods.antt =====
-- heim-process/src/sys/windows/process/mod.rs: what is asked of a process, and what is done to it.
use heim.Prelude.{ℕ, Bool, ◌||◌, none, some, List, ◌==◌, if◌then◌else◌}
use heim.Outcome.{ok, err, panic}
use heim.Text.{Str, codes}
use heim.Common.Errors.{pos}
use heim.Process.Errors.{ProcessResult, access_denied}
use heim.Process.Stat.{Status, stopped, running}
use heim.Process.Windows.{Kernel}
use heim.Process.Windows.Open.{
  ProcessHandle, query_limited_info, for_termination, for_suspend_resume, for_set_information,
  terminate, suspend, resume, set_priority,
}
use heim.Process.Windows.Memory.{Clock, Layout, CpuTime, exit_code}
use heim.Process.Windows.Memory
use heim.Process.Windows.Table.{is_suspended}
use heim.Process.Windows.Priority.{Priority, Classes, number_of}
use heim.Process.Windows.Snapshot.{name_in_snapshot}
use heim.Process.Windows.Handle.{Process, World, Fueled, ◌>>=◌, lift, done, match_with}

module _ {S FileTime Time : Type 0} (sys : Kernel S FileTime) (clock : Clock FileTime Time)
    (layout : Layout) (world : World S FileTime Time) (fuel : ℕ) where
  -- The name of the image, if it can be read and is a text.
  abbrev named : ℕ → ProcessResult (List ℕ) → Fueled S Str
  unfolding name_in_snapshot
  named pid (ok path) = elim (world.file_name path) [
    | some name ↦ done (ok name)
    | none ↦ name_in_snapshot sys world.lossy fuel pid
  ]
  named pid (err e) = name_in_snapshot sys world.lossy fuel pid
  named pid panic = done panic

  abbrev named_by : ℕ → ProcessResult ProcessHandle → Fueled S Str
  unfolding named Memory.exe
  named_by pid (ok handle) = match_with (Memory.exe sys clock layout handle) (named pid)
  named_by pid (err e) = name_in_snapshot sys world.lossy fuel pid
  named_by pid panic = done panic

  -- `Process::name`
  unfoldable pub name : Process Time → Fueled S Str
  unfolding query_limited_info named_by
  name self =
      if self.pid == 0
      then done (ok (codes "System Idle Process"))
      else if self.pid == 4
      then done (ok (codes "System"))
      else match_with (query_limited_info sys self.pid) (named_by self.pid)

  abbrev unless_system : {A : Type 0} → Bool → Process Time → Fueled S A → Fueled S A
  unless_system test self rest = if test then done (err (access_denied (pos self.pid))) else rest

  -- `Process::exe`
  unfoldable pub exe : Process Time → Fueled S (List ℕ)
  unfolding query_limited_info Memory.exe
  exe self =
      unless_system (self.pid == 0 || self.pid == 4) self do
        handle ← lift (query_limited_info sys self.pid)
        lift (Memory.exe sys clock layout handle)

  -- `Process::cwd`
  unfoldable pub cwd : Process Time → Fueled S (List ℕ)
  unfolding query_limited_info Memory.cwd
  cwd self = do
    handle ← lift (query_limited_info sys self.pid)
    lift (Memory.cwd sys clock layout world.thread_error handle)

  -- `Process::status`
  unfoldable pub status : Process Time → Fueled S Status
  unfolding is_suspended
  status self = do
    is_stopped ← is_suspended world.entry_at sys world.waiting world.suspended fuel self.pid
    done (ok (if is_stopped then stopped else running))

  unfoldable pub create_time : Process Time → Fueled S Time
  create_time self = done (ok self.unique_id.create_time)

  -- `Process::cpu_time`
  unfoldable pub cpu_time : Process Time → Fueled S (CpuTime Time)
  unfolding query_limited_info Memory.cpu_time
  cpu_time self = unless_system (self.pid == 0) self do
    handle ← lift (query_limited_info sys self.pid)
    lift (Memory.cpu_time sys clock layout handle)

  -- `Process::priority` and `Process::set_priority`
  unfoldable pub priority_of : Classes → Process Time → Fueled S Priority
  unfolding query_limited_info Memory.priority
  priority_of classes self = do
    handle ← lift (query_limited_info sys self.pid)
    lift (Memory.priority sys clock layout classes handle)

  unfoldable pub set_priority_of : Classes → Process Time → Priority → Fueled S (Unit {0})
  unfolding for_set_information set_priority
  set_priority_of classes self value = do
    handle ← lift (for_set_information sys self.pid)
    lift (set_priority sys handle (number_of classes value))

  -- `Process::suspend` and `Process::resume`
  unfoldable pub suspend_of : Process Time → Fueled S (Unit {0})
  unfolding for_suspend_resume suspend
  suspend_of self = do handle ← lift (for_suspend_resume sys self.pid); lift (suspend sys handle)

  unfoldable pub resume_of : Process Time → Fueled S (Unit {0})
  unfolding for_suspend_resume resume
  resume_of self = do handle ← lift (for_suspend_resume sys self.pid); lift (resume sys handle)

  -- `Process::kill` and `Process::terminate`
  unfoldable pub kill : Process Time → Fueled S (Unit {0})
  unfolding for_termination terminate
  kill self = do handle ← lift (for_termination sys self.pid); lift (terminate sys handle)

  unfoldable pub terminate_of : Process Time → Fueled S (Unit {0})
  unfolding kill
  terminate_of self = kill self
