-- ===== src/Process/Handle/NetCounters.antt =====
-- heim-process/src/sys/linux/process/mod.rs: the network counters of a process. `files` is what the
-- file system answers in a state; nothing changes while the stream is read.
use heim.Prelude.{ℕ, Bool, true, false, List, map, if◌then◌else◌}
use heim.Outcome.{ok, err, panic, map_err}
use heim.Common.Errors.{Error, Result, kind}
use heim.Runtime.Fs.{Files}
use heim.Runtime.Task.{Task, ready, await}
use heim.Net.Counters.{IoCounters, io_counters_for_pid}
use heim.Process.Errors.{ProcessResult, zombie_process, from_error}
use heim.Process.System.{System, Times}
use heim.Process.Stat.{Status, zombie}
use heim.Process.Procfs.{is_not_found}
use heim.Process.Handle.{Process, status}

abbrev is_zombie : ProcessResult Status → Bool
is_zombie (ok zombie) = true
is_zombie _ = false

module _ {S Time Information : Type 0} (sys : System S) (times : Times Time)
    (byte : ℕ → Information) (files : S → Files) (self : Process Time) where
  abbrev Counters : Type 0
  Counters = List (ProcessResult (IoCounters Information))

  abbrev missing_for : Error → ProcessResult Status → Task S (ProcessResult Counters)
  missing_for e r =
      ready (if is_zombie r then err (zombie_process self.pid) else err (from_error e))

  abbrev counters_for :
      Result (List (Result (IoCounters Information))) → Task S (ProcessResult Counters)
  counters_for (ok stream) s = (ok (map (map_err from_error) stream), s)
  counters_for (err e) s =
      let other : ProcessResult Counters = err (from_error e) in
      if is_not_found (kind sys.decode e)
      then await (status sys times self) (missing_for e) s
      else (other, s)
  counters_for panic s = (panic, s)

  -- `net_io_counters`, with what its stream yields
  unfoldable pub net_io_counters : Task S (ProcessResult Counters)
  unfolding io_counters_for_pid
  net_io_counters s = counters_for (io_counters_for_pid byte sys.procfs_root (files s) self.pid) s
