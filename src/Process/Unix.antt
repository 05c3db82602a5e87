-- ===== src/Process/Unix.antt =====
-- heim-process/src/sys/unix/process.rs
pub mod Wait
use heim.Prelude.{ℕ, zero, suc, Bool, true, false, Option, none, some, if◌then◌else◌}
use heim.Outcome.{ok, err}
use heim.Text.{codes}
use heim.Common.Errors.{ℤ, pos, negsuc, from_raw_os_error, last_os_error, with_ffi}
use heim.Runtime.Task.{Task, await}
use heim.Process.Errors.{ProcessResult, no_such_process, access_denied, from_io, from_error}
use heim.Process.Signal.{Signal, Libc, number_of}
use heim.Common.Int.{int_eq}
use heim.Process.System.{System}
use heim.Process.System

module _ {S : Type 0} (sys : System S) where
  -- The state is read for the error code only if the call failed.
  abbrev exists_for : ℤ → Task S Bool
  exists_for result s =
      if int_eq result (pos 0)
      then (true, s)
      else if int_eq (sys.errno s) sys.esrch
      then (false, s)
      else if int_eq (sys.errno s) sys.eperm
      then (true, s)
      else (true, s)

  -- `pid_exists`
  unfoldable pub pid_exists : ℤ → Task S Bool
  pid_exists pid s =
      if int_eq pid (pos 0) then (true, s) else await (sys.kill pid (pos 0)) exists_for s

  abbrev killed : ℤ → ℤ → Task S (ProcessResult Unit)
  killed pid result s =
      if int_eq result (pos 0)
      then (ok tt, s)
      else if int_eq (sys.errno s) sys.esrch
      then (err (no_such_process pid), s)
      else if int_eq (sys.errno s) sys.eperm
      then (err (access_denied pid), s)
      else (err (from_io (System.last_os_error sys s)), s)

  -- `pid_kill`
  unfoldable pub pid_kill : Libc → ℤ → Signal → Task S (ProcessResult Unit)
  pid_kill c pid signal = await (sys.kill pid (number_of c signal)) (killed pid)

  -- The loop of `pid_wait`: the interval does not end, so only the fuel stops it, with `none`.
  unfoldable pub wait_loop : ℕ → ℤ → Task S (Option (ProcessResult Unit))
  unfolding pid_exists
  wait_loop zero pid s = (none, s)
  wait_loop (suc fuel) pid s =
      let polled = pid_exists pid (sys.tick s) in
      let rest = wait_loop fuel pid polled.1 in if polled.0 then rest else (some (ok tt), polled.1)

  -- `pid_wait`, with the rounds of its loop
  unfoldable pub pid_wait : ℕ → ℤ → Task S (Option (ProcessResult Unit))
  unfolding wait_loop
  pid_wait fuel pid s =
      let waited = sys.waitpid pid s in
      let rest = wait_loop fuel pid waited.1 in
      if int_eq waited.0 (negsuc 0) then rest else (some (ok tt), waited.1)

  abbrev priority_for : ℤ → ℤ → Task S (ProcessResult ℤ)
  priority_for pid result s =
      if int_eq (sys.errno s) (pos 0)
      then (ok result, s)
      else if int_eq (sys.errno s) sys.esrch
      then (err (no_such_process pid), s)
      else if int_eq (sys.errno s) sys.eacces
      then (err (access_denied pid), s)
      else if int_eq (sys.errno s) sys.eperm
      then (err (access_denied pid), s)
      else (err (from_error (with_ffi (from_raw_os_error (sys.errno s)) (codes "getpriority"))), s)

  -- `pid_priority`
  unfoldable pub pid_priority : ℤ → Task S (ProcessResult ℤ)
  pid_priority pid s = await (sys.getpriority pid) (priority_for pid) (sys.set_errno (pos 0) s)

  abbrev priority_set : ℤ → Task S (ProcessResult Unit)
  priority_set result s =
      if int_eq result (pos 0)
      then (ok tt, s)
      else (err (from_error (last_os_error (System.last_os_error sys s))), s)

  -- `pid_setpriority`
  unfoldable pub pid_setpriority : ℤ → ℤ → Task S (ProcessResult Unit)
  pid_setpriority pid value = await (sys.setpriority pid value) priority_set
