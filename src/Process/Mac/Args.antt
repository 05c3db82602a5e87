-- ===== src/Process/Mac/Args.antt =====
-- heim-process/src/sys/macos: the block of arguments of a process (bindings/proc_args.rs), its command
-- and its environment (process/command.rs and env.rs).
use heim.Prelude.{ℕ, Bool, true, false, Option, [], ◌∷◌, ltb, if◌then◌else◌}
use heim.Outcome.{ok, err, panic, map_err}
use heim.Text.{Bytes}
use heim.Common.Errors.{
  ℤ, pos, Error, permission_denied, invalid_data, IoResult, simple, Result, from_io, kind,
  raw_os_error,
}
use heim.Common.Int.{int_eq}
use heim.Runtime.Task.{Task, ready, await, ◌>>=◌}
use heim.Memchr.{Memchr, MemchrIter}
use heim.Process.Env.{Environment}
use heim.Process.Errors.{ProcessResult, access_denied, zombie_process, load}
use heim.Process.Mac.{Darwin, is_code, is_denied, sysctl}
use heim.Process.ProcArgs
use heim.Process.System.{System}
use heim.Process.Unix.{pid_exists}

module _ {S TimeVal : Type 0} (sys : System S) (mac : Darwin S TimeVal) where
  -- `args_max`
  unfoldable pub args_max : Task S (Result ℕ)
  args_max = await mac.sysctl_argmax (λ r. ready (sysctl (mac.ctl_kern ∷ mac.kern_argmax ∷ []) r))

  abbrev args_for : ℤ → ℕ × IoResult Bytes → Result Bytes
  args_for pid (size, answer) =
      if ltb size 4
      then err (from_io (simple invalid_data))
      else sysctl (mac.ctl_kern ∷ mac.kern_procargs2 ∷ pid ∷ []) answer

  -- `proc_args`, which `ProcArgs::get` wraps
  unfoldable pub proc_args : ℤ → Task S (Result Bytes)
  unfolding args_max
  proc_args pid =
      if int_eq pid (pos 0)
      then ready (err (from_io (simple permission_denied)))
      else do size ← args_max; await (mac.sysctl_args pid size) (λ r. ready (args_for pid r))

  abbrev if_exists : {A : Type 0} → ℤ → Error → Bool → Task S (ProcessResult A)
  if_exists pid e true = ready (err (zombie_process pid))
  if_exists pid e false = ready (err (load e))

  -- The match of `command` and of `environment` on the block.
  abbrev pub read_args :
      {A : Type 0} → (Bytes → ProcessResult A) → ℤ → Result Bytes → Task S (ProcessResult A)
  unfolding pid_exists
  read_args read pid (ok bytes) = ready (read bytes)
  read_args read pid (err e) =
      if is_code (raw_os_error e) mac.einval
      then await (pid_exists sys pid) (if_exists pid e)
      else if is_denied (kind sys.decode e)
      then ready (err (access_denied pid))
      else ready (err (load e))
  read_args read pid panic = ready panic

  -- `command`: the block, which `Command` wraps
  unfoldable pub command : ℤ → Task S (ProcessResult Bytes)
  unfolding proc_args read_args
  command pid = await (proc_args pid) (read_args ok pid)

  -- `environment`; `none` means that the fuel of the parser ran out.
  unfoldable pub environment : Memchr → MemchrIter → ℤ → Task S (ProcessResult (Option Environment))
  unfolding proc_args read_args ProcArgs.environment
  environment m it pid =
      await (proc_args pid)
        (read_args (λ bytes. map_err load (ProcArgs.environment m it bytes)) pid)
