-- ===== src/Process/Windows/Open.antt =====
-- heim-process/src/sys/windows/bindings/handle: mod.rs, termination.rs, suspend.rs and
-- set_information.rs. A handle keeps the number of its process.
use heim.Prelude.{ℕ, Bool, true, false, Bool-cases, inl, inr, ◌≡◌, refl, ◌&&◌, ◌==◌, if◌then◌else◌}
use heim.Outcome.{ok, err, panic}
use heim.Text.{codes}
use heim.Common.Errors.{
  pos, ErrorKind, permission_denied, IoError, IoResult, last_os_error, with_ffi, kind_of_io,
}
use heim.Runtime.Task.{Task}
use heim.Process.Errors.{ProcessError, ProcessResult, access_denied, no_such_process, load}
use heim.Process.Windows.{
  Access, query_limited_information, termination, suspend_resume, set_information, Kernel,
  fails_with, report, map_task,
}

pub record ProcessHandle : Type 0 where
  pub handle : ℕ
  pub pid : ℕ

abbrev pub is_denied : ErrorKind → Bool
is_denied permission_denied = true
is_denied _ = false

module _ {S FileTime : Type 0} (sys : Kernel S FileTime) where
  -- The match on the error of `open`.
  abbrev pub open_error : ℕ → IoError → ProcessError
  open_error pid e =
      if is_denied (kind_of_io sys.decode e)
      then access_denied (pos pid)
      else if pid == 0 && fails_with e sys.error_invalid_parameter
      then access_denied (pos pid)
      else if fails_with e sys.error_invalid_parameter
      then no_such_process (pos pid)
      else load (with_ffi (last_os_error e) (codes "OpenProcess"))

  abbrev pub opened : ℕ → IoResult ℕ → ProcessResult ProcessHandle
  opened pid (ok handle) = ok (record { handle = handle; pid = pid })
  opened pid (err e) = err (open_error pid e)
  opened pid panic = panic

  -- `ProcessHandlePermissions::open`, and the handle around it
  unfoldable pub open_handle : Access → ℕ → Task S (ProcessResult ProcessHandle)
  open_handle access pid = map_task (opened pid) (sys.open_process access pid)

  unfoldable pub query_limited_info : ℕ → Task S (ProcessResult ProcessHandle)
  unfolding open_handle
  query_limited_info pid = open_handle query_limited_information pid

  abbrev unless_idle : Access → ℕ → Task S (ProcessResult ProcessHandle)
  unfolding open_handle
  unless_idle access pid s =
      if pid == 0 then (err (access_denied (pos pid)), s) else open_handle access pid s

  unfoldable pub for_termination : ℕ → Task S (ProcessResult ProcessHandle)
  unfolding unless_idle
  for_termination pid = unless_idle termination pid

  unfoldable pub for_suspend_resume : ℕ → Task S (ProcessResult ProcessHandle)
  unfolding unless_idle
  for_suspend_resume pid = unless_idle suspend_resume pid

  unfoldable pub for_set_information : ℕ → Task S (ProcessResult ProcessHandle)
  unfolding unless_idle
  for_set_information pid = unless_idle set_information pid

  abbrev terminated : IoResult (Unit {0}) → ProcessResult (Unit {0})
  terminated (ok u) = ok u
  terminated (err e) =
      if fails_with e sys.error_access_denied
      then ok tt
      else err (load (with_ffi (last_os_error e) (codes "TerminateProcess")))
  terminated panic = panic

  -- `ProcessHandle::terminate`
  unfoldable pub terminate : ProcessHandle → Task S (ProcessResult (Unit {0}))
  terminate self = map_task terminated (sys.terminate_process self.handle)

  unfoldable pub suspend : ProcessHandle → Task S (ProcessResult (Unit {0}))
  suspend self = map_task (report (codes "NtSuspendProcess")) (sys.suspend_process self.handle)

  unfoldable pub resume : ProcessHandle → Task S (ProcessResult (Unit {0}))
  resume self = map_task (report (codes "NtResumeProcess")) (sys.resume_process self.handle)

  abbrev plain : IoResult (Unit {0}) → ProcessResult (Unit {0})
  plain (ok u) = ok u
  plain (err e) = err (load (last_os_error e))
  plain panic = panic

  -- `ProcessHandle::set_priority`
  unfoldable pub set_priority : ProcessHandle → ℕ → Task S (ProcessResult (Unit {0}))
  set_priority self value = map_task plain (sys.set_priority_class self.handle value)

  -- What `open` reports of a number that the system refuses as a parameter: the idle process is not
  -- to be opened, and no other process has such a number.
  pub open_handle_refused :
      (access : Access) (pid : ℕ) (e : IoError) (s t : S)
      → sys.open_process access pid s ≡ (err e, t)
      → is_denied (kind_of_io sys.decode e) ≡ false
      → fails_with e sys.error_invalid_parameter ≡ true
      → open_handle access pid s
        ≡ (err (if pid == 0 then access_denied (pos pid) else no_such_process (pos pid)), t)
  unfolding open_handle
  open_handle_refused access pid e s t h denied refused = elim (Bool-cases (pid == 0)) [
    | inl idle ↦ rw (h, denied, refused, idle) refl
    | inr other ↦ rw (h, denied, refused, other) refl
  ]
