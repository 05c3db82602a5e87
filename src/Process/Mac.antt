-- ===== src/Process/Mac.antt =====
-- heim-process/src/sys/macos: bindings/process.rs and utils.rs. The calls of the crate darwin_libproc
-- and of `sysctl` are parameters; the calls on process numbers are those of Process/Unix.
pub mod Listed
pub mod Args
pub mod Handle
use heim.Prelude.{ℕ, Bool, true, false, Option, none, some, List, [], ◌∷◌, ◌++◌, if◌then◌else◌}
use heim.Outcome.{ok, err, panic}
use heim.Text.{Bytes, codes}
use heim.Text.Signed.{show_int}
use heim.Common.Errors.{
  ℤ, pos, ErrorKind, permission_denied, invalid_data, IoResult, simple, Result, last_os_error,
  from_io, with_message, with_sysctl, raw_os_error,
}
use heim.Common.Int.{int_eq}
use heim.Runtime.Task.{Task, ready, await}
use heim.Process.Errors.{
  ProcessError, ProcessResult, access_denied, no_such_process, zombie_process, unreadable_peb, load,
}
use heim.Process.System.{System}
use heim.Process.Stat.{Status, zombie, idle, running, sleeping, stopped}

-- `kinfo_proc`: the fields that the sources read; `p_comm` is the memory from this field on.
pub record KinfoProc (TimeVal : Type 0) : Type 0 where
  pub p_stat : ℤ
  pub p_pid : ℤ
  pub p_starttime : TimeVal
  pub p_comm : Bytes
  pub e_ppid : ℤ

-- `proc_taskinfo` and `rusage_info_v2`: the fields that the sources read.
pub record TaskInfo : Type 0 where
  pub pti_virtual_size : ℕ
  pub pti_resident_size : ℕ
  pub pti_total_user : ℕ
  pub pti_total_system : ℕ
  pub pti_faults : ℕ
  pub pti_pageins : ℕ

pub record RusageInfo : Type 0 where
  pub ri_diskio_bytesread : ℕ
  pub ri_diskio_byteswritten : ℕ

-- What the sources ask of the system beyond Process/System. The request for one process answers
-- with nothing if its size is zero.
pub record Darwin (S TimeVal : Type 0) : Type 0 where
  pub sysctl_process : ℤ → Task S (IoResult (Option (KinfoProc TimeVal)))
  -- The bytes that the list of all processes takes, and the list for a buffer of so many bytes.
  pub sysctl_size : Task S (IoResult ℕ)
  pub sysctl_processes : ℕ → Task S (IoResult (ℕ × List (KinfoProc TimeVal)))
  pub pid_path : ℤ → Task S (IoResult Bytes)
  pub pid_cwd : ℤ → Task S (IoResult Bytes)
  pub task_info : ℤ → Task S (IoResult TaskInfo)
  pub pid_rusage : ℤ → Task S (IoResult RusageInfo)
  pub sysctl_argmax : Task S (IoResult ℕ)
  -- The length of the arguments for a buffer of so many bytes, and their bytes or the error.
  pub sysctl_args : ℤ → ℕ → Task S (ℕ × IoResult Bytes)
  pub reserve_exact : ℕ → ℕ → ℕ → ℕ
  pub ctl_kern : ℤ
  pub kern_proc : ℤ
  pub kern_proc_all : ℤ
  pub kern_procargs2 : ℤ
  pub kern_argmax : ℤ
  pub einval : ℤ
  pub enomem : ℤ

abbrev pub is_denied : ErrorKind → Bool
is_denied permission_denied = true
is_denied _ = false

abbrev pub is_code : Option ℤ → ℤ → Bool
is_code none code = false
is_code (some raw) code = int_eq raw code

-- `sysctl` of heim-common, with what the call of libc answers.
abbrev pub sysctl : {A : Type 0} → List ℤ → IoResult A → Result A
sysctl name (ok value) = ok value
sysctl name (err e) = err (with_sysctl (last_os_error e) name)
sysctl name panic = panic

-- `TryFrom<c_char> for Status`
unfoldable pub try_from : ℤ → Result Status
try_from value =
    if int_eq value (pos 1)
    then ok idle
    else if int_eq value (pos 2)
    then ok running
    else if int_eq value (pos 3)
    then ok sleeping
    else if int_eq value (pos 4)
    then ok stopped
    else if int_eq value (pos 5)
    then ok zombie
    else err (
        with_message (from_io (simple invalid_data))
          (codes "Unknown process p_stat value: " ++ show_int value))

module _ {S TimeVal : Type 0} (sys : System S) (mac : Darwin S TimeVal) where
  abbrev pub process_for :
      ℤ → IoResult (Option (KinfoProc TimeVal)) → ProcessResult (KinfoProc TimeVal)
  process_for pid (ok (some info)) = ok info
  process_for pid (ok none) = err (no_such_process pid)
  process_for pid (err e) = err (load (last_os_error e))
  process_for pid panic = panic

  -- `process`
  unfoldable pub process : ℤ → Task S (ProcessResult (KinfoProc TimeVal))
  process pid = await (mac.sysctl_process pid) (λ r. ready (process_for pid r))

  abbrev pub by_status : {A : Type 0} → ℤ → Result Status → ProcessResult A
  by_status pid (ok zombie) = err (zombie_process pid)
  by_status pid (ok _) = err (access_denied pid)
  by_status pid (err e) = err (load e)
  by_status pid panic = panic

  abbrev pub blamed : {A : Type 0} → ℤ → ProcessResult (KinfoProc TimeVal) → ProcessResult A
  unfolding try_from
  blamed pid (ok info) = by_status pid (try_from info.p_stat)
  blamed pid (err e) = err e
  blamed pid panic = panic

  -- `catch_zombie`; what it returns stands as the error of a result.
  unfoldable pub catch_zombie : {A : Type 0} → ProcessError → ℤ → Task S (ProcessResult A)
  unfolding process blamed
  catch_zombie (load e) pid =
      if is_code (raw_os_error e) sys.esrch
      then await (process pid) (λ r. ready (blamed pid r))
      else ready (err (load e))
  catch_zombie (no_such_process n) pid = ready (err (no_such_process n))
  catch_zombie (zombie_process n) pid = ready (err (zombie_process n))
  catch_zombie (access_denied n) pid = ready (err (access_denied n))
  catch_zombie (unreadable_peb n) pid = ready (err (unreadable_peb n))
