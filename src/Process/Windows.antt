-- ===== src/Process/Windows.antt =====
-- heim-process/src/sys/windows: what the sources ask of the system. A call that fails answers with
-- the last error behind it. A handle is a number, and its release is left out. A loop runs on fuel,
-- and `none` means that it ran out.
pub mod Open
pub mod Priority
pub mod Pids
pub mod Table
pub mod Snapshot
pub mod Memory
pub mod Handle
use heim.Prelude.{ℕ, Bool, false, Option, none, some, List}
use heim.Outcome.{Outcome, ok, err, panic}
use heim.Text.{Str, Bytes}
use heim.Common.Errors.{ℤ, ErrorKind, IoError, IoResult, last_os_error, with_ffi, io_raw_os_error}
use heim.Common.Int.{int_eq}
use heim.Runtime.Task.{Task}
use heim.Process.Errors.{ProcessResult, load}

-- The rights that the kinds of handles ask for.
pub data Access : Type 0 where
  query_limited_information termination suspend_resume set_information : Access

-- The fields of `PROCESSENTRY32W` that the source reads.
pub record ProcessEntry : Type 0 where
  pub process_id : ℕ
  pub parent_process_id : ℕ
  pub exe_file : List ℕ

pub record Kernel (S FileTime : Type 0) : Type 0 where
  pub open_process : Access → ℕ → Task S (IoResult ℕ)
  pub get_exit_code : ℕ → Task S (IoResult ℕ)
  pub query_image_name : ℕ → Task S (IoResult (List ℕ))
  pub process_times : ℕ → Task S (IoResult (FileTime × FileTime × FileTime × FileTime))
  pub priority_class : ℕ → Task S (IoResult ℕ)
  pub set_priority_class : ℕ → ℕ → Task S (IoResult (Unit {0}))
  pub terminate_process : ℕ → Task S (IoResult (Unit {0}))
  pub suspend_process : ℕ → Task S (IoResult (Unit {0}))
  pub resume_process : ℕ → Task S (IoResult (Unit {0}))
  pub current_process_id : Task S ℕ
  pub is_wow64 : ℕ → Task S (IoResult Bool)
  -- The address of the environment block of a process; the error is the status of the call.
  pub peb_address : ℕ → Task S (Outcome ℕ ℕ)
  pub peb32_address : ℕ → Task S (Outcome ℕ ℕ)
  -- So many bytes of the memory of a process from an address on.
  pub read_process_memory : ℕ → ℕ → ℕ → Task S (IoResult Bytes)
  -- `EnumProcesses` for a buffer of so many bytes: the bytes that it answers, and the numbers.
  pub enum_processes : ℕ → Task S (IoResult (ℕ × List ℕ))
  -- `NtQuerySystemInformation` for a buffer of so many bytes.
  pub system_processes : ℕ → Task S (Outcome (Outcome IoError ℕ) Bytes)
  pub create_snapshot : Task S (IoResult ℕ)
  pub process_first : ℕ → Task S (IoResult ProcessEntry)
  pub process_next : ℕ → Task S (IoResult ProcessEntry)
  -- `io::Error::kind` of a code, and the codes that the sources name
  pub decode : ℤ → ErrorKind
  pub error_invalid_parameter : ℤ
  pub error_access_denied : ℤ
  pub error_partial_copy : ℤ
  pub error_no_more_files : ℤ
  pub error_privilege_not_held : ℤ
  pub eperm : ℤ
  pub eacces : ℤ
  pub still_active : ℕ
  -- The status with the bit `FACILITY_NT_BIT`, as a code
  pub nt_code : ℕ → ℤ
  -- `Vec::reserve`, by the capacity, the length and the argument
  pub reserve : ℕ → ℕ → ℕ → ℕ

abbrev pub is_code : Option ℤ → ℤ → Bool
is_code none code = false
is_code (some raw) code = int_eq raw code

abbrev pub fails_with : IoError → ℤ → Bool
fails_with e code = is_code (io_raw_os_error e) code

-- The result of a call whose failure is reported with its name.
abbrev pub report : {A : Type 0} → Str → IoResult A → ProcessResult A
report name (ok a) = ok a
report name (err e) = err (load (with_ffi (last_os_error e) name))
report name panic = panic

abbrev pub map_task : {S A B : Type 0} → (A → B) → Task S A → Task S B
map_task f task s = let r = task s in (f r.0, r.1)
