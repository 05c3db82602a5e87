-- ===== src/Process/Windows/Memory.antt =====
-- heim-process/src/sys/windows/bindings/handle/limited_info.rs: what is asked of a process by a
-- handle, and the reads of its memory. The layouts of the structs of ntapi are parameters.
pub mod Retries
use heim.Prelude.{
  ℕ, zero, suc, ◌+◌, ◌*◌, ◌/◌, Bool, true, false, Option, none, some, List, [], ◌∷◌, take, ◌==◌,
  if◌then◌else◌,
}
use heim.Outcome.{Outcome, ok, err, panic, map_ok}
use heim.Text.{Str, Bytes, codes}
use heim.Common.Errors.{
  pos, IoError, IoResult, last_os_error, with_ffi, from_raw_os_error, kind_of_io,
}
use heim.Runtime.Task.{Task, ready, await, ◌>>=◌}
use heim.Process.Errors.{ProcessResult, access_denied, unreadable_peb, load, from_io}
use heim.Process.Windows.Priority.{Priority, Classes, try_from}
use heim.Process.Windows.{Kernel, fails_with, report, map_task}
use heim.Process.Windows.Open.{ProcessHandle, is_denied}

-- The operations on times: of a `FILETIME`, and the difference to the epoch of Unix.
pub record Clock (FileTime Time : Type 0) : Type 0 where
  pub into_time : FileTime → Time
  pub minus_epoch_delta : Time → Time
  pub is_nan : Time → Bool
  pub same : Time → Time → Bool

-- The sizes of the structs of ntapi, and the fields that the source reads: the address of the
-- parameters, and the buffer and the length of the current directory.
pub record Layout : Type 0 where
  pub peb_size : ℕ
  pub peb32_size : ℕ
  pub params_size : ℕ
  pub params32_size : ℕ
  pub peb_parameters : Bytes → ℕ
  pub peb32_parameters : Bytes → ℕ
  pub directory : Bytes → ℕ × ℕ
  pub directory32 : Bytes → ℕ × ℕ

pub record CpuTime (Time : Type 0) : Type 0 where
  pub user : Time
  pub kernel : Time

-- Pairs of bytes, the lower first; a byte that is left over is written behind the vector.
unfoldable pub wide : Bytes → Option (List ℕ)
wide [] = some []
wide (a ∷ []) = none
wide (a ∷ b ∷ s) = elim (wide s) [ none ↦ none | some cs ↦ some ((a + 256 * b) ∷ cs) ]

module _ {S FileTime Time : Type 0} (sys : Kernel S FileTime) (clock : Clock FileTime Time)
    (layout : Layout) where
  abbrev exit_code_of : ProcessHandle → IoResult ℕ → ProcessResult ℕ
  exit_code_of self (ok code) = ok code
  exit_code_of self (err e) =
      if is_denied (kind_of_io sys.decode e)
      then err (access_denied (pos self.pid))
      else err (load (with_ffi (last_os_error e) (codes "GetExitCodeProcess")))
  exit_code_of self panic = panic

  unfoldable pub exit_code : ProcessHandle → Task S (ProcessResult ℕ)
  exit_code self = map_task (exit_code_of self) (sys.get_exit_code self.handle)

  unfoldable pub exe : ProcessHandle → Task S (ProcessResult (List ℕ))
  exe self =
      map_task (report (codes "QueryFullProcessImageNameW")) (sys.query_image_name self.handle)

  unfoldable pub process_times :
      ProcessHandle → Task S (ProcessResult (FileTime × FileTime × FileTime × FileTime))
  process_times self = map_task (report (codes "GetProcessTimes")) (sys.process_times self.handle)

  unfoldable pub cpu_time : ProcessHandle → Task S (ProcessResult (CpuTime Time))
  unfolding process_times
  cpu_time self = do
    times ← process_times self
    ready (ok (record { user = clock.into_time times.3; kernel = clock.into_time times.2 }))

  unfoldable pub create_time : ProcessHandle → Task S (ProcessResult Time)
  unfolding process_times
  create_time self = do
    times ← process_times self
    ready (ok (clock.minus_epoch_delta (clock.into_time times.0)))

  abbrev priority_for : IoResult Priority → ProcessResult Priority
  priority_for (ok p) = ok p
  priority_for (err e) = err (from_io e)
  priority_for panic = panic

  -- `priority`, with the constants of winapi
  unfoldable pub priority : Classes → ProcessHandle → Task S (ProcessResult Priority)
  unfolding try_from
  priority classes self = do
    result ← map_task (report (codes "GetPriorityClass")) (sys.priority_class self.handle)
    ready (priority_for (try_from classes result))

  unfoldable pub is_wow64 : ProcessHandle → Task S (ProcessResult Bool)
  is_wow64 self = map_task (report (codes "IsWow64Process")) (sys.is_wow64 self.handle)

  abbrev pub again :
      (IoError → Task S (ProcessResult Bytes)) → IoResult Bytes → Task S (ProcessResult Bytes)
  again go (ok bytes) s = (ok bytes, s)
  again go (err e) s =
      if fails_with e sys.error_partial_copy
      then go e s
      else (err (load (with_ffi (last_os_error e) (codes "ReadProcessMemory"))), s)
  again go panic s = (panic, s)

  -- The loop of `read_memory`, by the rounds that are left and the error of the last one.
  unfoldable pub read_loop : ℕ → ProcessHandle → ℕ → ℕ → IoError → Task S (ProcessResult Bytes)
  read_loop zero self src len e s =
      (err (load (with_ffi (last_os_error e) (codes "ReadProcessMemory"))), s)
  read_loop (suc rounds) self src len e s =
      let r = sys.read_process_memory self.handle src len s in
      again (read_loop rounds self src len) r.0 r.1

  -- `read_memory`, with the last error of the thread
  unfoldable pub read_memory : ProcessHandle → ℕ → ℕ → IoError → Task S (ProcessResult Bytes)
  unfolding read_loop
  read_memory self src len e = read_loop 5 self src len e

  abbrev queried : Str → Outcome ℕ ℕ → ProcessResult ℕ
  queried name (ok address) = ok address
  queried name (err status) = err (load (with_ffi (from_raw_os_error (sys.nt_code status)) name))
  queried name panic = panic

  -- `get_process_basic_information`, of which only the address of the PEB is read
  unfoldable pub get_process_basic_information : ProcessHandle → Task S (ProcessResult ℕ)
  get_process_basic_information self =
      map_task (queried (codes "NtQueryInformationProcessBasicInfo")) (sys.peb_address self.handle)

  module _ (thread_error : IoError) where
    abbrev read_some : ProcessHandle → ℕ → ℕ → Task S (ProcessResult (Option Bytes))
    unfolding read_memory
    read_some self src len = map_task (map_ok some) (read_memory self src len thread_error)

    unfoldable pub get_peb32 : ProcessHandle → Task S (ProcessResult (Option Bytes))
    unfolding read_some
    get_peb32 self = do
      peb32_remote_addr ←
          map_task (queried (codes "NtQueryInformationProcessPeb32"))
            (sys.peb32_address self.handle)
      if peb32_remote_addr == 0
          then ready (ok none)
          else read_some self peb32_remote_addr layout.peb32_size

    abbrev params_of :
        ProcessHandle → (Bytes → ℕ) → ℕ → Option Bytes → Task S (ProcessResult (Option Bytes))
    unfolding read_some
    params_of self parameters size none = ready (ok none)
    params_of self parameters size (some peb) = read_some self (parameters peb) size

    unfoldable pub get_process_parameters32 : ProcessHandle → Task S (ProcessResult (Option Bytes))
    unfolding get_peb32 params_of
    get_process_parameters32 self = do
      peb32 ← get_peb32 self
      params_of self layout.peb32_parameters layout.params32_size peb32

    unfoldable pub get_peb : ProcessHandle → Task S (ProcessResult (Option Bytes))
    unfolding is_wow64 get_process_basic_information read_some
    get_peb self = do
      wow64 ← is_wow64 self
      if wow64
          then ready (ok none)
          else do pbi ← get_process_basic_information self; read_some self pbi layout.peb_size

    unfoldable pub get_process_parameters : ProcessHandle → Task S (ProcessResult (Option Bytes))
    unfolding get_peb params_of
    get_process_parameters self = do
      peb ← get_peb self
      params_of self layout.peb_parameters layout.params_size peb

    abbrev path_of : Option (List ℕ) → ProcessResult (List ℕ)
    path_of none = panic
    path_of (some path) = ok path

    abbrev read_path : ProcessHandle → ℕ × ℕ → Task S (ProcessResult (List ℕ))
    unfolding read_memory wide
    read_path self (src, len) = do
      buf ← read_memory self src len thread_error
      ready (path_of (wide buf))

    abbrev cwd_by : ProcessHandle → Option Bytes → Task S (ProcessResult (List ℕ))
    unfolding read_path
    cwd_by self none = ready (err (unreadable_peb (pos self.pid)))
    cwd_by self (some params) = read_path self (layout.directory params)

    abbrev cwd_by32 : ProcessHandle → Option Bytes → Task S (ProcessResult (List ℕ))
    unfolding get_process_parameters read_path cwd_by
    cwd_by32 self (some params) = read_path self (layout.directory32 params)
    cwd_by32 self none = do params ← get_process_parameters self; cwd_by self params

    -- `ProcessHandle::cwd`
    unfoldable pub cwd : ProcessHandle → Task S (ProcessResult (List ℕ))
    unfolding get_process_parameters32 cwd_by32
    cwd self = do params32 ← get_process_parameters32 self; cwd_by32 self params32
