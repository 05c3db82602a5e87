-- ===== src/Process/Windows/Table.antt =====
-- heim-process/src/sys/windows/bindings/processes.rs, and its use in process/suspend.rs: the table of
-- all processes. The layout of an entry is a parameter.
pub mod Search
use heim.Prelude.{
  ℕ, zero, suc, Bool, false, not, ◌||◌, Option, none, some, List, [], ◌∷◌, drop, ◌==◌,
  if◌then◌else◌,
}
use heim.Outcome.{Outcome, ok, err, panic}
use heim.Text.{Bytes, codes}
use heim.Common.Errors.{pos, Result, IoError, last_os_error, with_ffi}
use heim.Runtime.Task.{Task}
use heim.Process.Errors.{ProcessResult, no_such_process, load}
use heim.Process.Windows.{Kernel}

-- `SYSTEM_THREAD_INFORMATION` and `SYSTEM_PROCESS_INFORMATION`: the fields that the source reads.
pub record Thread : Type 0 where
  pub thread_state : ℕ
  pub wait_reason : ℕ

pub record Entry (FileTime : Type 0) : Type 0 where
  pub next_entry_offset : ℕ
  pub unique_process_id : ℕ
  pub create_time : FileTime
  pub threads : List Thread

module _ {S FileTime : Type 0} (sys : Kernel S FileTime) where
  abbrev loaded :
      (ℕ → Task S (Option (Result Bytes)))
      → Outcome (Outcome IoError ℕ) Bytes
      → Task S (Option (Result Bytes))
  loaded again (ok bytes) s = (some (ok bytes), s)
  loaded again (err (ok needed_size)) s = again needed_size s
  loaded again (err (err e)) s =
      (some (err (with_ffi (last_os_error e) (codes "NtQuerySystemInformation"))), s)
  loaded again (err panic) s = (some panic, s)
  loaded again panic s = (some panic, s)

  -- The loop of `NtProcesses::load`, by the capacity of the vector, whose length is zero.
  unfoldable pub load_loop : ℕ → ℕ → Task S (Option (Result Bytes))
  load_loop zero capacity s = (none, s)
  load_loop (suc fuel) capacity s =
      let again = λ (needed_size : ℕ). load_loop fuel (sys.reserve capacity 0 needed_size) in
      let r = sys.system_processes capacity s in loaded again r.0 r.1

  -- `NtProcesses::load`
  unfoldable pub load_table : ℕ → Task S (Option (Result Bytes))
  unfolding load_loop
  load_table fuel = load_loop fuel 0x4000

module _ {FileTime : Type 0} (entry_at : Bytes → Entry FileTime) where
  -- `NtProcessesIter::next`
  unfoldable pub next : Bytes → Option (Entry FileTime × Bytes)
  next bytes = let entry = entry_at bytes in some (entry, drop entry.next_entry_offset bytes)

  abbrev pub step :
      (Bytes → Option (Option (Entry FileTime)))
      → ℕ
      → Option (Entry FileTime × Bytes)
      → Option (Option (Entry FileTime))
  step go pid none = some none
  step go pid (some (entry, rest)) =
      if entry.unique_process_id == pid then some (some entry) else go rest

  -- `find`; the outer `none` means that the fuel ran out.
  unfoldable pub find : ℕ → ℕ → Bytes → Option (Option (Entry FileTime))
  unfolding next
  find zero pid bytes = none
  find (suc fuel) pid bytes = let go = find fuel pid in step go pid (next bytes)

  -- Whether a thread runs, by the constants `Waiting` and `Suspended`
  abbrev pub is_awake : ℕ → ℕ → Thread → Bool
  is_awake waiting suspended thread =
      not (thread.thread_state == waiting) || not (thread.wait_reason == suspended)

  abbrev pub any : {A : Type 0} → (A → Bool) → List A → Bool
  any test [] = false
  any test (x ∷ xs) = test x || any test xs

  abbrev pub suspended_of :
      ℕ → ℕ → ℕ → Option (Option (Entry FileTime)) → Option (ProcessResult Bool)
  suspended_of waiting suspended pid none = none
  suspended_of waiting suspended pid (some none) = some (err (no_such_process (pos pid)))
  suspended_of waiting suspended pid (some (some entry)) =
      some (ok (not (any (is_awake waiting suspended) entry.threads)))

  abbrev pub with_table :
      {A : Type 0}
      → (Bytes → Option (ProcessResult A))
      → Option (Result Bytes)
      → Option (ProcessResult A)
  with_table go none = none
  with_table go (some (ok bytes)) = go bytes
  with_table go (some (err e)) = some (err (load e))
  with_table go (some panic) = some panic

  -- `is_suspended`
  unfoldable pub is_suspended :
      {S : Type 0} → Kernel S FileTime → ℕ → ℕ → ℕ → ℕ → Task S (Option (ProcessResult Bool))
  unfolding load_table find
  is_suspended sys waiting suspended fuel pid s =
      let r = load_table sys fuel s in
      (with_table (λ bytes. suspended_of waiting suspended pid (find fuel pid bytes)) r.0, r.1)

  -- `traverse`; `into_time` is the conversion of a `FILETIME`.
  abbrev pub created_at :
      {Time : Type 0}
      → (FileTime → Time)
      → ℕ
      → Option (Option (Entry FileTime))
      → Option (ProcessResult Time)
  created_at into_time pid none = none
  created_at into_time pid (some none) = some (err (no_such_process (pos pid)))
  created_at into_time pid (some (some entry)) = some (ok (into_time entry.create_time))

  unfoldable pub traverse :
      {S Time : Type 0}
      → Kernel S FileTime
      → (FileTime → Time)
      → ℕ
      → ℕ
      → Task S (Option (ProcessResult Time))
  unfolding load_table find
  traverse sys into_time fuel pid s =
      let r = load_table sys fuel s in
      (with_table (λ bytes. created_at into_time pid (find fuel pid bytes)) r.0, r.1)
