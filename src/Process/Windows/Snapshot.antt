-- ===== src/Process/Windows/Snapshot.antt =====
-- heim-process/src/sys/windows/bindings/snapshot.rs, and what process/mod.rs finds in a snapshot.
pub mod Errors
use heim.Prelude.{
  ℕ, zero, suc, Bool, true, false, Option, none, some, List, [], ◌∷◌, ◌==◌, if◌then◌else◌,
}
use heim.Outcome.{Outcome, ok, err, panic, map_err}
use heim.Text.{Str, codes}
use heim.Common.Errors.{pos, Result, IoResult, IoError, last_os_error, with_ffi, from_io}
use heim.Common.Memory.{before_zero}
use heim.Runtime.Task.{Task}
use heim.Process.Errors.{ProcessResult, no_such_process, load}
use heim.Process.Windows.{Kernel, ProcessEntry, fails_with, map_task}

pub record Snapshot : Type 0 where
  pub handle : ℕ
  pub first : Bool

module _ {S FileTime : Type 0} (sys : Kernel S FileTime) where
  abbrev created : IoResult ℕ → Result Snapshot
  created (ok handle) = ok (record { handle = handle; first = true })
  created (err e) = err (with_ffi (last_os_error e) (codes "CreateToolhelp32Snapshot"))
  created panic = panic

  -- `Snapshot::new`
  unfoldable pub new : Task S (Result Snapshot)
  new = map_task created sys.create_snapshot

  abbrev item : IoResult ProcessEntry → Option (Result ProcessEntry)
  item (ok entry) = some (ok entry)
  item (err e) = if fails_with e sys.error_no_more_files then none else some (err (from_io e))
  item panic = some panic

  abbrev request : Snapshot → Bool → Task S (IoResult ProcessEntry)
  request self true = sys.process_first self.handle
  request self false = sys.process_next self.handle

  -- `Iterator::next`
  unfoldable pub next : Snapshot → Task S (Option (Result ProcessEntry) × Snapshot)
  next self s =
      let r = request self self.first s in ((item r.0, record self { first = false }), r.1)

  -- `flatten` and `find`: an item that is an error is passed over. The outer `none` means that the
  -- fuel ran out.
  abbrev pub look :
      (Snapshot → Task S (Option (Result (Option ProcessEntry))))
      → ℕ
      → Option (Result ProcessEntry)
      → Snapshot
      → Task S (Option (Result (Option ProcessEntry)))
  look go pid none self s = (some (ok none), s)
  look go pid (some (ok entry)) self s =
      if entry.process_id == pid then (some (ok (some entry)), s) else go self s
  look go pid (some (err e)) self s = go self s
  look go pid (some panic) self s = (some panic, s)

  unfoldable pub find : ℕ → ℕ → Snapshot → Task S (Option (Result (Option ProcessEntry)))
  unfolding next
  find zero pid self s = (none, s)
  find (suc fuel) pid self s =
      let r = next self s in let go = find fuel pid in look go pid r.0.0 r.0.1 r.1

  abbrev chosen :
      {A : Type 0}
      → (ProcessEntry → A)
      → ℕ
      → Option (Result (Option ProcessEntry))
      → Option (ProcessResult A)
  chosen read pid none = none
  chosen read pid (some (ok none)) = some (err (no_such_process (pos pid)))
  chosen read pid (some (ok (some entry))) = some (ok (read entry))
  chosen read pid (some (err e)) = some (err (load e))
  chosen read pid (some panic) = some panic

  -- What is read of the entry of a process in a new snapshot.
  abbrev pub search :
      {A : Type 0}
      → (ProcessEntry → A)
      → ℕ
      → ℕ
      → Result Snapshot
      → Task S (Option (ProcessResult A))
  unfolding find
  search read fuel pid (ok snapshot) s = map_task (chosen read pid) (find fuel pid snapshot) s
  search read fuel pid (err e) s = (some (err (load e)), s)
  search read fuel pid panic s = (some panic, s)

  unfoldable pub from_snapshot :
      {A : Type 0} → (ProcessEntry → A) → ℕ → ℕ → Task S (Option (ProcessResult A))
  unfolding new search
  from_snapshot read fuel pid s = let r = new s in search read fuel pid r.0 r.1

  -- `Process::parent_pid`
  unfoldable pub parent_pid : ℕ → ℕ → Task S (Option (ProcessResult ℕ))
  unfolding from_snapshot
  parent_pid fuel pid = from_snapshot (λ entry. entry.parent_process_id) fuel pid

  -- The last attempt of `Process::name`
  unfoldable pub name_in_snapshot : (List ℕ → Str) → ℕ → ℕ → Task S (Option (ProcessResult Str))
  unfolding from_snapshot
  name_in_snapshot lossy fuel pid =
      from_snapshot (λ entry. lossy (before_zero entry.exe_file)) fuel pid
