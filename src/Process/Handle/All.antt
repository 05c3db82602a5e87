-- ===== src/Process/Handle/All.antt =====
-- heim-process/src/sys/linux/pids.rs, and `processes` of process/mod.rs.
use heim.Prelude.{◌^◌, none, some, List, [], ◌∷◌}
use heim.Outcome.{ok, err, panic, map_err, map_ok}
use heim.Text.Signed.{parse_signed}
use heim.Common.Errors.{ℤ, Result, IoResult, kind_of_io}
use heim.Common.Errors
use heim.Runtime.Fs.{DirEntry}
use heim.Runtime.Task.{Task, ready, await}
use heim.Process.Errors.{ProcessResult, from_error}
use heim.Process.System.{System, Times}
use heim.Process.Handle.{Process, get}

module _ {S : Type 0} (sys : System S) {Time : Type 0} (times : Times Time) where
  -- An entry of procfs: whether it is kept, and the number it names.
  abbrev pid_of : IoResult DirEntry → List (Result ℤ) → List (Result ℤ)
  pid_of (err e) rest = err (Errors.from_io e) ∷ rest
  pid_of panic rest = panic ∷ rest
  pid_of (ok entry) rest = elim entry.name_text [
    | none ↦ rest
    | some name ↦ elim (parse_signed (2 ^ 31) name) [
      | ok pid ↦ ok pid ∷ rest
      | err e ↦ rest
      | panic ↦ rest
    ]
  ]

  unfoldable pub pids_of : List (IoResult DirEntry) → List (Result ℤ)
  pids_of [] = []
  pids_of (entry ∷ entries) = pid_of entry (pids_of entries)

  -- `pids`, with what its stream yields
  unfoldable pub pids : Task S (Result (List (Result ℤ)))
  pids =
      await (sys.read_dir sys.procfs_root) (λ r. ready (map_err Errors.from_io (map_ok pids_of r)))

  abbrev get_item : Result ℤ → Task S (ProcessResult (Process Time))
  get_item (ok pid) = get sys times pid
  get_item (err e) = ready (err (from_error e))
  get_item panic = ready panic

  -- The stream's items, each of them asked for when the one before it is there.
  unfoldable pub get_all : List (Result ℤ) → Task S (List (ProcessResult (Process Time)))
  get_all [] = ready []
  get_all (item ∷ items) =
      await (get_item item) (λ r. await (get_all items) (λ rest. ready (r ∷ rest)))

  abbrev stream_of :
      Result (List (Result ℤ)) → Task S (Result (List (ProcessResult (Process Time))))
  stream_of (ok items) = await (get_all items) (λ r. ready (ok r))
  stream_of (err e) = ready (err e)
  stream_of panic = ready panic

  -- `processes`, with what its stream yields
  unfoldable pub processes : Task S (Result (List (ProcessResult (Process Time))))
  unfolding get_all
  processes = await pids stream_of
