-- ===== src/Process/Handle/Paths.antt =====
-- heim-process/src/sys/linux/process/mod.rs: the name of a process and the paths that procfs links.
-- `lossy` is `OsStr::to_string_lossy`; a path is its bytes.
use heim.Prelude.{Option, none, some, List, [], ◌∷◌, length, leb, if◌then◌else◌}
use heim.Outcome.{ok, err, panic}
use heim.Text.{Str, Bytes, codes, as_bytes, str_eq, starts_with}
use heim.Text.Split.{split}
use heim.Common.Errors.{ℤ, IoResult, kind_of_io}
use heim.Runtime.Fs.{FilePath}
use heim.Runtime.Task.{Task, ready, await, ◌>>=◌}
use heim.Memchr.{Memchr}
use heim.Process.Errors.{ProcessResult, zombie_process, access_denied}
use heim.Process.System.{System, Times}
use heim.Process.Unix.{pid_exists}
use heim.Process.Command.{Command, next, into_iter}
use heim.Process.Procfs.{process_file_path, is_permission_denied, stat, command}
use heim.Process.Handle.{Process}

-- The last name of a path: `Path::file_name`. Empty parts and dots are no names, and two dots at
-- the end have none.
abbrev pub last_name : Option Bytes → List Bytes → Option Bytes
last_name found [] = found
last_name found (part ∷ parts) =
    if str_eq part []
    then last_name found parts
    else if str_eq part (codes ".")
    then last_name found parts
    else if str_eq part (codes "..")
    then last_name none parts
    else last_name (some part) parts

unfoldable pub file_name : Bytes → Option Bytes
unfolding split
file_name path = last_name none (split b'/' path)

module _ {S : Type 0} (sys : System S) {Time : Type 0} (times : Times Time) where
  -- The first argument's file name, if the name that the kernel cut is its start.
  abbrev pub full_name : Memchr → (Bytes → Str) → Str → ProcessResult Command → Str
  full_name m lossy name (ok command) = elim (next m (into_iter command)).0 [
    | none ↦ name
    | some argument ↦ elim (file_name argument) [
      | none ↦ name
      | some exe ↦ if starts_with exe (as_bytes name) then lossy exe else name
    ]
  ]
  full_name m lossy name (err e) = name
  full_name m lossy name panic = name

  abbrev name_for : Memchr → (Bytes → Str) → ℤ → Str → Task S (ProcessResult Str)
  name_for m lossy pid name s =
      if leb 15 (length (as_bytes name))
      then await (command sys pid) (λ r. ready (ok (full_name m lossy name r))) s
      else (ok name, s)

  -- `name`
  unfoldable pub name : Memchr → (Bytes → Str) → Process Time → Task S (ProcessResult Str)
  name m lossy self = do stats ← stat sys times self.pid; name_for m lossy self.pid stats.name

  abbrev exe_for : ℤ → IoResult FilePath → Task S (ProcessResult FilePath)
  exe_for pid (ok path) = ready (ok path)
  exe_for pid (err e) =
      await (pid_exists sys pid)
        (λ alive. ready (if alive then ok [] else err (zombie_process pid)))
  exe_for pid panic = ready panic

  -- `exe`
  unfoldable pub exe : Process Time → Task S (ProcessResult FilePath)
  exe self = await (sys.read_link (process_file_path sys self.pid (codes "exe"))) (exe_for self.pid)

  abbrev cwd_for : ℤ → IoResult FilePath → Task S (ProcessResult FilePath)
  cwd_for pid (ok path) s = (ok path, s)
  cwd_for pid (err e) s =
      if is_permission_denied (kind_of_io sys.decode e)
      then (err (access_denied pid), s)
      else await (pid_exists sys pid)
          (λ alive. ready (err (if alive then zombie_process pid else access_denied pid))) s
  cwd_for pid panic s = (panic, s)

  -- `cwd`
  unfoldable pub cwd : Process Time → Task S (ProcessResult FilePath)
  cwd self = await (sys.read_link (process_file_path sys self.pid (codes "cwd"))) (cwd_for self.pid)
