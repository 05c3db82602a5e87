-- ===== src/Process/Procfs/Missing.antt =====
-- The files of a process that is not there.
use heim.Prelude.{ℕ, ◌≡◌, false}
use heim.Outcome.{err}
use heim.Text.{Str, codes}
use heim.Common.Errors.{ℤ, IoError, kind_of_io, not_found, io_raw_os_error, from_io}
use heim.Memchr.{Memchr}
use heim.Process.Errors.{no_such_process, load}
use heim.Process.System.{System, Times}
use heim.Process.Procfs.{process_file_path, is_code, environment, command, stat, stat_memory, io}

module _ {S Time Information : Type 0} (sys : System S) (times : Times Time)
    (byte : ℕ → Information) (page_size : ℕ) (m : Memchr) where
  -- If the files of a process are not found, `environment`, `command` and `stat` report that there
  -- is no such process, but `stat_memory` and `io` a failure to load, unless the system's error is
  -- EACCES.
  pub missing :
      (pid : ℤ) (s : S) (e : IoError)
      → ((name : Str) → sys.read_to_string (process_file_path sys pid name) s ≡ (err e, s))
      → ((name : Str) → sys.read (process_file_path sys pid name) s ≡ (err e, s))
      → kind_of_io sys.decode e ≡ not_found
      → is_code sys (io_raw_os_error e) sys.eacces ≡ false
      → (environment sys m pid s ≡ (err (no_such_process pid), s))
        × (command sys pid s ≡ (err (no_such_process pid), s))
        × (stat sys times pid s ≡ (err (no_such_process pid), s))
        × (stat_memory sys byte page_size pid s ≡ (err (load (from_io e)), s))
        × (io sys pid s ≡ (err (load (from_io e)), s))
  unfolding environment command stat stat_memory io
  missing pid s e text bytes kind code = (
    rw (bytes (codes "environ")) (rw kind),
    rw (text (codes "cmdline")) (rw kind),
    rw (text (codes "stat")) (rw kind),
    rw (text (codes "statm")),
    rw (text (codes "io")) (rw code),
  )
