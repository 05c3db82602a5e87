-- ===== src/Process/Procfs.antt =====
-- heim-process/src/sys/linux/process/procfs: the functions that read the files of a process.
pub mod Missing
use heim.Prelude.{ℕ, Bool, true, false, Option, none, some, if◌then◌else◌}
use heim.Outcome.{ok, err, panic, map_err}
use heim.Text.{Str, Bytes, codes, as_bytes}
use heim.Text.Signed.{show_int}
use heim.Common.Errors.{
  ℤ, ErrorKind, not_found, permission_denied, IoResult, kind_of_io, io_raw_os_error, with_file,
}
use heim.Common.Errors
use heim.Runtime.Fs.{FilePath, join}
use heim.Runtime.Task.{Task, ready, await, ◌>>=◌}
use heim.Host.BootTime.{boot_time}
use heim.Memchr.{Memchr}
use heim.Process.Errors.{ProcessResult, no_such_process, access_denied, from_io, from_error}
use heim.Common.Int.{int_eq}
use heim.Process.System.{System, Times}
use heim.Process.Env.{Environment, from_bytes}
use heim.Process.Command.{Command}
use heim.Process.Command
use heim.Process.Stat.{Stat}
use heim.Process.Stat
use heim.Process.Statm.{Memory}
use heim.Process.Statm
use heim.Process.IoCounters.{IoCounters}
use heim.Process.IoCounters

abbrev pub is_not_found : ErrorKind → Bool
is_not_found not_found = true
is_not_found _ = false

abbrev pub is_permission_denied : ErrorKind → Bool
is_permission_denied permission_denied = true
is_permission_denied _ = false

module _ {S : Type 0} (sys : System S) where
  open sys use {procfs_root, read_to_string, read, decode}

  -- `process_file_path`: three pushes; the capacity of the buffer is not observed.
  abbrev pub process_file_path : ℤ → Str → FilePath
  process_file_path pid filename = join (join procfs_root (show_int pid)) filename

  abbrev read_environ : Memchr → ℤ → IoResult Bytes → ProcessResult (Option Environment)
  read_environ m pid (ok contents) = ok (from_bytes m contents)
  read_environ m pid (err e) =
      if is_not_found (kind_of_io decode e)
      then err (no_such_process pid)
      else if is_permission_denied (kind_of_io decode e)
      then err (access_denied pid)
      else err (from_io e)
  read_environ m pid panic = panic

  -- `environment`; the option is that of `from_bytes`
  unfoldable pub environment : Memchr → ℤ → Task S (ProcessResult (Option Environment))
  environment m pid =
      await (read (process_file_path pid (codes "environ"))) (λ r. ready (read_environ m pid r))

  abbrev read_cmdline : ℤ → IoResult Str → ProcessResult Command
  read_cmdline pid (ok contents) = ok (Command.from (as_bytes contents))
  read_cmdline pid (err e) =
      if is_not_found (kind_of_io decode e) then err (no_such_process pid) else err (from_io e)
  read_cmdline pid panic = panic

  -- `command`
  unfoldable pub command : ℤ → Task S (ProcessResult Command)
  command pid =
      await (read_to_string (process_file_path pid (codes "cmdline")))
        (λ r. ready (read_cmdline pid r))

  module _ {Time : Type 0} (times : Times Time) where
    abbrev pub stat_contents : ℤ → IoResult Str → ProcessResult Str
    stat_contents pid (ok contents) = ok contents
    stat_contents pid (err e) =
        if is_not_found (kind_of_io decode e)
        then err (no_such_process pid)
        else err (from_error (with_file (Errors.from_io e) (process_file_path pid (codes "stat"))))
    stat_contents pid panic = panic

    -- `stat`
    unfoldable pub stat : ℤ → Task S (ProcessResult (Stat Time))
    stat pid = do
      contents ←
          await (read_to_string (process_file_path pid (codes "stat")))
            (λ r. ready (stat_contents pid r))
      stats ← ready (map_err from_error (Stat.from_str times.of_ticks contents))
      boot_time ←
          await (boot_time times.parse procfs_root read_to_string)
            (λ r. ready (map_err from_error r))
      ready (ok (record stats { create_time = times.plus stats.create_time boot_time }))

  module _ {Information : Type 0} (byte : ℕ → Information) (page_size : ℕ) where
    abbrev read_statm : IoResult Str → ProcessResult (Memory Information)
    read_statm (ok contents) = map_err from_error (Statm.from_str byte page_size contents)
    read_statm (err e) = err (from_error (Errors.from_io e))
    read_statm panic = panic

    -- `stat_memory`, with its call of `read_into`
    unfoldable pub stat_memory : ℤ → Task S (ProcessResult (Memory Information))
    stat_memory pid =
        await (read_to_string (process_file_path pid (codes "statm"))) (λ r. ready (read_statm r))

  abbrev pub is_code : Option ℤ → ℤ → Bool
  is_code none code = false
  is_code (some c) code = int_eq c code

  abbrev read_io : ℤ → IoResult Str → ProcessResult IoCounters
  read_io pid (ok contents) = map_err from_error (IoCounters.from_str contents)
  read_io pid (err e) =
      if is_code (io_raw_os_error e) sys.eacces then err (access_denied pid) else err (from_io e)
  read_io pid panic = panic

  -- `io`
  unfoldable pub io : ℤ → Task S (ProcessResult IoCounters)
  io pid = await (read_to_string (process_file_path pid (codes "io"))) (λ r. ready (read_io pid r))
