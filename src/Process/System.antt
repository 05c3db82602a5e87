-- ===== src/Process/System.antt =====
-- What heim-process asks of the system on Linux, as parameters: the files, the calls of libc and
-- the clock of the runtime. The state is the caller's whole surrounding, so a request can find that
-- other processes went on. Also the operations on times, which are floating-point numbers there.
use heim.Prelude.{ℕ, Bool, List}
use heim.Outcome.{Outcome}
use heim.Text.{Str, Bytes}
use heim.Common.Errors.{ℤ, ErrorKind, IoResult, IoError, os, ParseFloatError}
use heim.Runtime.Fs.{FilePath, DirEntry}
use heim.Runtime.Task.{Task}

pub record System (S : Type 0) : Type 0 where
  pub procfs_root : FilePath
  pub read_to_string : FilePath → Task S (IoResult Str)
  pub read : FilePath → Task S (IoResult Bytes)
  pub read_link : FilePath → Task S (IoResult FilePath)
  pub read_dir : FilePath → Task S (IoResult (List (IoResult DirEntry)))
  pub kill : ℤ → ℤ → Task S ℤ
  pub waitpid : ℤ → Task S ℤ
  pub getpriority : ℤ → Task S ℤ
  pub setpriority : ℤ → ℤ → Task S ℤ
  pub getpid : Task S ℤ
  pub errno : S → ℤ
  pub set_errno : ℤ → S → S
  -- The next item of the runtime's interval.
  pub tick : S → S
  -- `io::Error::kind` of an error code, and the codes that the sources name
  pub decode : ℤ → ErrorKind
  pub esrch : ℤ
  pub eperm : ℤ
  pub eacces : ℤ

-- `io::Error::last_os_error`
abbrev pub last_os_error : {S : Type 0} → System S → S → IoError
last_os_error sys s = os (sys.errno s)

-- `Time`: the time of a number of clock ticks, the time of a text in seconds, the sum, whether the
-- number of seconds is not a number, and `==` of the numbers of seconds.
pub record Times (Time : Type 0) : Type 0 where
  pub of_ticks : ℕ → Time
  pub parse : Str → Outcome ParseFloatError Time
  pub plus : Time → Time → Time
  pub is_nan : Time → Bool
  pub same : Time → Time → Bool
