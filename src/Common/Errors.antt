-- ===== src/Common/Errors.antt =====
-- heim-common/src/errors.rs. The optional backtrace is left out: it is a feature that is off by
-- default and nothing reads it but its accessor.
use heim.Prelude.{ℕ, Option, none, some, List, [], ◌∷◌, ◌++◌}
use heim.Outcome.{Outcome}
use heim.Text.{Str, codes}
use heim.Text.Number.{ParseIntError}

-- A C `int`: `negsuc n` is -(n + 1).
pub data ℤ : Type 0 where
  pos : ℕ → ℤ
  negsuc : ℕ → ℤ

-- The kinds of `std::io::ErrorKind` that the sources name, and the others.
pub data ErrorKind : Type 0 where
  not_found permission_denied invalid_data invalid_input other_kind uncategorized : ErrorKind

-- The error types that heim wraps.
pub data NulError : Type 0 where
  nul_error : ℕ → NulError

pub data ParseFloatError : Type 0 where
  parse_float_error : ParseFloatError

pub data NixError : Type 0 where
  sys : ℤ → NixError
  invalid_path invalid_utf8 unsupported_operation : NixError

pub data Payload : Type 0 where
  nul : NulError → Payload
  parse_int : ParseIntError → Payload
  parse_float : ParseFloatError → Payload
  nix : NixError → Payload

-- `std::io::Error`
pub data IoError : Type 0 where
  os : ℤ → IoError
  simple : ErrorKind → IoError
  custom : ErrorKind → Payload → IoError

pub data Context : Type 0 where
  file : Str → Context
  missing_key_in : Str → Str → Context
  sys_ctl : List ℤ → Context
  sys_ctl_by_name : Str → Context
  sys_conf : ℤ → Context
  ffi : Str → Context
  message : Str → Context

pub record Error : Type 0 where
  pub source : IoError
  pub context : Option Context

abbrev pub Result : Type 0 → Type 0
Result A = Outcome Error A

abbrev pub IoResult : Type 0 → Type 0
IoResult A = Outcome IoError A

abbrev pub new : IoError → Context → Error
new e c = record { source = e; context = some c }

-- The argument is what `io::Error::last_os_error` returns.
abbrev pub last_os_error : IoError → Error
last_os_error e = record { source = e; context = none }

abbrev pub from_raw_os_error : ℤ → Error
from_raw_os_error code = record { source = os code; context = none }

abbrev pub missing_key : Str → Str → Error
missing_key name source = record {
  source = simple invalid_data;
  context = some (missing_key_in name source);
}

abbrev pub with_sysctl : Error → List ℤ → Error
with_sysctl e name = record e { context = some (sys_ctl name) }

abbrev pub with_sysctlbyname : Error → Str → Error
with_sysctlbyname e name = record e { context = some (sys_ctl_by_name name) }

abbrev pub with_sysconf : Error → ℤ → Error
with_sysconf e name = record e { context = some (sys_conf name) }

abbrev pub with_ffi : Error → Str → Error
with_ffi e name = record e { context = some (ffi name) }

abbrev pub with_file : Error → Str → Error
with_file e path = record e { context = some (file path) }

abbrev pub with_message : Error → Str → Error
with_message e text = record e { context = some (message text) }

abbrev pub from_io : IoError → Error
from_io e = record { source = e; context = none }

abbrev pub from_nul : NulError → Error
from_nul e = from_io (custom invalid_data (nul e))

abbrev pub from_parse_int : ParseIntError → Error
from_parse_int e = from_io (custom invalid_data (parse_int e))

abbrev pub from_parse_float : ParseFloatError → Error
from_parse_float e = from_io (custom invalid_data (parse_float e))

abbrev from_nix_inner : NixError → IoError
from_nix_inner (sys errno) = os errno
from_nix_inner invalid_path = custom invalid_input (nix invalid_path)
from_nix_inner invalid_utf8 = custom invalid_data (nix invalid_utf8)
from_nix_inner unsupported_operation = custom other_kind (nix unsupported_operation)

unfoldable pub from_nix : NixError → Error
from_nix e = from_io (from_nix_inner e)

-- `io::Error::kind`; `decode` is the system's table of error codes.
abbrev io_kind : (ℤ → ErrorKind) → IoError → ErrorKind
io_kind decode (os code) = decode code
io_kind decode (simple k) = k
io_kind decode (custom k p) = k

abbrev pub kind : (ℤ → ErrorKind) → Error → ErrorKind
kind decode e = io_kind decode e.source

abbrev pub kind_of_io : (ℤ → ErrorKind) → IoError → ErrorKind
kind_of_io = io_kind

abbrev raw_of_io : IoError → Option ℤ
raw_of_io (os code) = some code
raw_of_io (simple k) = none
raw_of_io (custom k p) = none

abbrev pub io_raw_os_error : IoError → Option ℤ
io_raw_os_error = raw_of_io

abbrev pub raw_os_error : Error → Option ℤ
raw_os_error e = io_raw_os_error e.source

-- What `Display` and `Debug` of the standard library print.
module _ (show_io : IoError → Str) (debug_list : List ℤ → Str) (debug_text : Str → Str)
    (show_int : ℤ → Str) where
  show_missing_key : Str → Str → Str
  show_missing_key name [] = codes "Unable to find required key \"" ++ (name ++ codes "\"")
  show_missing_key name (c ∷ source) =
      codes "Unable to find required key \""
      ++ (name ++ (codes "\" in \"" ++ ((c ∷ source) ++ codes "\"")))

  show_context : Context → Str
  unfolding show_missing_key
  show_context (sys_ctl name) = codes "sysctl \"" ++ (debug_list name ++ codes "\" failed")
  show_context (sys_ctl_by_name name) =
      codes "sysctlbyname \"" ++ (debug_text name ++ codes "\" failed")
  show_context (sys_conf name) = codes "sysconf \"" ++ (show_int name ++ codes "\" failed")
  show_context (missing_key_in name source) = show_missing_key name source
  show_context (file path) = codes "Unable to parse \"" ++ (path ++ codes "\", unsupported format")
  show_context (message text) = text
  show_context (ffi func) = codes "FFI function \"" ++ (func ++ codes "\" call failed")

  -- `Display for Error`
  pub show : Error → Str
  unfolding show_context
  show e = elim e.context [
    | none ↦ show_io e.source
    | some c ↦ show_context c ++ (codes ": " ++ show_io e.source)
  ]
