-- ===== src/Process/Errors.antt =====
-- heim-process/src/errors.rs
use heim.Prelude.{Option, none, some, List, ◌++◌}
use heim.Outcome.{Outcome}
use heim.Text.{Str, codes}
use heim.Text.Signed.{show_int}
use heim.Common.Errors.{ℤ, IoError, Error}
use heim.Common.Errors

pub data ProcessError : Type 0 where
  no_such_process : ℤ → ProcessError
  zombie_process : ℤ → ProcessError
  access_denied : ℤ → ProcessError
  load : Error → ProcessError
  unreadable_peb : ℤ → ProcessError

abbrev pub ProcessResult : Type 0 → Type 0
ProcessResult A = Outcome ProcessError A

-- `Error::source`
unfoldable pub source : ProcessError → Option Error
source (load e) = some e
source (no_such_process pid) = none
source (zombie_process pid) = none
source (access_denied pid) = none
source (unreadable_peb pid) = none

-- `From<Error>`
abbrev pub from_error : Error → ProcessError
from_error e = load e

-- `From<io::Error>`
abbrev pub from_io : IoError → ProcessError
from_io e = from_error (Errors.from_io e)

-- What `Display` and `Debug` of the standard library print.
module _ (show_io : IoError → Str) (debug_list : List ℤ → Str) (debug_text : Str → Str) where
  -- `Display for ProcessError`
  unfoldable pub show : ProcessError → Str
  show (no_such_process pid) = codes "Process " ++ (show_int pid ++ codes " does not exists")
  show (zombie_process pid) = codes "Process " ++ (show_int pid ++ codes " is zombie")
  show (access_denied pid) = codes "Access denied for process " ++ show_int pid
  show (unreadable_peb pid) = codes "Unable to read process PEB " ++ show_int pid
  show (load e) = Errors.show show_io debug_list debug_text show_int e
