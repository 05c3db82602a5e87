-- ===== src/Host/Platform.antt =====
-- heim-host/src/sys/unix/platform.rs. The crate platforms has the type of architectures and the names
-- that it knows; `uname` is the call of libc, with the system's error if it failed. `lossy` is
-- `CStr::to_string_lossy`.
use heim.Prelude.{Option, none, some, ◌||◌, if◌then◌else◌}
use heim.Outcome.{ok, ◌>>=◌, map_err}
use heim.Text.{Str, Bytes, codes, str_eq}
use heim.Common.Errors.{Result, IoResult, last_os_error, with_ffi}

-- What the sources use of the crate platforms.
pub record Arches (Arch : Type 0) : Type 0 where
  pub from_str : Str → Option Arch
  pub arm : Arch
  pub powerpc64 : Arch
  pub unknown : Arch

-- `libc::utsname`, each field up to its first zero byte.
pub record Utsname : Type 0 where
  pub sysname : Bytes
  pub nodename : Bytes
  pub release : Bytes
  pub version : Bytes
  pub machine : Bytes

pub record Platform (Arch : Type 0) : Type 0 where
  pub system : Str
  pub release : Str
  pub version : Str
  pub hostname : Str
  pub arch : Arch

module _ {Arch : Type 0} (arches : Arches Arch) where
  abbrev known_names : Str → Option Arch
  known_names raw =
      if str_eq raw (codes "armv7") || str_eq raw (codes "armv7l") || str_eq raw (codes "arm64")
      then some arches.arm
      else if str_eq raw (codes "ppc64") || str_eq raw (codes "ppc64le")
      then some arches.powerpc64
      else none

  abbrev first_known : Option Arch → Option Arch → Option Arch
  first_known none other = other
  first_known (some arch) other = some arch

  -- `arch_from_uname`
  unfoldable pub arch_from_uname : Str → Option Arch
  arch_from_uname raw = first_known (arches.from_str raw) (known_names raw)

  abbrev or_unknown : Option Arch → Arch
  or_unknown none = arches.unknown
  or_unknown (some arch) = arch

  -- `platform`; the message to the log is left out.
  unfoldable pub platform : (Bytes → Str) → IoResult Utsname → Result (Platform Arch)
  unfolding arch_from_uname
  platform lossy uname = do
    uts ← map_err (λ e. with_ffi (last_os_error e) (codes "uname")) uname
    ok (record {
      system = lossy uts.sysname;
      release = lossy uts.release;
      version = lossy uts.version;
      hostname = lossy uts.nodename;
      arch = or_unknown (arch_from_uname (lossy uts.machine));
    })
