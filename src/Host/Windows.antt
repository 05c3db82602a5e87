-- ===== src/Host/Windows.antt =====
-- heim-host/src/sys/windows/platform.rs. The fields of `OSVERSIONINFOEXW` and of `SYSTEM_INFO` that the
-- source reads; `lossy` is `String::from_utf16_lossy`.
use heim.Prelude.{
  ℕ, ◌+◌, ◌%◌, ◌^◌, ◌≤◌, ◌≡◌, ap, ◌∙◌, arith, ◌&&◌, List, ◌∷◌, ◌++◌, length, length-append, take,
  take_left, ltb, leb, ◌==◌, if◌then◌else◌, if_true, if_false,
}
use heim.Outcome.{Outcome, ok, err, panic, ◌>>=◌}
use heim.Text.{Str, codes}
use heim.Text.Decimal.{decimal}
use heim.Common.Errors.{
  IoError, IoResult, Result, simple, other_kind, from_io, last_os_error, with_ffi,
}

-- The constants of winapi that the source names.
pub record Constants : Type 0 where
  pub ver_nt_workstation : ℕ
  pub ver_nt_server : ℕ
  pub ver_nt_domain_controller : ℕ
  pub ver_suite_wh_server : ℕ
  pub processor_architecture_amd64 : ℕ
  pub processor_architecture_arm : ℕ
  pub processor_architecture_arm64 : ℕ
  pub processor_architecture_ia64 : ℕ
  pub processor_architecture_intel : ℕ

-- The members of `Arch` of the crate platforms that the source names.
pub record Arches (Arch : Type 0) : Type 0 where
  pub x86_64 : Arch
  pub arm : Arch
  pub aarch64 : Arch
  pub x86 : Arch
  pub unknown : Arch

pub record Version : Type 0 where
  pub major : ℕ
  pub minor : ℕ
  pub build_number : ℕ
  pub suite_mask : ℕ
  pub product_type : ℕ

pub record Platform : Type 0 where
  pub processor_arch : ℕ
  pub version : Version
  pub hostname : Str
  pub domain : Str
  pub build : Str

module _ (c : Constants) where
  -- `Platform::system`
  unfoldable pub system : Platform → Result Str
  system self =
      let product = self.version.product_type in
      if product == c.ver_nt_workstation
      then ok (codes "Windows")
      else if product == c.ver_nt_server
      then ok (codes "Windows Server")
      else if product == c.ver_nt_domain_controller
      then ok (codes "Windows Domain Controller")
      else panic

  -- `Platform::release`
  unfoldable pub release : Platform → Str
  release self =
      let v = self.version in
      let is_workstation = v.product_type == c.ver_nt_workstation in
      let is = λ (major minor : ℕ). v.major == major && v.minor == minor in
      if is 10 0
      then codes "10"
      else if is 6 3
      then codes "8.1"
      else if is 6 2
      then (if is_workstation then codes "8" else codes "2012")
      else if is 6 1
      then (if is_workstation then codes "7" else codes "2008 R2")
      else if is 6 0
      then (if is_workstation then codes "Vista" else codes "2008")
      else if is 5 2 && v.suite_mask == c.ver_suite_wh_server
      then codes "Home Server"
      else if is 5 2 && is_workstation
      then codes "XP Professional x64 Edition"
      else if is 5 2
      then codes "2003"
      else if is 5 1
      then codes "XP"
      else if is 5 0
      then codes "2000"
      else codes "unknown"

  -- `Platform::architecture`
  unfoldable pub architecture : {Arch : Type 0} → Arches Arch → Platform → Arch
  architecture arches self =
      let arch = self.processor_arch in
      if arch == c.processor_architecture_amd64
      then arches.x86_64
      else if arch == c.processor_architecture_arm
      then arches.arm
      else if arch == c.processor_architecture_arm64
      then arches.aarch64
      else if arch == c.processor_architecture_ia64
      then arches.unknown
      else if arch == c.processor_architecture_intel
      then arches.x86
      else arches.unknown

-- `GetComputerNameExW` for one kind of name: the size that the call without a buffer asks for, or the
-- last error if that call succeeds, and for a buffer of so many characters the size that it answers
-- and what it leaves in the buffer.
pub record ComputerName : Type 0 where
  pub required : Outcome IoError ℕ
  pub fill : ℕ → IoResult (ℕ × List ℕ)

module _ (lossy : List ℕ → Str) where
  abbrev failed : IoError → Result Str
  failed e = err (with_ffi (last_os_error e) (codes "GetComputerNameEx"))

  abbrev text_of : ℕ → IoResult (ℕ × List ℕ) → Result Str
  text_of required_size (ok (size, buffer)) =
      if ltb required_size size
      then err (from_io (simple other_kind))
      else if leb size (length buffer)
      then ok (lossy (take size buffer))
      else panic
  text_of required_size (err e) = failed e
  text_of required_size panic = panic

  -- `get_value_from_get_computer_name_ex_w`; the text of the last error is left out.
  unfoldable pub get_value : ComputerName → Result Str
  get_value call = elim call.required [
    | ok required_size ↦ text_of required_size (call.fill ((required_size + 1) % 2 ^ 32))
    | err e ↦ failed e
    | panic ↦ panic
  ]

  -- `platform`, with the answers of the calls for the version, the architecture and the two names
  unfoldable pub platform : Version → ℕ → ComputerName → ComputerName → Result Platform
  unfolding get_value
  platform version processor_arch host_call domain_call = do
    hostname ← get_value host_call
    domain ← get_value domain_call
    ok (record {
      processor_arch = processor_arch;
      version = version;
      hostname = hostname;
      domain = domain;
      build = decimal version.build_number;
    })

  -- If the system asks for at least as many characters as the name has, and then leaves the name in
  -- the buffer, with a zero and other characters behind it, the value is the name.
  get_value-name :
      (call : ComputerName) (required_size : ℕ) (name behind : List ℕ)
      → call.required ≡ ok required_size
      → length name ≤ required_size
      → call.fill ((required_size + 1) % 2 ^ 32) ≡ ok (length name, name ++ 0 ∷ behind)
      → get_value call ≡ ok (lossy name)
  unfolding get_value
  get_value-name call required_size name behind asked fits filled =
      let room = length-append name (0 ∷ behind) in
      rw (asked, filled)
        (if_false {c = ltb required_size (length name)} _ _ (ground arith)
          ∙ if_true {c = leb (length name) (length (name ++ 0 ∷ behind))} _ _ (ground arith)
          ∙ ap (λ s. ok (lossy s)) (take_left name (0 ∷ behind)))
