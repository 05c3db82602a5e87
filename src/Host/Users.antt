-- ===== src/Host/Users.antt =====
-- heim-host/src/sys/unix/users.rs and sys/linux/users/other.rs: the entries of utmp. The list of
-- entries is what `getutxent` returns in turn. `lossy` is `CStr::to_string_lossy`.
pub mod Fields
use heim.Prelude.{
  ℕ, zero, suc, ◌+◌, ◌*◌, ◌/◌, ◌%◌, ◌^◌, Option, none, some, List, [], ◌∷◌, ◌++◌, map, ◌==◌, ◌&&◌,
  Bool, if◌then◌else◌,
}
use heim.Outcome.{Outcome, ok}
use heim.Text.{Str, Bytes}
use heim.Common.Errors.{ℤ, Result}
use heim.Common.Memory.{be_bytes}

-- The four words of an address, as u32.
pub record Words : Type 0 where
  pub w0 : ℕ
  pub w1 : ℕ
  pub w2 : ℕ
  pub w3 : ℕ

-- `libc::utmpx`: the fields that the sources read, in the order of the struct; `behind` is what
-- follows the host's name in memory.
pub record Utmpx : Type 0 where
  pub ut_type : ℤ
  pub ut_pid : ℤ
  pub ut_line : Bytes
  pub ut_id : Bytes
  pub ut_user : Bytes
  pub ut_host : Bytes
  pub behind : Bytes
  pub ut_session : ℤ
  pub ut_addr_v6 : Words

-- `IpAddr`, by its octets
pub data IpAddr : Type 0 where
  v4 : Bytes → IpAddr
  v6 : Bytes → IpAddr

-- The number that the copy of the four words leaves in a `u128`, on a little-endian machine.
abbrev pub raw_ip : Words → ℕ
raw_ip a = a.w0 + 2 ^ 32 * (a.w1 + 2 ^ 32 * (a.w2 + 2 ^ 32 * a.w3))

-- `from_ut_addr_v6`
unfoldable pub from_ut_addr_v6 : Words → Option IpAddr
unfolding be_bytes
from_ut_addr_v6 a =
    if a.w1 == 0 && a.w2 == 0 && a.w3 == 0
    then (if a.w0 == 0 then none else some (v4 (be_bytes 4 a.w0)))
    else some (v6 (be_bytes 16 (raw_ip a)))

-- `CStr::from_ptr`: the bytes up to the first zero, whatever field it stands in.
unfoldable pub c_str : Bytes → Bytes
c_str [] = []
c_str (b ∷ s) = let rest = c_str s in if b == 0 then [] else b ∷ rest

pub record User : Type 0 where
  pub username : Str
  pub terminal : Str
  pub id : Str
  pub hostname : Str
  pub pid : ℤ
  pub addr : Option IpAddr
  pub session_id : ℤ

module _ (lossy : Bytes → Str) where
  -- `User::from`
  unfoldable pub from : Utmpx → User
  unfolding c_str from_ut_addr_v6
  from entry =
      let host = entry.ut_host ++ entry.behind in
      let user = entry.ut_user ++ host in
      let id = entry.ut_id ++ user in
      record {
        username = lossy (c_str user);
        terminal = lossy (c_str (entry.ut_line ++ id));
        id = lossy (c_str id);
        hostname = lossy (c_str host);
        pid = entry.ut_pid;
        addr = from_ut_addr_v6 entry.ut_addr_v6;
        session_id = entry.ut_session;
      }

  -- The loop of `get_users`; `is_user` is the test for `USER_PROCESS`.
  unfoldable pub get_users : (ℤ → Bool) → List Utmpx → List User
  unfolding from
  get_users is_user [] = []
  get_users is_user (entry ∷ entries) =
      let users = get_users is_user entries in
      if is_user entry.ut_type then from entry ∷ users else users

  -- `users`, with what its stream yields
  unfoldable pub users : (ℤ → Bool) → List Utmpx → Result (List (Result User))
  unfolding get_users
  users is_user entries = ok (map ok (get_users is_user entries))
