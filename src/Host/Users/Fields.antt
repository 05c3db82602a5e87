-- ===== src/Host/Users/Fields.antt =====
-- What a user's fields hold for the memory of an entry of utmp.
use heim.Prelude.{
  ℕ, ◌+◌, ◌*◌, ◌/◌, ◌%◌, ◌<◌, ◌≡◌, ◌≢◌, refl, ap, ◌∙◌, arith, some, [], ◌∷◌, ◌++◌, append_assoc,
  Lacks, ◌==◌, false,
}
use heim.Text.{Str, Bytes}
use heim.Common.Memory.{be_bytes}
use heim.Host.Users.{Utmpx, v4, from_ut_addr_v6, c_str, from}

c_str-zero : (t s : Bytes) → Lacks 0 t → c_str (t ++ 0 ∷ s) ≡ t
unfolding c_str
c_str-zero [] s h = refl
c_str-zero (b ∷ t) s h = ground (arith, c_str-zero t s h.1)

c_str-append : (t s : Bytes) → Lacks 0 t → c_str (t ++ s) ≡ t ++ c_str s
unfolding c_str
c_str-append [] s h = refl
c_str-append (b ∷ t) s h = ground (arith, c_str-append t s h.1)

-- If all bytes of the field for the terminal's identifier are in use, so that none is zero, as in
-- "ts/0", then the identifier that is reported goes on with the name of the user.
pub from-ut_id :
    (lossy : Bytes → Str) (entry : Utmpx) (name pad : Bytes)
    → Lacks 0 entry.ut_id
    → Lacks 0 name
    → entry.ut_user ≡ name ++ 0 ∷ pad
    → ((from lossy entry).id ≡ lossy (entry.ut_id ++ name))
      × ((from lossy entry).username ≡ lossy name)
unfolding from
from-ut_id lossy entry name pad full h shape =
    let host = entry.ut_host ++ entry.behind in
    let user : c_str (entry.ut_user ++ host) ≡ name =
      ap (λ field. c_str (field ++ host)) shape
      ∙ ap c_str (append_assoc name (0 ∷ pad) host)
      ∙ c_str-zero name (pad ++ host) h in
    let id : c_str (entry.ut_id ++ (entry.ut_user ++ host)) ≡ entry.ut_id ++ name =
      c_str-append entry.ut_id (entry.ut_user ++ host) full ∙ ap (λ n. entry.ut_id ++ n) user in
    (ap lossy id, ap lossy user)

-- The number of four octets in memory, on a little-endian machine.
abbrev pub word : ℕ → ℕ → ℕ → ℕ → ℕ
word a b c d = a + 256 * (b + 256 * (c + 256 * d))

-- The address of an entry with an IPv4 address is reported with its octets in reverse order, on a
-- little-endian machine: the entry has them in memory in the order of the network.
pub from_ut_addr_v6-word :
    (a b c d : ℕ)
    → a < 256
    → b < 256
    → c < 256
    → d < 256
    → word a b c d ≢ 0
    → from_ut_addr_v6 (record { w0 = word a b c d; w1 = 0; w2 = 0; w3 = 0 })
      ≡ some (v4 (d ∷ c ∷ b ∷ a ∷ []))
unfolding from_ut_addr_v6 be_bytes
from_ut_addr_v6-word a b c d ha hb hc hd ne =
    let some_octet : (word a b c d == 0) ≡ false = ground arith in
    let first : word a b c d % 256 ≡ a = omega arith in
    let second : word a b c d / 256 % 256 ≡ b = omega arith in
    let third : word a b c d / 256 / 256 % 256 ≡ c = omega arith in
    let fourth : word a b c d / 256 / 256 / 256 % 256 ≡ d = omega arith in
    rw some_octet (rw first (rw second (rw third (rw fourth))))
