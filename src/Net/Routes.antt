-- ===== src/Net/Routes.antt =====
-- heim-net/src/sys/macos/bindings.rs and counters.rs: the messages on interfaces in the answer of
-- the kernel of macOS. A read behind the end of the answer is undefined behaviour in the source; it
-- stands as a panic here.
pub mod Messages
use mathlib.Core.Option
use heim.Prelude.{
  ℕ, zero, suc, ◌+◌, Option, none, some, List, ◌∷◌, [], map, length, take, drop, ltb, leb, ◌==◌,
  if◌then◌else◌,
}
use heim.Outcome.{ok, err, panic, ◌>>=◌, map_ok, map_err}
use heim.Text.{Str, Bytes, codes}
use heim.Common.Errors.{ℤ, Result, IoResult, last_os_error, with_sysctl, with_ffi}
use heim.Common.Memory.{field, before_zero}

-- `if_data64`: the fields that the crate reads.
pub record IfData64 : Type 0 where
  pub ifi_ipackets : ℕ
  pub ifi_ierrors : ℕ
  pub ifi_opackets : ℕ
  pub ifi_oerrors : ℕ
  pub ifi_ibytes : ℕ
  pub ifi_obytes : ℕ
  pub ifi_iqdrops : ℕ

-- `if_msghdr2`: the fields that the crate reads.
pub record IfMsghdr2 : Type 0 where
  pub ifm_msglen : ℕ
  pub ifm_type : ℕ
  pub ifm_index : ℕ
  pub ifm_data : IfData64

-- `if_msghdr_partial`: two bytes and two of one.
pub record IfMsghdrPartial : Type 0 where
  pub ifm_msglen : ℕ
  pub ifm_version : ℕ
  pub ifm_type : ℕ

-- The sizes of the two structs in memory.
abbrev pub partial_size : ℕ
partial_size = 4

abbrev pub hdr2_size : ℕ
hdr2_size = 168

-- The structs in copies of their bytes.
abbrev pub partial_of : Bytes → IfMsghdrPartial
partial_of copy = record {
  ifm_msglen = field 0 2 copy;
  ifm_version = field 2 1 copy;
  ifm_type = field 3 1 copy;
}

abbrev pub hdr2_of : Bytes → IfMsghdr2
hdr2_of copy = record {
  ifm_msglen = field 0 2 copy;
  ifm_type = field 3 1 copy;
  ifm_index = field 12 2 copy;
  ifm_data = record {
    ifi_ipackets = field 56 8 copy;
    ifi_ierrors = field 64 8 copy;
    ifi_opackets = field 72 8 copy;
    ifi_oerrors = field 80 8 copy;
    ifi_ibytes = field 96 8 copy;
    ifi_obytes = field 104 8 copy;
    ifi_iqdrops = field 128 8 copy;
  };
}

-- `Routes`; its field `data` has a word of the language for a name.
pub record Routes : Type 0 where
  pub position : ℕ
  pub bytes : Bytes

abbrev pub partial_at : Routes → IfMsghdrPartial
partial_at self = partial_of (take partial_size (drop self.position self.bytes))

abbrev pub advance : Routes → Routes
advance self = record self { position = self.position + (partial_at self).ifm_msglen }

abbrev pub found : Routes → Result (Option (IfMsghdr2 × Routes))
found self =
    if leb (self.position + hdr2_size) (length self.bytes)
    then ok (some (hdr2_of (take hdr2_size (drop self.position self.bytes)), advance self))
    else panic

-- `libc::RTM_IFINFO2`
module _ (rtm_ifinfo2 : ℕ) where
  -- `Iterator::next`, with the rounds of its loop; `none` means that the fuel ran out.
  unfoldable pub next : ℕ → Routes → Option (Result (Option (IfMsghdr2 × Routes)))
  next zero self = none
  next (suc fuel) self =
      let rest = next fuel (advance self) in
      if self.position == length self.bytes
      then some (ok none)
      else if ltb (self.position + partial_size) (length self.bytes)
      then (if (partial_at self).ifm_type == rtm_ifinfo2 then some (found self) else rest)
      else some panic

  abbrev pub react :
      (Routes → Option (Result (List IfMsghdr2)))
      → Option (Result (Option (IfMsghdr2 × Routes)))
      → Option (Result (List IfMsghdr2))
  react go none = none
  react go (some panic) = some panic
  react go (some (err e)) = some (err e)
  react go (some (ok none)) = some (ok [])
  react go (some (ok (some (hdr, self)))) = Option.map (map_ok (λ hdrs. hdr ∷ hdrs)) (go self)

  -- All that the iterator yields, with the rounds of each call and the number of calls.
  unfoldable pub collect : ℕ → ℕ → Routes → Option (Result (List IfMsghdr2))
  unfolding next
  collect fuel zero self = none
  collect fuel (suc calls) self = react (collect fuel calls) (next fuel self)

-- `net_pf_route`, with the name of the request and the two answers of `sysctl`: the length, and the
-- bytes.
unfoldable pub net_pf_route : List ℤ → IoResult ℕ → (ℕ → IoResult Bytes) → Result Routes
net_pf_route name length_of bytes_of = do
  length ← map_err (λ e. with_sysctl (last_os_error e) name) length_of
  bytes ← map_err (λ e. with_sysctl (last_os_error e) name) (bytes_of length)
  ok (record { position = 0; bytes = bytes })

pub record IoCounters : Type 0 where
  pub name : Str
  pub msg : IfMsghdr2

-- The closure of `io_counters`, with what `if_indextoname` leaves in the buffer of the name.
abbrev pub counters_of : (ℕ → IoResult Bytes) → (Bytes → Str) → IfMsghdr2 → Result IoCounters
counters_of if_indextoname lossy msg = do
  name ←
      map_err (λ e. with_ffi (last_os_error e) (codes "if_indextoname"))
        (if_indextoname msg.ifm_index)
  ok (record { name = lossy (before_zero name); msg = msg })

-- `io_counters`, with all that its stream yields.
unfoldable pub io_counters :
    ℕ
    → ℕ
    → ℕ
    → (ℕ → IoResult Bytes)
    → (Bytes → Str)
    → Result Routes
    → Option (Result (List (Result IoCounters)))
unfolding collect
io_counters rtm_ifinfo2 fuel calls if_indextoname lossy (ok routes) =
    Option.map (map_ok (map (counters_of if_indextoname lossy)))
      (collect rtm_ifinfo2 fuel calls routes)
io_counters rtm_ifinfo2 fuel calls if_indextoname lossy (err e) = some (err e)
io_counters rtm_ifinfo2 fuel calls if_indextoname lossy panic = some panic
