-- ===== src/Net/Adapters.antt =====
-- heim-net/src/sys/windows/nic.rs. The adapters and their addresses are linked lists of the system;
-- they stand as lists here. A null pointer that the source follows is undefined behaviour; it stands
-- as a panic.
pub mod Masks
pub mod Addresses
use heim.Prelude.{
  ℕ, ◌+◌, ◌-◌, ◌*◌, ◌%◌, ◌^◌, Bool, false, ◌&&◌, Option, none, some, List, [], ◌∷◌, ◌++◌, ltb, leb,
  ◌==◌, if◌then◌else◌,
}
use heim.Outcome.{Outcome, ok, err, panic, ◌>>=◌, map_ok}
use heim.Text.{Str, Bytes, codes}
use heim.Common.Errors.{pos, Result, from_raw_os_error, with_ffi}
use heim.Common.Memory.{be_bytes}

-- `SocketAddrV4` and `SocketAddrV6`, with the octets of the address.
pub record SocketAddrV4 : Type 0 where
  pub ip : Bytes
  pub port : ℕ

pub record SocketAddrV6 : Type 0 where
  pub ip : Bytes
  pub port : ℕ
  pub flow_info : ℕ
  pub scope_id : ℕ

pub data Address : Type 0 where
  inet : SocketAddrV4 → Address
  inet6 : SocketAddrV6 → Address

-- The memory of a socket address, read as `SOCKADDR` (the family and fourteen bytes) and as
-- `SOCKADDR_IN6`.
pub record Sockaddr : Type 0 where
  pub sa_family : ℕ
  pub sa_data : ℕ → ℕ
  pub sin6_port : ℕ
  pub sin6_flowinfo : ℕ
  pub sin6_addr : Bytes
  pub sin6_scope_id : ℕ

-- `SOCKET_ADDRESS`; the pointer may be null.
pub record SocketAddress : Type 0 where
  pub lp_sockaddr : Option Sockaddr
  pub sockaddr_length : ℕ

-- `IP_ADAPTER_UNICAST_ADDRESS`
pub record UnicastAddress : Type 0 where
  pub address : SocketAddress
  pub on_link_prefix_length : ℕ

-- `IP_ADAPTER_ADDRESSES`: the fields that the source reads, the names as the texts that they hold.
pub record AdapterAddresses : Type 0 where
  pub if_index : ℕ
  pub adapter_name : Option Str
  pub friendly_name : Str
  pub oper_status : ℕ
  pub unicast : List UnicastAddress

pub record Nic : Type 0 where
  pub index : ℕ
  pub guid : Str
  pub friendly_name : Str
  pub is_up : Bool
  pub address : Option Address
  pub netmask : Option Address

-- The cast of a signed byte to `u16`.
abbrev pub as_u16 : ℕ → ℕ
as_u16 b = if ltb b 128 then b else b + 0xff00

-- The size of `SOCKADDR_IN` is 16, that of `SOCKADDR_IN6` is 28.
abbrev ipv4_of : Sockaddr → Address
ipv4_of sa =
    let arr = sa.sa_data in
    inet (record {
      ip = arr 2 ∷ arr 3 ∷ arr 4 ∷ arr 5 ∷ [];
      port = (as_u16 (arr 0) + as_u16 (arr 1) * 0x100 % 2 ^ 16) % 2 ^ 16;
    })

abbrev ipv6_of : Sockaddr → Address
ipv6_of sa = inet6 (record {
  ip = sa.sin6_addr;
  port = sa.sin6_port;
  flow_info = sa.sin6_flowinfo;
  scope_id = sa.sin6_scope_id;
})

abbrev map_sockaddr : (Sockaddr → Address) → Option Sockaddr → Option Address
map_sockaddr f none = none
map_sockaddr f (some sa) = some (f sa)

unfoldable pub sockaddr_to_ipv4 : SocketAddress → Option Address
sockaddr_to_ipv4 sa =
    if ltb sa.sockaddr_length 16 then none else map_sockaddr ipv4_of sa.lp_sockaddr

unfoldable pub sockaddr_to_ipv6 : SocketAddress → Option Address
sockaddr_to_ipv6 sa =
    if ltb sa.sockaddr_length 28 then none else map_sockaddr ipv6_of sa.lp_sockaddr

-- `checked_shl` of the greatest number of so many bits, and 0 if the shift is as wide.
abbrev pub shifted_max : ℕ → ℕ → ℕ
shifted_max bits shift = if ltb shift bits then ((2 ^ bits - 1) * 2 ^ shift) % 2 ^ bits else 0

unfoldable pub ipv4_netmask_from : ℕ → Bytes
ipv4_netmask_from length =
    be_bytes 4 (if leb length 32 then shifted_max 32 (32 - length) else 2 ^ 32 - 1)

unfoldable pub ipv6_netmask_from : ℕ → Bytes
ipv6_netmask_from length =
    be_bytes 16 (if leb length 128 then shifted_max 128 (128 - length) else 2 ^ 128 - 1)

abbrev pub ipv4_netmask_address_from : ℕ → Address
ipv4_netmask_address_from length = inet (record { ip = ipv4_netmask_from length; port = 0 })

abbrev pub ipv6_netmask_address_from : ℕ → Address
ipv6_netmask_address_from length =
    inet6 (record { ip = ipv6_netmask_from length; port = 0; flow_info = 0; scope_id = 0 })

-- `Nic::address`
unfoldable pub address : Nic → Address
address self = elim self.address [
  | some a ↦ a
  | none ↦ inet (record { ip = 0 ∷ 0 ∷ 0 ∷ 0 ∷ []; port = 0 })
]

-- The tests `is_loopback` and `is_multicast` of the standard library are parameters.
module _ (tests_v4 tests_v6 : Bytes → Bool) where
  abbrev test_octets : Option Address → Bool
  test_octets none = false
  test_octets (some (inet sa)) = tests_v4 sa.ip
  test_octets (some (inet6 sa6)) = tests_v6 sa6.ip

  -- `Nic::is_loopback` and `Nic::is_multicast`
  unfoldable pub is_loopback : Nic → Bool
  is_loopback self = test_octets self.address

  unfoldable pub is_multicast : Nic → Bool
  is_multicast self = test_octets self.address

-- The constants of winapi that the source names.
pub record Winsock : Type 0 where
  pub af_inet : ℕ
  pub af_inet6 : ℕ
  pub error_buffer_overflow : ℕ
  pub if_oper_status_up : ℕ

module _ (c : Winsock) where
  -- The match on the family of an address.
  unfoldable pub address_and_mask : UnicastAddress → Sockaddr → Option Address × Option Address
  unfolding sockaddr_to_ipv4 sockaddr_to_ipv6 ipv4_netmask_from ipv6_netmask_from
  address_and_mask cur sa =
      if sa.sa_family == c.af_inet
      then (
        sockaddr_to_ipv4 cur.address,
        some (ipv4_netmask_address_from cur.on_link_prefix_length),
      )
      else if sa.sa_family == c.af_inet6
      then (
        sockaddr_to_ipv6 cur.address,
        some (ipv6_netmask_address_from cur.on_link_prefix_length),
      )
      else (none, none)

  unfoldable pub nic_at : Nic → UnicastAddress → Option Sockaddr → Result Nic
  unfolding address_and_mask
  nic_at base cur none = panic
  nic_at base cur (some sa) =
      let (this_address, this_netmask) = address_and_mask cur sa in
      ok (record base { address = this_address; netmask = this_netmask })

  -- The inner loop, from an address on.
  unfoldable pub nics_from : Nic → List UnicastAddress → Result (List Nic)
  unfolding nic_at
  nics_from base [] = ok []
  nics_from base (cur ∷ rest) = do
    this_nic ← nic_at base cur cur.address.lp_sockaddr
    map_ok (λ nics. this_nic ∷ nics) (nics_from base rest)

  abbrev pub base_nic : AdapterAddresses → Nic
  base_nic iface = record {
    index = iface.if_index;
    guid = elim iface.adapter_name [ none ↦ [] | some name ↦ name ];
    friendly_name = iface.friendly_name;
    is_up = iface.oper_status == c.if_oper_status_up;
    address = none;
    netmask = none;
  }

  -- The first address is read whether there is one or not.
  unfoldable pub nics_of : Nic → List UnicastAddress → Result (List Nic)
  unfolding nics_from
  nics_of base [] = panic
  nics_of base (cur ∷ rest) = nics_from base (cur ∷ rest)

  -- The outer loop.
  unfoldable pub all_nics : List AdapterAddresses → Result (List Nic)
  unfolding nics_of
  all_nics [] = ok []
  all_nics (iface ∷ rest) = do
    nics ← nics_of (base_nic iface) iface.unicast
    map_ok (λ others. nics ++ others) (all_nics rest)

  abbrev read_list : Outcome ℕ (List AdapterAddresses) → Result (List Nic)
  unfolding all_nics
  read_list (ok []) = panic
  read_list (ok (iface ∷ rest)) = all_nics (iface ∷ rest)
  read_list (err code) =
      err (with_ffi (from_raw_os_error (pos code)) (codes "GetAdaptersAddresses"))
  read_list panic = panic

  -- `nic`, with what its stream yields: the code of the first call of `GetAdaptersAddresses`, and
  -- the list that the second one answers or its code.
  unfoldable pub nic : ℕ → Outcome ℕ (List AdapterAddresses) → Result (List Nic)
  unfolding read_list
  nic size_answer list_answer =
      if size_answer == c.error_buffer_overflow
      then read_list list_answer
      else err (with_ffi (from_raw_os_error (pos size_answer)) (codes "GetAdaptersAddresses"))
