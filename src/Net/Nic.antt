-- ===== src/Net/Nic.antt =====
-- heim-net/src/sys/unix/nic.rs, and the addresses of heim-net/src/nic.rs. The crate nix lists the
-- interfaces and converts the socket addresses of the standard library; `contains` is the test of
-- its flags.
use heim.Prelude.{◌≡◌, ◌↔◌, All, arith, refl, ℕ, Bool, Option, none, some, List, [], ◌∷◌}
use heim.Outcome.{Outcome, ok, panic, map_err, map_ok}
use heim.Text.{Str}
use heim.Common.Errors.{Result, NixError, from_nix}

-- `nix::sys::socket::SockAddr`: the families that the source names, and the others. The parameters
-- are the addresses of the two IP families and of the link level.
pub data SockAddr (V4 V6 Mac : Type 0) : Type 0 where
  inet_v4 : V4 → SockAddr V4 V6 Mac
  inet_v6 : V6 → SockAddr V4 V6 Mac
  link : Mac → SockAddr V4 V6 Mac
  other : SockAddr V4 V6 Mac

-- `Address`
pub data Address (V4 V6 Mac : Type 0) : Type 0 where
  inet : V4 → Address V4 V6 Mac
  inet6 : V6 → Address V4 V6 Mac
  link_level : Mac → Address V4 V6 Mac

-- `nix::ifaddrs::InterfaceAddress`
pub record Nic (V4 V6 Mac Flags : Type 0) : Type 0 where
  pub interface_name : Str
  pub flags : Flags
  pub address : Option (SockAddr V4 V6 Mac)
  pub netmask : Option (SockAddr V4 V6 Mac)
  pub broadcast : Option (SockAddr V4 V6 Mac)
  pub destination : Option (SockAddr V4 V6 Mac)

-- The constants of `InterfaceFlags`
pub record InterfaceFlags (Flags : Type 0) : Type 0 where
  pub iff_up : Flags
  pub iff_running : Flags
  pub iff_broadcast : Flags
  pub iff_loopback : Flags
  pub iff_pointopoint : Flags
  pub iff_multicast : Flags

module _ {V4 V6 Mac : Type 0} where
  -- `Address::from`: a family that is not named panics.
  unfoldable pub from : SockAddr V4 V6 Mac → Result (Address V4 V6 Mac)
  from (inet_v4 addr) = ok (inet addr)
  from (inet_v6 addr) = ok (inet6 addr)
  from (link addr) = ok (link_level addr)
  from other = panic

  abbrev expect_from : Option (SockAddr V4 V6 Mac) → Result (Address V4 V6 Mac)
  unfolding from
  expect_from none = panic
  expect_from (some s) = from s

  abbrev map_from : Option (SockAddr V4 V6 Mac) → Result (Option (Address V4 V6 Mac))
  map_from none = ok none
  map_from (some s) = map_ok some (from s)

  from-panic : (s : SockAddr V4 V6 Mac) → (from s ≡ panic) ↔ (some s ≡ some other)
  unfolding from
  from-panic (inet_v4 addr) = ground arith
  from-panic (inet_v6 addr) = ground arith
  from-panic (link addr) = ground arith
  from-panic other = ground arith

  module _ {Flags : Type 0} where
    -- `Nic::address`
    unfoldable pub address : Nic V4 V6 Mac Flags → Result (Address V4 V6 Mac)
    unfolding from
    address nic = expect_from nic.address

    unfoldable pub netmask : Nic V4 V6 Mac Flags → Result (Option (Address V4 V6 Mac))
    unfolding from
    netmask nic = map_from nic.netmask

    unfoldable pub broadcast : Nic V4 V6 Mac Flags → Result (Option (Address V4 V6 Mac))
    unfolding from
    broadcast nic = map_from nic.broadcast

    unfoldable pub destination : Nic V4 V6 Mac Flags → Result (Option (Address V4 V6 Mac))
    unfolding from
    destination nic = map_from nic.destination

    -- `Nic::index`
    unfoldable pub index : (Str → Option ℕ) → Nic V4 V6 Mac Flags → Option ℕ
    index if_nametoindex nic = if_nametoindex nic.interface_name

    module _ (contains : Flags → Flags → Bool) (c : InterfaceFlags Flags) where
      unfoldable pub is_up : Nic V4 V6 Mac Flags → Bool
      is_up nic = contains nic.flags c.iff_up

      unfoldable pub is_running : Nic V4 V6 Mac Flags → Bool
      is_running nic = contains nic.flags c.iff_running

      unfoldable pub is_broadcast : Nic V4 V6 Mac Flags → Bool
      is_broadcast nic = contains nic.flags c.iff_broadcast

      unfoldable pub is_loopback : Nic V4 V6 Mac Flags → Bool
      is_loopback nic = contains nic.flags c.iff_loopback

      unfoldable pub is_point_to_point : Nic V4 V6 Mac Flags → Bool
      is_point_to_point nic = contains nic.flags c.iff_pointopoint

      unfoldable pub is_multicast : Nic V4 V6 Mac Flags → Bool
      is_multicast nic = contains nic.flags c.iff_multicast

    -- The filter of `nic`.
    abbrev keep :
        Option (SockAddr V4 V6 Mac)
        → Nic V4 V6 Mac Flags
        → List (Nic V4 V6 Mac Flags)
        → List (Nic V4 V6 Mac Flags)
    keep none addr rest = rest
    keep (some s) addr rest = addr ∷ rest

    unfoldable pub with_address : List (Nic V4 V6 Mac Flags) → List (Nic V4 V6 Mac Flags)
    with_address [] = []
    with_address (addr ∷ addrs) = keep addr.address addr (with_address addrs)

    -- `nic`, with what its stream yields; the argument is what `getifaddrs` returns.
    unfoldable pub nic :
        Outcome NixError (List (Nic V4 V6 Mac Flags)) → Result (List (Nic V4 V6 Mac Flags))
    unfolding with_address
    nic addrs = map_ok with_address (map_err from_nix addrs)

    -- Whether `address` of a card panics, by what the system says of it.
    abbrev pub PanicsForFamily : Nic V4 V6 Mac Flags → Type 0
    PanicsForFamily card = (address card ≡ panic) ↔ (card.address ≡ some other)

    keep-PanicsForFamily :
        (o : Option (SockAddr V4 V6 Mac)) (card : Nic V4 V6 Mac Flags)
        (rest : List (Nic V4 V6 Mac Flags))
        → card.address ≡ o
        → All PanicsForFamily rest
        → All PanicsForFamily (keep o card rest)
    unfolding address
    keep-PanicsForFamily none card rest h all = all
    keep-PanicsForFamily (some s) card rest h all = (rw h (from-panic s), all)

    -- The cards that `nic` yields all have an address: asking for it panics only if it is of
    -- another family than IPv4, IPv6 and the link level.
    pub address-with_address :
        (addrs : List (Nic V4 V6 Mac Flags)) → All PanicsForFamily (with_address addrs)
    unfolding with_address address
    address-with_address [] = tt
    address-with_address (addr ∷ addrs) =
        keep-PanicsForFamily addr.address addr (with_address addrs) refl
          (address-with_address addrs)
