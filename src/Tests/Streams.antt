-- ===== src/Tests/Streams.antt =====
-- What the system answers to the back ends for Windows and macOS, at concrete inputs.
use heim.Prelude.{
  Bool, false, ℕ, zero, suc, ◌+◌, ◌-◌, ◌^◌, ◌≡◌, refl, arith, none, some, List, [], ◌∷◌, ◌++◌, map,
  leb, ◌==◌, if◌then◌else◌,
}
use heim.Outcome.{ok, err, panic, map_ok}
use heim.Text.{Bytes, codes}
use heim.Common.Errors.{pos, os, IoResult, Result}
use heim.Common.Memory.{big_endian, IsReserve}
use heim.Net.Routes.{counters_of, net_pf_route}
use heim.Net.Routes
use heim.Net.Routes.Messages.{Message, frames, headers, io_counters-frames}
use heim.Net.Adapters.{
  Sockaddr, AdapterAddresses, Winsock, nic, ipv4_netmask_from, ipv6_netmask_from, sockaddr_to_ipv4,
  inet,
}
use heim.Net.Adapters.Masks.{netmask_from-prefix, sockaddr_to_ipv4-port}
use heim.Net.Adapters.Addresses.{nic_without_address}
use heim.Disk.Drives.{collect, new}
use heim.Disk.Drives.Listed.{path_of, strings, collect-strings}
use heim.Disk.Volumes.{Search, Device, IoCounters, inner_stream}
use heim.Disk.Volumes.Found.{Finds, Yields, inner_stream-volumes}
use heim.Cpu.Processors.{Query, get, fill, filled, failed, physical_count}
use heim.Cpu.Processors.Growth.{get_overrun}
use heim.Cpu.Processors.Records.{Entry, entries, physical_count-entries}

abbrev zeros : ℕ → Bytes
zeros zero = []
zeros (suc n) = 0 ∷ zeros n

-- A message on an interface between two on addresses
abbrev messages : List Message
messages =
    record { ifm_version = 5; ifm_type = 12; body = zeros 16 }
    ∷ record { ifm_version = 5; ifm_type = 18; body = zeros 164 }
    ∷ record { ifm_version = 5; ifm_type = 12; body = zeros 20 }
    ∷ []

abbrev name_of : ℕ → IoResult Bytes
name_of index = ok (codes "lo0" ++ 0 ∷ [])

io_counters-frames_example :
    Routes.io_counters 18 4 4 name_of
      (λ s. s)
      (net_pf_route (pos 4 ∷ []) (ok 212) (λ _. ok (frames messages)))
    ≡ some (ok (map (counters_of name_of (λ s. s)) (headers 18 messages)))
io_counters-frames_example =
    io_counters-frames 18 4 4 212 name_of (λ s. s) (pos 4 ∷ []) messages
      (
        (omega arith, omega arith, λ h. absurd (omega arith)),
        (
          (omega arith, omega arith, λ h. omega arith),
          ((omega arith, omega arith, λ h. absurd (omega arith)), tt),
        ),
      )
      (omega arith) (omega arith)

netmask_from-prefix_example :
    (big_endian (ipv4_netmask_from 24) ≡ 2 ^ 32 - 2 ^ (32 - 24))
    × (big_endian (ipv6_netmask_from 64) ≡ 2 ^ 128 - 2 ^ (128 - 64))
netmask_from-prefix_example = netmask_from-prefix 24 64 (omega arith) (omega arith)

-- The port 8080 of 10.0.0.1
abbrev sockaddr : Sockaddr
sockaddr = record {
  sa_family = 2;
  sa_data = λ n.
      if n == 0
      then 0x1f
      else if n == 1
      then 0x90
      else if n == 2
      then 10
      else if n == 5
      then 1
      else 0;
  sin6_port = 0x901f;
  sin6_flowinfo = 0;
  sin6_addr = zeros 16;
  sin6_scope_id = 0;
}

-- It is reported as the port 36895.
sockaddr_to_ipv4-port_example :
    sockaddr_to_ipv4 (record { lp_sockaddr = some sockaddr; sockaddr_length = 16 })
    ≡ some (inet (record { ip = 10 ∷ 0 ∷ 0 ∷ 1 ∷ []; port = 0x901f }))
sockaddr_to_ipv4-port_example =
    sockaddr_to_ipv4-port sockaddr 16 (omega arith) (omega arith) (omega arith)

abbrev winsock : Winsock
winsock = record { af_inet = 2; af_inet6 = 23; error_buffer_overflow = 111; if_oper_status_up = 1 }

abbrev ethernet : AdapterAddresses
ethernet = record {
  if_index = 4;
  adapter_name = none;
  friendly_name = codes "Ethernet";
  oper_status = 1;
  unicast =
      record {
        address = record { lp_sockaddr = some sockaddr; sockaddr_length = 16 };
        on_link_prefix_length = 24;
      }
      ∷ [];
}

abbrev unplugged : AdapterAddresses
unplugged = record ethernet { unicast = [] }

nic_without_address_example : nic winsock 111 (ok (ethernet ∷ unplugged ∷ [])) ≡ panic
nic_without_address_example = nic_without_address winsock 111 (ethernet ∷ []) [] unplugged refl refl

collect-strings_example :
    map_ok (collect 3) (new (ok 9) (λ _. ok (strings (b'C' ∷ b'D' ∷ []))))
    ≡ ok (some (ok (record { chars = path_of b'C' } ∷ record { chars = path_of b'D' } ∷ [])))
collect-strings_example =
    collect-strings 3 9 (b'C' ∷ b'D' ∷ []) (omega arith, (omega arith, tt)) (omega arith)

-- A search that goes through its state.
abbrev first_of : List (List ℕ) → IoResult (ℕ × List ℕ) × List (List ℕ)
first_of [] = (err (os (pos 18)), [])
first_of (v ∷ vs) = (ok (7, v ++ 0 ∷ []), vs)

abbrev next_of : List (List ℕ) → IoResult (List ℕ) × List (List ℕ)
next_of [] = (err (os (pos 18)), [])
next_of (v ∷ vs) = (ok (v ++ 0 ∷ 9 ∷ []), vs)

abbrev searching : Search (List (List ℕ)) ℕ
searching = record { find_first = first_of; find_next = λ handle. next_of; no_more_files = pos 18 }

searching-Finds : Finds searching 7 (λ s. s)
searching-Finds = record {
  first = λ s v vs e. ([], vs, rw e refl, refl);
  further = λ s v vs e. (9 ∷ [], vs, rw e refl, refl);
  finished = λ s e. ([], rw e refl);
}

abbrev disk : Device
disk = record {
  create_file = λ path. ok tt;
  control = λ path. ok (record {
    bytes_read = 512;
    bytes_written = 0;
    read_time = 10;
    write_time = 0;
    read_count = 1;
    write_count = 0;
  });
  close = λ path. ok tt;
  invalid_function = pos 1;
  not_supported = pos 50;
}

abbrev on_c : List ℕ → Bool
on_c [] = false
on_c (c ∷ path) = c == b'C'

inner_stream-volumes_example :
    (items : List (Result (IoCounters ℕ))) × ((inner_stream searching disk
        (λ n. n)
        on_c
        3
        (record { handle = none })
        (codes "C:" ∷ codes "D:" ∷ [])).0
      ≡ some items)
    × Yields disk (λ n. n) on_c (codes "C:" ∷ codes "D:" ∷ []) items
inner_stream-volumes_example =
    inner_stream-volumes searching 7 (λ s. s) searching-Finds disk (λ n. n) on_c 3
      (codes "C:" ∷ codes "D:" ∷ []) (codes "C:") (codes "D:" ∷ []) refl
      ((omega arith, (omega arith, tt)), ((omega arith, (omega arith, tt)), tt)) (omega arith)

-- A machine whose answer grows once.
abbrev growing : Query ℕ
growing = record {
  needed = λ s. (100, s);
  query = λ size s. if s == 0 then (failed (os (pos 122)) 150, 1) else (filled (zeros size), s);
  reserve = λ capacity len additional.
      if leb (len + additional) capacity then capacity else len + additional;
  insufficient_buffer = pos 122;
}

growing-IsReserve : IsReserve growing.reserve
growing-IsReserve capacity len additional = (ground arith, ground arith)

get_overrun_example : (get growing 2 0).0 ≡ some panic
get_overrun_example =
    get_overrun growing 0 100 100 150 0 0 1 growing-IsReserve refl refl refl (omega arith)
      (omega arith)

-- Two cores and a cache.
abbrev records : List Entry
records =
    record { relationship = 0; body = zeros 8 }
    ∷ record { relationship = 2; body = zeros 4 }
    ∷ record { relationship = 0; body = zeros 8 }
    ∷ []

abbrev answering : Query ℕ
answering = record growing { query = λ size s. (filled (entries records), s) }

answered : get answering 1 0 ≡ (some (ok (record { buffer = entries records })), 0)
unfolding get fill
answered = refl

physical_count-entries_example : (physical_count 0 answering 1 4 0).0 ≡ some (ok (some 2))
physical_count-entries_example =
    physical_count-entries answering 0 1 4 0 0 records answered
      ((omega arith, omega arith), ((omega arith, omega arith), ((omega arith, omega arith), tt)))
      (omega arith)
