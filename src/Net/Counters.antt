-- ===== src/Net/Counters.antt =====
-- heim-net/src/sys/linux/counters.rs. `byte` makes an `Information` of a number of bytes.
pub mod Parsed
use heim.Prelude.{ℕ, List, [], ◌∷◌, ◌++◌, map, drop, ◌==◌}
use heim.Outcome.{ok, err, ◌>>=◌, map_err}
use heim.Text.{Str, codes, is_whitespace}
use heim.Text.Split.{words, trim_end}
use heim.Text.Signed.{show_int}
use heim.Text.Number.{parse_u64}
use heim.Common.Errors.{ℤ, Result, IoResult, missing_key, from_io, from_parse_int, with_file}
use heim.Common.Iter.{try_parse_next}
use heim.Runtime.Fs.{FilePath, Files, join, read_lines}

-- `IoCounters`; its accessors are the fields.
pub record IoCounters (Information : Type 0) : Type 0 where
  pub interface : Str
  pub rx_bytes : Information
  pub rx_packets : ℕ
  pub rx_errs : ℕ
  pub rx_drop : ℕ
  pub rx_fifo : ℕ
  pub rx_frame : ℕ
  pub rx_compressed : ℕ
  pub rx_multicast : ℕ
  pub tx_bytes : Information
  pub tx_packets : ℕ
  pub tx_errs : ℕ
  pub tx_drop : ℕ
  pub tx_fifo : ℕ
  pub tx_frame : ℕ
  pub tx_compressed : ℕ
  pub tx_multicast : ℕ

abbrev pub count : List Str → Result (ℕ × List Str)
count = try_parse_next from_parse_int parse_u64

-- `trim_end_matches(':')`
unfoldable pub trim_colons : Str → Str
unfolding trim_end
trim_colons = trim_end (λ c. c == b':')

module _ {Information : Type 0} (byte : ℕ → Information) (procfs_root : FilePath) where
  -- The fields behind the name of the interface.
  abbrev pub read_fields : Str → List Str → Result (IoCounters Information)
  read_fields interface parts = do
    (rx_bytes, parts) ← count parts
    (rx_packets, parts) ← count parts
    (rx_errs, parts) ← count parts
    (rx_drop, parts) ← count parts
    (rx_fifo, parts) ← count parts
    (rx_frame, parts) ← count parts
    (rx_compressed, parts) ← count parts
    (rx_multicast, parts) ← count parts
    (tx_bytes, parts) ← count parts
    (tx_packets, parts) ← count parts
    (tx_errs, parts) ← count parts
    (tx_drop, parts) ← count parts
    (tx_fifo, parts) ← count parts
    (tx_frame, parts) ← count parts
    (tx_compressed, parts) ← count parts
    (tx_multicast, parts) ← count parts
    ok (record {
      interface = interface;
      rx_bytes = byte rx_bytes;
      rx_packets = rx_packets;
      rx_errs = rx_errs;
      rx_drop = rx_drop;
      rx_fifo = rx_fifo;
      rx_frame = rx_frame;
      rx_compressed = rx_compressed;
      rx_multicast = rx_multicast;
      tx_bytes = byte tx_bytes;
      tx_packets = tx_packets;
      tx_errs = tx_errs;
      tx_drop = tx_drop;
      tx_fifo = tx_fifo;
      tx_frame = tx_frame;
      tx_compressed = tx_compressed;
      tx_multicast = tx_multicast;
    })

  unfoldable pub read_parts : List Str → Result (IoCounters Information)
  unfolding trim_colons
  read_parts [] = err (missing_key (codes "Interface") (procfs_root ++ codes "/net/dev"))
  read_parts (str ∷ parts) = read_fields (trim_colons str) parts

  -- `IoCounters::from_str`
  unfoldable pub from_str : Str → Result (IoCounters Information)
  unfolding read_parts
  from_str s = read_parts (words is_whitespace s)

  abbrev pub parse_line : IoResult Str → Result (IoCounters Information)
  parse_line try_line = do line ← map_err from_io try_line; from_str line

  module _ (files : Files) where
    -- `inner`, with what its stream yields
    unfoldable pub inner : FilePath → Result (List (Result (IoCounters Information)))
    unfolding from_str
    inner path = do
      lines ← map_err (λ e. with_file (from_io e) path) (read_lines files path)
      ok (map parse_line (drop 2 lines))

    unfoldable pub io_counters : Result (List (Result (IoCounters Information)))
    unfolding inner
    io_counters = inner (join procfs_root (codes "net/dev"))

    unfoldable pub io_counters_for_pid : ℤ → Result (List (Result (IoCounters Information)))
    unfolding inner
    io_counters_for_pid pid = inner (join (join procfs_root (show_int pid)) (codes "net/dev"))
