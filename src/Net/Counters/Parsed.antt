-- ===== src/Net/Counters/Parsed.antt =====
-- What `IoCounters::from_str` returns for a line in the layout of /proc/net/dev.
use heim.Prelude.{ℕ, ◌≤◌, ◌≡◌, refl, ◌∙◌, List, [], ◌∷◌, ◌++◌, map, All, All-append}
use heim.Outcome.{ok}
use heim.Text.{Str}
use heim.Text.Split.{trim_end}
use heim.Text.Layout.{padded, IsWord, words-padded, decimals-IsWord}
use heim.Text.Number.{max_u64}
use heim.Text.Decimal.{decimal, parse_unsigned-decimal}
use heim.Runtime.Fs.{FilePath}
use heim.Net.Counters.{IoCounters, from_str, trim_colons, read_parts}

-- The counters of an interface, with the sizes as numbers of bytes.
abbrev pub Counts : Type 0
Counts = IoCounters ℕ

abbrev pub numbers_of : Counts → List ℕ
numbers_of c =
    c.rx_bytes ∷ c.rx_packets ∷ c.rx_errs ∷ c.rx_drop ∷ c.rx_fifo ∷ c.rx_frame ∷ c.rx_compressed
    ∷ c.rx_multicast ∷ c.tx_bytes ∷ c.tx_packets ∷ c.tx_errs ∷ c.tx_drop ∷ c.tx_fifo ∷ c.tx_frame
    ∷ c.tx_compressed ∷ c.tx_multicast ∷ []

-- The words of the line: the name and a colon, the numbers, and more if there is any.
abbrev pub parts_of : Counts → List Str → List Str
parts_of c more = (c.interface ++ b':' ∷ []) ∷ (map decimal (numbers_of c) ++ more)

pub record IsCounts (c : Counts) : Type 0 where
  pub name_fits : IsWord (c.interface ++ b':' ∷ [])
  pub name_ends : trim_colons c.interface ≡ c.interface
  pub rx_bytes_fits : c.rx_bytes ≤ max_u64
  pub rx_packets_fits : c.rx_packets ≤ max_u64
  pub rx_errs_fits : c.rx_errs ≤ max_u64
  pub rx_drop_fits : c.rx_drop ≤ max_u64
  pub rx_fifo_fits : c.rx_fifo ≤ max_u64
  pub rx_frame_fits : c.rx_frame ≤ max_u64
  pub rx_compressed_fits : c.rx_compressed ≤ max_u64
  pub rx_multicast_fits : c.rx_multicast ≤ max_u64
  pub tx_bytes_fits : c.tx_bytes ≤ max_u64
  pub tx_packets_fits : c.tx_packets ≤ max_u64
  pub tx_errs_fits : c.tx_errs ≤ max_u64
  pub tx_drop_fits : c.tx_drop ≤ max_u64
  pub tx_fifo_fits : c.tx_fifo ≤ max_u64
  pub tx_frame_fits : c.tx_frame ≤ max_u64
  pub tx_compressed_fits : c.tx_compressed ≤ max_u64
  pub tx_multicast_fits : c.tx_multicast ≤ max_u64

abbrev pub measured : {Information : Type 0} → (ℕ → Information) → Counts → IoCounters Information
measured byte c = record {
  interface = c.interface;
  rx_bytes = byte c.rx_bytes;
  rx_packets = c.rx_packets;
  rx_errs = c.rx_errs;
  rx_drop = c.rx_drop;
  rx_fifo = c.rx_fifo;
  rx_frame = c.rx_frame;
  rx_compressed = c.rx_compressed;
  rx_multicast = c.rx_multicast;
  tx_bytes = byte c.tx_bytes;
  tx_packets = c.tx_packets;
  tx_errs = c.tx_errs;
  tx_drop = c.tx_drop;
  tx_fifo = c.tx_fifo;
  tx_frame = c.tx_frame;
  tx_compressed = c.tx_compressed;
  tx_multicast = c.tx_multicast;
}

trim_colons_colon : (s : Str) → trim_colons (s ++ b':' ∷ []) ≡ trim_colons s
unfolding trim_colons trim_end
trim_colons_colon [] = refl
trim_colons_colon (c ∷ s) = rw (trim_colons_colon s)

-- The line of an interface is read into its counters, whatever the blanks between the fields and
-- whatever words follow, if the numbers fit a u64 and the name of the interface does not itself end
-- in a colon.
pub from_str-measured :
    {Information : Type 0} (byte : ℕ → Information) (procfs_root : FilePath) (gap : ℕ → ℕ)
    (c : Counts) (more : List Str)
    → IsCounts c
    → All IsWord more
    → from_str byte procfs_root (padded gap (parts_of c more)) ≡ ok (measured byte c)
unfolding from_str read_parts
from_str-measured byte procfs_root gap c more h hm =
    let numbers =
      All-append IsWord (map decimal (numbers_of c)) more (decimals-IsWord (numbers_of c)) hm in
    rw (words-padded gap (parts_of c more) (h.name_fits, numbers)) (
      rw (trim_colons_colon c.interface ∙ h.name_ends) (
        simp (
          parse_unsigned-decimal max_u64 c.rx_bytes h.rx_bytes_fits,
          parse_unsigned-decimal max_u64 c.rx_packets h.rx_packets_fits,
          parse_unsigned-decimal max_u64 c.rx_errs h.rx_errs_fits,
          parse_unsigned-decimal max_u64 c.rx_drop h.rx_drop_fits,
          parse_unsigned-decimal max_u64 c.rx_fifo h.rx_fifo_fits,
          parse_unsigned-decimal max_u64 c.rx_frame h.rx_frame_fits,
          parse_unsigned-decimal max_u64 c.rx_compressed h.rx_compressed_fits,
          parse_unsigned-decimal max_u64 c.rx_multicast h.rx_multicast_fits,
          parse_unsigned-decimal max_u64 c.tx_bytes h.tx_bytes_fits,
          parse_unsigned-decimal max_u64 c.tx_packets h.tx_packets_fits,
          parse_unsigned-decimal max_u64 c.tx_errs h.tx_errs_fits,
          parse_unsigned-decimal max_u64 c.tx_drop h.tx_drop_fits,
          parse_unsigned-decimal max_u64 c.tx_fifo h.tx_fifo_fits,
          parse_unsigned-decimal max_u64 c.tx_frame h.tx_frame_fits,
          parse_unsigned-decimal max_u64 c.tx_compressed h.tx_compressed_fits,
          parse_unsigned-decimal max_u64 c.tx_multicast h.tx_multicast_fits,
        )))
