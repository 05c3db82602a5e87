-- ===== src/Tests/Net.antt =====
-- heim-net at concrete inputs.
use heim.Prelude.{◌≡◌, refl, arith, []}
use heim.Outcome.{ok}
use heim.Text.{codes, is_whitespace}
use heim.Text.Layout.{padded}
use heim.Net.Counters.{from_str, trim_colons}
use heim.Net.Counters.Parsed.{Counts, IsCounts, parts_of, measured, from_str-measured}

abbrev wireless : Counts
wireless = record {
  interface = codes "wlp3s0";
  rx_bytes = 550608563;
  rx_packets = 390526;
  rx_errs = 0;
  rx_drop = 0;
  rx_fifo = 0;
  rx_frame = 61962;
  rx_compressed = 0;
  rx_multicast = 0;
  tx_bytes = 14822919;
  tx_packets = 103337;
  tx_errs = 0;
  tx_drop = 0;
  tx_fifo = 0;
  tx_frame = 0;
  tx_compressed = 0;
  tx_multicast = 0;
}

wireless-IsCounts : IsCounts wireless
unfolding is_whitespace trim_colons
wireless-IsCounts = record {
  name_fits = ground arith;
  name_ends = refl;
  rx_bytes_fits = omega arith;
  rx_packets_fits = omega arith;
  rx_errs_fits = omega arith;
  rx_drop_fits = omega arith;
  rx_fifo_fits = omega arith;
  rx_frame_fits = omega arith;
  rx_compressed_fits = omega arith;
  rx_multicast_fits = omega arith;
  tx_bytes_fits = omega arith;
  tx_packets_fits = omega arith;
  tx_errs_fits = omega arith;
  tx_drop_fits = omega arith;
  tx_fifo_fits = omega arith;
  tx_frame_fits = omega arith;
  tx_compressed_fits = omega arith;
  tx_multicast_fits = omega arith;
}

from_str-measured_example :
    from_str (λ n. n) (codes "/proc") (padded (λ i. i) (parts_of wireless []))
    ≡ ok (measured (λ n. n) wireless)
from_str-measured_example =
    from_str-measured (λ n. n) (codes "/proc") (λ i. i) wireless [] wireless-IsCounts tt
