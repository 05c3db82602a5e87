-- ===== src/Disk/Counters/Parsed.antt =====
-- What `IoCounters::from_str` and `io_counters_physical` return for lines in the layout of
-- /proc/diskstats.
use heim.Prelude.{ℕ, ◌*◌, ◌%◌, ◌^◌, ◌≤◌, ◌≡◌, List, [], ◌∷◌, ◌++◌, map, All-append, All}
use heim.Outcome.{ok}
use heim.Text.{Str}
use heim.Text.Layout.{padded, IsWord, words-padded, decimal-IsWord, decimals-IsWord}
use heim.Text.Number.{max_u64}
use heim.Text.Decimal.{decimal, parse_unsigned-decimal}
use heim.Disk.Counters.{from_str}

-- The fields of a line up to the time that the device was busy, and what follows them.
pub record Line : Type 0 where
  pub major : ℕ
  pub minor : ℕ
  pub name : Str
  pub reads : ℕ
  pub reads_merged : ℕ
  pub sectors_read : ℕ
  pub ms_reading : ℕ
  pub writes : ℕ
  pub writes_merged : ℕ
  pub sectors_written : ℕ
  pub ms_writing : ℕ
  pub in_progress : ℕ
  pub ms_busy : ℕ
  pub more : List Str

abbrev pub numbers_of : Line → List ℕ
numbers_of l =
    l.reads ∷ l.reads_merged ∷ l.sectors_read ∷ l.ms_reading ∷ l.writes ∷ l.writes_merged
    ∷ l.sectors_written ∷ l.ms_writing ∷ l.in_progress ∷ l.ms_busy ∷ []

abbrev pub parts_of : Line → List Str
parts_of l = decimal l.major ∷ decimal l.minor ∷ l.name ∷ (map decimal (numbers_of l) ++ l.more)

pub record IsLine (l : Line) : Type 0 where
  pub name_fits : IsWord l.name
  pub more_fits : All IsWord l.more
  pub reads_fit : l.reads ≤ max_u64
  pub reads_merged_fit : l.reads_merged ≤ max_u64
  pub sectors_read_fit : l.sectors_read ≤ max_u64
  pub writes_fit : l.writes ≤ max_u64
  pub writes_merged_fit : l.writes_merged ≤ max_u64
  pub sectors_written_fit : l.sectors_written ≤ max_u64
  pub ms_busy_fits : l.ms_busy ≤ max_u64

parts_of-IsWord : (l : Line) → IsLine l → All IsWord (parts_of l)
parts_of-IsWord l h =
    let numbers =
      All-append IsWord (map decimal (numbers_of l)) l.more (decimals-IsWord (numbers_of l))
        h.more_fits in
    (decimal-IsWord l.major, (decimal-IsWord l.minor, (h.name_fits, numbers)))

module _ {Information Time : Type 0} (byte : ℕ → Information) (seconds : ℕ → Time) where
  -- A line is read into the counters of its device, whatever the blanks between its fields and
  -- whatever words follow them, if those that are read fit a u64: sizes are 512 bytes for each
  -- sector, by a product that wraps at 2 ^ 64, and the milliseconds of the busy time are taken for
  -- seconds.
  pub from_str-Line :
      (gap : ℕ → ℕ) (l : Line)
      → IsLine l
      → from_str byte seconds (padded gap (parts_of l))
        ≡ ok (record {
          name = l.name;
          read_count = l.reads;
          write_count = l.writes;
          read_bytes = byte ((l.sectors_read * 512) % 2 ^ 64);
          write_bytes = byte ((l.sectors_written * 512) % 2 ^ 64);
          busy_time = seconds l.ms_busy;
          read_merged_count = l.reads_merged;
          write_merged_count = l.writes_merged;
        })
  unfolding from_str
  from_str-Line gap l h = rw (words-padded gap (parts_of l) (parts_of-IsWord l h)) (
      simp (
        parse_unsigned-decimal max_u64 l.reads h.reads_fit,
        parse_unsigned-decimal max_u64 l.reads_merged h.reads_merged_fit,
        parse_unsigned-decimal max_u64 l.sectors_read h.sectors_read_fit,
        parse_unsigned-decimal max_u64 l.writes h.writes_fit,
        parse_unsigned-decimal max_u64 l.writes_merged h.writes_merged_fit,
        parse_unsigned-decimal max_u64 l.sectors_written h.sectors_written_fit,
        parse_unsigned-decimal max_u64 l.ms_busy h.ms_busy_fits,
      ))
