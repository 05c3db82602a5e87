-- ===== src/Disk/Counters.antt =====
-- heim-disk/src/sys/linux/counters.rs. The products with the size of a sector wrap, as in a release
-- build. `byte` and `seconds` make the measured values; `access` is what libc returns for a path.
pub mod Parsed
use heim.Prelude.{
  ℕ, ◌*◌, ◌%◌, ◌^◌, Bool, true, false, List, [], ◌∷◌, ◌++◌, map, drop, ◌==◌, if◌then◌else◌,
}
use heim.Outcome.{ok, err, panic, ◌>>=◌, map_err, map_ok}
use heim.Text.{Str, Bytes, codes, as_bytes, is_whitespace}
use heim.Text.Split.{words}
use heim.Text.Number.{parse_u64}
use heim.Common.Errors.{ℤ, pos, Result, from_nul, from_io, from_parse_int}
use heim.Common.CString.{c_string}
use heim.Common.Int.{int_eq}
use heim.Common.Iter.{try_next, try_parse_next}
use heim.Runtime.Fs.{FilePath, Files, join, read_lines_into}

-- `IoCounters`; its accessors are the fields.
pub record IoCounters (Information Time : Type 0) : Type 0 where
  pub name : Str
  pub read_count : ℕ
  pub write_count : ℕ
  pub read_bytes : Information
  pub write_bytes : Information
  pub busy_time : Time
  pub read_merged_count : ℕ
  pub write_merged_count : ℕ

abbrev pub disk_sector_size : ℕ
disk_sector_size = 512

abbrev pub count : List Str → Result (ℕ × List Str)
count = try_parse_next from_parse_int parse_u64

module _ {Information Time : Type 0} (byte : ℕ → Information) (seconds : ℕ → Time) where
  -- A number of sectors, as a size
  abbrev pub sectors : List Str → Result (Information × List Str)
  sectors parts = do
    (bytes, parts) ← count parts
    ok (byte ((bytes * disk_sector_size) % 2 ^ 64), parts)

  -- The fields behind the two numbers of the device.
  abbrev pub read_fields : List Str → Result (IoCounters Information Time)
  read_fields parts = do
    (name, parts) ← try_next parts
    (read_count, parts) ← count parts
    (read_merged_count, parts) ← count parts
    (read_bytes, parts) ← sectors parts
    (write_count, parts) ← count (drop 1 parts)
    (write_merged_count, parts) ← count parts
    (write_bytes, parts) ← sectors parts
    (busy_time, parts) ← count (drop 2 parts)
    ok (record {
      name = name;
      read_count = read_count;
      write_count = write_count;
      read_bytes = read_bytes;
      write_bytes = write_bytes;
      busy_time = seconds busy_time;
      read_merged_count = read_merged_count;
      write_merged_count = write_merged_count;
    })

  -- `IoCounters::from_str`
  unfoldable pub from_str : Str → Result (IoCounters Information Time)
  from_str s = read_fields (drop 2 (words is_whitespace s))

  module _ (files : Files) (procfs_root : FilePath) where
    -- `io_counters`, with what its stream yields
    unfoldable pub io_counters : Result (List (Result (IoCounters Information Time)))
    unfolding from_str
    io_counters =
        map_err from_io
          (read_lines_into files from_io (λ e. e) from_str (join procfs_root (codes "diskstats")))

    module _ (sysfs_root : FilePath) (access : Bytes → ℤ) where
      -- The file of the device in sysfs; a slash in its name is an exclamation mark there.
      abbrev pub block_path : Str → Str
      block_path name =
          sysfs_root ++ (codes "/block/" ++ map (λ c. if c == b'/' then b'!' else c) name)

      -- `IoCounters::is_storage_device`
      unfoldable pub is_storage_device : IoCounters Information Time → Result Bool
      is_storage_device device = do
        path ← map_err from_nul (c_string (as_bytes (block_path device.name)))
        ok (int_eq (access path) (pos 0))

      abbrev kept_item :
          IoCounters Information Time
          → Result Bool
          → List (Result (IoCounters Information Time))
          → List (Result (IoCounters Information Time))
      kept_item device (ok true) rest = ok device ∷ rest
      kept_item device (ok false) rest = rest
      kept_item device (err e) rest = err e ∷ rest
      kept_item device panic rest = panic ∷ rest

      -- The filter of `io_counters_physical`.
      unfoldable pub filter_storage :
          List (Result (IoCounters Information Time)) → List (Result (IoCounters Information Time))
      unfolding is_storage_device
      filter_storage [] = []
      filter_storage (ok device ∷ items) =
          kept_item device (is_storage_device device) (filter_storage items)
      filter_storage (err e ∷ items) = err e ∷ filter_storage items
      filter_storage (panic ∷ items) = panic ∷ filter_storage items

      -- `io_counters_physical`
      unfoldable pub io_counters_physical : Result (List (Result (IoCounters Information Time)))
      unfolding io_counters filter_storage
      io_counters_physical = map_ok filter_storage io_counters
