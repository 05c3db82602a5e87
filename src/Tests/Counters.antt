-- ===== src/Tests/Counters.antt =====
-- The counters and the usage of disks, and the times and frequencies of processors, at concrete
-- inputs.
use heim.Prelude.{◌≡◌, refl, arith, none, some, List, [], ◌∷◌, map, Option}
use heim.Outcome.{ok}
use heim.Text.{Str, codes, str_eq, is_whitespace, starts_with}
use heim.Text.Split.{trim_end}
use heim.Text.Layout.{padded}
use heim.Text.Number.{parse_unsigned, scan}
use heim.Common.Errors.{IoResult}
use heim.Runtime.Fs.{FilePath, Files, join}
use heim.Disk.Counters.{from_str}
use heim.Disk.Counters.Parsed.{Line, IsLine, parts_of, from_str-Line}
use heim.Cpu.Freq.{frequencies, frequency}
use heim.Cpu.Freq.Mean.{frequency-mean}
use heim.Tests.Machine.{lookup, files_of}

abbrev nvme : Line
nvme = record {
  major = 259;
  minor = 0;
  name = codes "nvme0n1";
  reads = 1000;
  reads_merged = 10;
  sectors_read = 80000;
  ms_reading = 900;
  writes = 2000;
  writes_merged = 20;
  sectors_written = 160000;
  ms_writing = 800;
  in_progress = 0;
  ms_busy = 1500;
  more = codes "2300" ∷ [];
}

nvme-IsLine : IsLine nvme
unfolding is_whitespace
nvme-IsLine = record {
  name_fits = ground arith;
  more_fits = ground arith;
  reads_fit = omega arith;
  reads_merged_fit = omega arith;
  sectors_read_fit = omega arith;
  writes_fit = omega arith;
  writes_merged_fit = omega arith;
  sectors_written_fit = omega arith;
  ms_busy_fits = omega arith;
}

from_str-Line_example :
    from_str (λ n. n) (λ n. n) (padded (λ i. 3) (parts_of nvme))
    ≡ ok (record {
      name = codes "nvme0n1";
      read_count = 1000;
      write_count = 2000;
      read_bytes = 40960000;
      write_bytes = 81920000;
      busy_time = 1500;
      read_merged_count = 10;
      write_merged_count = 20;
    })
from_str-Line_example = from_str-Line (λ n. n) (λ n. n) (λ i. 3) nvme nvme-IsLine

abbrev cpus : Files
cpus = files_of (
    (codes "/c0/scaling_cur_freq", codes "800000\n")
    ∷ (codes "/c0/scaling_min_freq", codes "400000\n")
    ∷ (codes "/c1/scaling_cur_freq", codes "1200000\n")
    ∷ [])

abbrev two_cpus : Str → Option (List (IoResult FilePath))
two_cpus pattern = some (ok (codes "/c0") ∷ ok (codes "/c1") ∷ [])

cpus_read :
    frequencies cpus two_cpus (codes "/sys")
    ≡ ok (
        map ok (
          record { current = 800000000; min = some 400000000; max = none }
          ∷ record { current = 1200000000; min = none; max = none }
          ∷ []))
unfolding frequencies lookup str_eq join starts_with is_whitespace trim_end parse_unsigned scan
cpus_read = refl

frequency-mean_example :
    frequency cpus two_cpus (codes "/sys")
    ≡ ok (record { current = 1000000000; min = some 200000000; max = none })
frequency-mean_example =
    frequency-mean cpus two_cpus (codes "/sys")
      (record { current = 800000000; min = some 400000000; max = none })
      (record { current = 1200000000; min = none; max = none } ∷ []) cpus_read (omega arith)
