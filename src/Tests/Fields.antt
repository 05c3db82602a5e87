-- ===== src/Tests/Fields.antt =====
-- The numbers of a process line, at a start time.
use heim.Prelude.{ℕ, ◌≤◌, arith}
use heim.Text.Number.{max_u64}
use heim.Common.Errors.{pos, negsuc}
use heim.Process.Stat.Layout.{Fields, IsFields}

abbrev pub fields_at : ℕ → Fields
fields_at n = record {
  ppid = pos 1;
  pgrp = pos 7;
  session_id = pos 7;
  tty_nr = pos 0;
  tpgid = negsuc 0;
  flags = 4194560;
  minflt = 1;
  cminflt = 2;
  majflt = 3;
  cmajflt = 4;
  utime = 50;
  stime = 60;
  cutime = 70;
  cstime = 80;
  priority = pos 20;
  nice = negsuc 4;
  num_threads = pos 1;
  itrealvalue = pos 0;
  start_time = n;
  vsize = pos 1000;
  rss = pos 10;
  rsslim = 18446744073709551615;
}

pub fields_at-IsFields : (n : ℕ) → n ≤ max_u64 → IsFields (fields_at n)
fields_at-IsFields n h = record {
  ppid_fits = omega arith;
  pgrp_fits = omega arith;
  session_id_fits = omega arith;
  tty_nr_fits = omega arith;
  tpgid_fits = omega arith;
  flags_fits = omega arith;
  minflt_fits = omega arith;
  cminflt_fits = omega arith;
  majflt_fits = omega arith;
  cmajflt_fits = omega arith;
  utime_fits = omega arith;
  stime_fits = omega arith;
  cutime_fits = omega arith;
  cstime_fits = omega arith;
  priority_fits = omega arith;
  nice_fits = omega arith;
  num_threads_fits = omega arith;
  itrealvalue_fits = omega arith;
  start_time_fits = h;
  vsize_fits = omega arith;
  rss_fits = omega arith;
  rsslim_fits = omega arith;
}
