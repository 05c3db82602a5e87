-- ===== src/Process/Stat/Layout.antt =====
-- The line of a process as the kernel writes it, and how its words are cut.
use heim.Prelude.{ℕ, ◌-◌, ◌^◌, ◌≤◌, List, [], ◌∷◌, ◌++◌}
use heim.Text.{Str}
use heim.Text.Number.{max_u64}
use heim.Text.Decimal.{decimal}
use heim.Text.Signed.{show_int, InRange}
use heim.Common.Errors.{ℤ}
use heim.Process.Stat.{
  Status, running, sleeping, waiting, zombie, stopped, tracing, dead, wakekill, waking, parked,
  idle,
}

abbrev pub letter_of : Status → ℕ
letter_of running = b'R'
letter_of sleeping = b'S'
letter_of waiting = b'D'
letter_of zombie = b'Z'
letter_of stopped = b'T'
letter_of tracing = b't'
letter_of dead = b'X'
letter_of wakekill = b'K'
letter_of waking = b'W'
letter_of parked = b'P'
letter_of idle = b'I'

-- The numbers that follow the state, in the order of the line.
pub record Fields : Type 0 where
  pub ppid : ℤ
  pub pgrp : ℤ
  pub session_id : ℤ
  pub tty_nr : ℤ
  pub tpgid : ℤ
  pub flags : ℕ
  pub minflt : ℕ
  pub cminflt : ℕ
  pub majflt : ℕ
  pub cmajflt : ℕ
  pub utime : ℕ
  pub stime : ℕ
  pub cutime : ℕ
  pub cstime : ℕ
  pub priority : ℤ
  pub nice : ℤ
  pub num_threads : ℤ
  pub itrealvalue : ℤ
  pub start_time : ℕ
  pub vsize : ℤ
  pub rss : ℤ
  pub rsslim : ℕ

-- Each number fits the type that the parser has for it.
pub record IsFields (f : Fields) : Type 0 where
  pub ppid_fits : InRange (2 ^ 31) f.ppid
  pub pgrp_fits : InRange (2 ^ 31) f.pgrp
  pub session_id_fits : InRange (2 ^ 31) f.session_id
  pub tty_nr_fits : InRange (2 ^ 31) f.tty_nr
  pub tpgid_fits : InRange (2 ^ 31) f.tpgid
  pub flags_fits : f.flags ≤ 2 ^ 32 - 1
  pub minflt_fits : f.minflt ≤ max_u64
  pub cminflt_fits : f.cminflt ≤ max_u64
  pub majflt_fits : f.majflt ≤ max_u64
  pub cmajflt_fits : f.cmajflt ≤ max_u64
  pub utime_fits : f.utime ≤ max_u64
  pub stime_fits : f.stime ≤ max_u64
  pub cutime_fits : f.cutime ≤ max_u64
  pub cstime_fits : f.cstime ≤ max_u64
  pub priority_fits : InRange (2 ^ 63) f.priority
  pub nice_fits : InRange (2 ^ 63) f.nice
  pub num_threads_fits : InRange (2 ^ 63) f.num_threads
  pub itrealvalue_fits : InRange (2 ^ 63) f.itrealvalue
  pub start_time_fits : f.start_time ≤ max_u64
  pub vsize_fits : InRange (2 ^ 63) f.vsize
  pub rss_fits : InRange (2 ^ 63) f.rss
  pub rsslim_fits : f.rsslim ≤ max_u64

abbrev pub texts : Fields → List Str
texts f =
    show_int f.ppid
    ∷ show_int f.pgrp
    ∷ show_int f.session_id
    ∷ show_int f.tty_nr
    ∷ show_int f.tpgid
    ∷ decimal f.flags
    ∷ decimal f.minflt
    ∷ decimal f.cminflt
    ∷ decimal f.majflt
    ∷ decimal f.cmajflt
    ∷ decimal f.utime
    ∷ decimal f.stime
    ∷ decimal f.cutime
    ∷ decimal f.cstime
    ∷ show_int f.priority
    ∷ show_int f.nice
    ∷ show_int f.num_threads
    ∷ show_int f.itrealvalue
    ∷ decimal f.start_time
    ∷ show_int f.vsize
    ∷ show_int f.rss
    ∷ decimal f.rsslim
    ∷ []

-- The texts, a space behind each, and what follows them.
abbrev pub spaced : List Str → Str → Str
spaced [] more = more
spaced (t ∷ ts) more = t ++ b' ' ∷ spaced ts more

-- The line of a process; `more` is the fields that the parser does not read.
abbrev pub stat_line : ℤ → Str → Status → Fields → Str → Str
stat_line pid name state f more =
    show_int pid
    ++ b' ' ∷ b'(' ∷ (name ++ b')' ∷ b' ' ∷ letter_of state ∷ b' ' ∷ spaced (texts f) more)
