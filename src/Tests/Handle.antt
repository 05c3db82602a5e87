-- ===== src/Tests/Handle.antt =====
-- A process, its signals and its files at concrete inputs: the system shows one process number.
use heim.Prelude.{
  ◌↔◌, ◌-◌, ◌<◌, ◌≤◌, ℕ, ◌+◌, ◌==◌, ◌≡◌, refl, ap, subst, arith, false, Option, none, some, [], ◌∷◌,
  ◌++◌, inr, if◌then◌else◌,
}
use heim.Outcome.{ok, err}
use heim.Text.{Str, codes, str_eq, starts_with, as_bytes}
use heim.Text.Decimal.{decimal}
use heim.Common.Errors.{pos, negsuc, IoResult, simple, not_found}
use heim.Runtime.Fs.{FilePath, join}
use heim.Runtime.Task.{Task}
use heim.Process.Errors.{no_such_process}
use heim.Process.Stat.{sleeping}
use heim.Process.Stat.Layout.{stat_line}
use heim.Process.System.{System, Times}
use heim.Process.Signal.{Signal, Libc, arms, try_from, number_of}
use heim.Process.Handle.{Process, get, send}
use heim.Process.Handle.Slot.{Entry, IsEntry, Slot, IsSlot, Step, Steps}
use heim.Process.Handle.Slot
use heim.Tests.Fields.{fields_at, fields_at-IsFields}
use heim.Host.BootTime.{boot_time}
use heim.Text.Number.{max_u64}
use heim.Process.Procfs.{process_file_path}
use heim.Process.Unix.Wait.{pid_wait_ends}
use heim.Process.Handle.Paths.{name}
use heim.Process.Handle.Names.{IsName, name-terminated}
use heim.Process.Command.Arguments.{terminated}
use heim.Process.Stat.RoundTrip.{stat_of}
use heim.Process.Signal.RoundTrip.{Distinct, try_from-number_of}
use heim.Memchr.{linear}
use heim.Common.Int.{int_eq}
use heim.Text.Split.{lines, splitn}
use heim.Process.Handle.Signals.{
  Shows, TellsApart, get_there, stat_there, send_delivered, send_refused,
}
use heim.Process.Unix.{pid_kill, pid_exists, pid_wait}

abbrev pub linux : Libc
linux = record {
  sigabrt = pos 6;
  sigalrm = pos 14;
  sigbus = pos 7;
  sigchld = pos 17;
  sigcont = pos 18;
  sigfpe = pos 8;
  sighup = pos 1;
  sigill = pos 4;
  sigint = pos 2;
  sigkill = pos 9;
  sigpipe = pos 13;
  sigquit = pos 3;
  sigsegv = pos 11;
  sigstop = pos 19;
  sigterm = pos 15;
  sigtstp = pos 20;
  sigttin = pos 21;
  sigttou = pos 22;
  sigusr1 = pos 10;
  sigusr2 = pos 12;
  sigpoll = pos 29;
  sigprof = pos 27;
  sigsys = pos 31;
  sigtrap = pos 5;
  sigurg = pos 23;
  sigvtalrm = pos 26;
  sigxcpu = pos 24;
  sigxfsz = pos 25;
}

-- Process 7 at three times: a first program, none, and another one.
data Phase : Type 0 where
  early idle late : Phase

abbrev entry_at : ℕ → Entry
entry_at n = record {
  name = codes "systemd-journal";
  state = sleeping;
  fields = fields_at n;
  more = codes "0";
}

abbrev slot_of : Phase → Slot
slot_of early = record { holder = some (entry_at 100); clock = 200; fresh = 101; generation = 1 }
slot_of idle = record { holder = none; clock = 201; fresh = 101; generation = 1 }
slot_of late = record { holder = some (entry_at 201); clock = 201; fresh = 202; generation = 2 }

steps_late : Steps (slot_of early) (slot_of late)
steps_late =
    Steps.next (Steps.next (Steps.next Steps.here Step.exits) Step.passes)
      (Step.starts (entry_at 201) refl refl (omega arith))

-- The line of process 7, and for every other file a boot time.
abbrev line_of : Option Entry → IoResult Str
line_of none = err (simple not_found)
line_of (some e) = ok (stat_line (pos 7) e.name e.state e.fields e.more)

unfoldable read_seven : FilePath → Task Phase (IoResult Str)
read_seven path s =
    if str_eq path (codes "/proc/7/stat")
    then (line_of (slot_of s).holder, s)
    else if str_eq path (codes "/proc/7/cmdline")
    then (ok (codes "/usr/lib/systemd/systemd-journald" ++ 0 ∷ []), s)
    else (ok (codes "btime 5"), s)

-- A system in which every file is missing and every call succeeds.
abbrev pub quiet : (S : Type 0) → System S
quiet S = record {
  procfs_root = codes "/proc";
  read_to_string = λ path s. (err (simple not_found), s);
  read = λ path s. (err (simple not_found), s);
  read_link = λ path s. (err (simple not_found), s);
  read_dir = λ path s. (err (simple not_found), s);
  kill = λ pid signal s. (pos 0, s);
  waitpid = λ pid s. (negsuc 0, s);
  getpriority = λ pid s. (pos 0, s);
  setpriority = λ pid value s. (pos 0, s);
  getpid = λ s. (pos 7, s);
  errno = λ s. pos 3;
  set_errno = λ code s. s;
  tick = λ s. s;
  decode = λ code. not_found;
  esrch = pos 3;
  eperm = pos 1;
  eacces = pos 13;
}

abbrev seven : System Phase
seven = record (quiet Phase) { read_to_string = read_seven }

abbrev pub ticks : Times ℕ
ticks = record {
  of_ticks = λ n. n;
  parse = λ s. ok 5;
  plus = λ m n. m + n;
  is_nan = λ n. false;
  same = λ m n. m == n;
}

line_there :
    (s : Phase) (e : Entry)
    → (slot_of s).holder ≡ some e
    → read_seven (process_file_path seven (pos 7) (codes "stat")) s
      ≡ (ok (stat_line (pos 7) e.name e.state e.fields e.more), s)
unfolding read_seven join decimal starts_with str_eq
line_there s e h = ap (λ o. (line_of o, s)) h

line_gone :
    (s : Phase)
    → (slot_of s).holder ≡ none
    → read_seven (process_file_path seven (pos 7) (codes "stat")) s ≡ (err (simple not_found), s)
unfolding read_seven join decimal starts_with str_eq
line_gone s h = ap (λ o. (line_of o, s)) h

boot_shown : (s : Phase) → boot_time ticks.parse (codes "/proc") read_seven s ≡ (ok 5, s)
unfolding boot_time read_seven join starts_with str_eq lines splitn
boot_shown s = refl

only : (n : ℕ) (e : Entry) → some (entry_at n) ≡ some e → entry_at n ≡ e
only n e h = ap (λ o. elim o [ none ↦ entry_at n | some x ↦ x ]) h

listed : (n : ℕ) → n ≤ max_u64 → IsEntry (entry_at n)
listed n h = record { fields_fit = fields_at-IsFields n h; more_fits = omega arith }

entry_at-IsEntry : (s : Phase) (e : Entry) → (slot_of s).holder ≡ some e → IsEntry e
entry_at-IsEntry early e h = subst IsEntry (only 100 e h) (listed 100 (omega arith))
entry_at-IsEntry idle e h = ground arith
entry_at-IsEntry late e h = subst IsEntry (only 201 e h) (listed 201 (omega arith))

seven-Shows : Shows seven ticks (pos 7) slot_of 5
seven-Shows = record {
  line_there = line_there;
  line_gone = λ s h. (simple not_found, line_gone s h, refl);
  boot_shown = boot_shown;
  entries_fit = entry_at-IsEntry;
}

ticks_apart : TellsApart ticks 5 1000
ticks_apart = record { number = λ n h. refl; apart = λ m n hm hn. ground arith }

abbrev journal : Process ℕ
journal = record { pid = pos 7; unique_id = record { pid = pos 7; create_time = 105 } }

early-IsSlot : IsSlot (slot_of early)
early-IsSlot e h = subst (λ x. Slot.start x < 101) (only 100 e h) (omega arith)

got : get seven ticks (pos 7) early ≡ (ok journal, early)
got = get_there seven-Shows (omega arith) early (entry_at 100) refl refl

send_delivered_example :
    send seven ticks linux journal Signal.term early
    ≡ pid_kill seven linux (pos 7) Signal.term early
send_delivered_example =
    send_delivered seven-Shows (omega arith) ticks_apart linux journal early early (entry_at 100)
      early-IsSlot refl (omega arith) got Steps.here Signal.term (entry_at 100) refl (omega arith)
      refl

send_refused_example :
    send seven ticks linux journal Signal.term late ≡ (err (no_such_process (pos 7)), late)
send_refused_example =
    send_refused seven-Shows (omega arith) ticks_apart linux journal early late (entry_at 100)
      early-IsSlot refl (omega arith) got steps_late Signal.term (inr (omega arith))
      (λ e h. subst (λ x. Slot.start x < 1000) (only 201 e h) (omega arith))

cmdline_read :
    read_seven (process_file_path seven (pos 7) (codes "cmdline")) early
    ≡ (ok (codes "/usr/lib/systemd/systemd-journald" ++ 0 ∷ []), early)
unfolding read_seven join decimal starts_with str_eq
cmdline_read = refl

cmdline_bytes :
    as_bytes (codes "/usr/lib/systemd/systemd-journald" ++ 0 ∷ [])
    ≡ terminated 0 (
        (codes "/usr/lib/systemd" ++ b'/' ∷ (as_bytes (codes "systemd-journal") ++ codes "d")) ∷ [])
unfolding as_bytes
cmdline_bytes = refl

journald-IsName : IsName (as_bytes (codes "systemd-journal") ++ codes "d")
unfolding as_bytes str_eq
journald-IsName = (omega arith, refl, refl, refl)

name-terminated_example :
    name seven ticks linear (λ bytes. bytes) journal early ≡ (ok (codes "systemd-journald"), early)
unfolding linear as_bytes
name-terminated_example =
    name-terminated seven ticks linear (λ bytes. bytes) journal
      (record (stat_of ticks.of_ticks (pos 7) (codes "systemd-journal") sleeping (fields_at 100)) {
        create_time = 105;
      })
      (codes "/usr/lib/systemd/systemd-journald" ++ 0 ∷ []) early early early
      (codes "/usr/lib/systemd") (codes "d") []
      (stat_there seven-Shows (omega arith) early (entry_at 100) refl) (omega arith) cmdline_read
      cmdline_bytes journald-IsName (omega arith)

linux-Distinct : Distinct (arms linux)
unfolding int_eq
linux-Distinct = ground arith

try_from-number_of_example :
    (try_from linux (pos 9) ≡ ok Signal.kill) ↔ (number_of linux Signal.kill ≡ pos 9)
try_from-number_of_example = try_from-number_of linux linux-Distinct (pos 9) Signal.kill

-- A process that is gone when the state is zero.
abbrev counting : System ℕ
counting = record (quiet ℕ) {
  kill = λ pid signal s. (if s == 0 then negsuc 0 else pos 0, s);
  tick = λ s. s - 1;
}

pid_wait_ends_example : pid_wait counting 5 (pos 7) 3 ≡ (some (ok tt), 0)
unfolding pid_exists int_eq
pid_wait_ends_example =
    pid_wait_ends counting (pos 7) 2 5 3 refl (omega arith) (refl, (refl, tt)) refl
