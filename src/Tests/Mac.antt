-- ===== src/Tests/Mac.antt =====
-- Processes of macOS at concrete inputs. The state of the system is a number of requests: the first
-- two of them find a process of the number 7 that started at 90, the others none.
use heim.Prelude.{ℕ, suc, ◌≡◌, refl, arith, none, some, [], ltb, if◌then◌else◌}
use heim.Outcome.{ok, err}
use heim.Common.Errors.{pos, os, uncategorized}
use heim.Common.Int.{int_eq}
use heim.Process.Errors.{access_denied, no_such_process}
use heim.Process.Handle.{Process}
use heim.Process.Mac.{Darwin, KinfoProc}
use heim.Process.Mac.Handle.{Conversions, exe, cwd, cpu_time, memory, send}
use heim.Process.Mac.Handle.Reuse.{send-same_start}
use heim.Process.Mac.Handle.Zombies.{hidden, exe-Blame}
use heim.Process.Signal.{Signal}
use heim.Process.System.{System}
use heim.Tests.Handle.{linux, quiet, ticks}

abbrev unix : System ℕ
unix = record (quiet ℕ) { kill = λ pid signal s. (pos 0, suc s); decode = λ code. uncategorized }

abbrev info : KinfoProc ℕ
info = record { p_stat = pos 2; p_pid = pos 7; p_starttime = 90; p_comm = []; e_ppid = pos 1 }

abbrev darwin : Darwin ℕ ℕ
darwin = record {
  sysctl_process = λ pid s. (ok (if ltb s 2 then some info else none), suc s);
  sysctl_size = λ s. (err (os (pos 3)), s);
  sysctl_processes = λ size s. (err (os (pos 12)), s);
  pid_path = λ pid s. (err (os (pos 3)), suc s);
  pid_cwd = λ pid s. (err (os (pos 3)), suc s);
  task_info = λ pid s. (err (os (pos 3)), suc s);
  pid_rusage = λ pid s. (err (os (pos 3)), suc s);
  sysctl_argmax = λ s. (ok 262144, s);
  sysctl_args = λ pid size s. ((0, err (os (pos 22))), s);
  reserve_exact = λ capacity len additional. additional;
  ctl_kern = pos 1;
  kern_proc = pos 14;
  kern_proc_all = pos 0;
  kern_procargs2 = pos 49;
  kern_argmax = pos 8;
  einval = pos 22;
  enomem = pos 12;
}

abbrev conversions : Conversions ℕ ℕ
conversions = record { into_time = λ t. t; nanoseconds = λ n. n; lossy = λ s. s }

abbrev process_of : ℕ → Process ℕ
process_of start = record { pid = pos 7; unique_id = record { pid = pos 7; create_time = start } }

-- A signal to the process that started at 50 is not sent.
send-same_start_example :
    (send unix darwin ticks conversions linux (process_of 50) Signal.kill 0
      ≡ (err (no_such_process (pos 7)), 1))
    × (send unix darwin ticks conversions linux (process_of 50) Signal.kill 2
        ≡ (err (no_such_process (pos 7)), 3))
send-same_start_example =
    send-same_start unix darwin ticks conversions linux (process_of 50) Signal.kill 0 1 2 3 info
      refl refl refl refl

exe-Blame_example :
    (exe unix darwin ticks conversions (process_of 90) 0 ≡ (err (access_denied (pos 7)), 2))
    × (cwd unix darwin ticks conversions (process_of 90) 0 ≡ (err (access_denied (pos 7)), 2))
    × (cpu_time unix darwin ticks conversions (process_of 90) 0 ≡ (err (access_denied (pos 7)), 2))
    × (memory unix darwin ticks conversions (process_of 90) 0 ≡ (err (access_denied (pos 7)), 2))
unfolding int_eq
exe-Blame_example =
    exe-Blame unix darwin ticks conversions (process_of 90) 0 1 2 (some info)
      (access_denied (pos 7)) refl refl refl refl refl (hidden 2 refl (omega arith) (omega arith))
