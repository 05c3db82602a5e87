-- ===== src/Tests/Windows.antt =====
-- Processes of Windows at concrete inputs. The state of the system is a number of requests.
use heim.Prelude.{
  zero, Option, Bool, ◌↔◌, All, true, ℕ, suc, ◌+◌, ◌*◌, ◌≡◌, refl, arith, false, none, some, [],
  ◌∷◌, leb, ltb, ◌==◌, if◌then◌else◌,
}
use heim.Outcome.{ok, err}
use heim.Text.{Bytes}
use heim.Common.Errors.{pos, os, uncategorized}
use heim.Common.Memory.{IsReserve}
use heim.Process.Windows.{Kernel, query_limited_information, termination}
use heim.Process.Windows.Open.{ProcessHandle}
use heim.Process.Windows.Pids.{pids, pids_never_returns}
use heim.Process.Windows.Memory.{Clock, Layout, read_memory}
use heim.Process.Windows.Memory.Retries.{stop, more, read_memory-retried}
use heim.Process.Windows.Table.{Entry, load_table, load_loop, is_suspended}
use heim.Process.Windows.Table.Search.{
  IsSuspended, is_suspended-entry_of, is_suspended_never_returns,
}
use heim.Process.Windows.Handle.{Process, World, is_running}
use heim.Process.Windows.Handle.Methods.{kill}
use heim.Process.Windows.Handle.Reuse.{Owned, kill_reused}

-- The first two reads of memory are cut short. The table holds two processes.
abbrev kernel : Kernel ℕ ℕ
kernel = record {
  open_process = λ access pid s. (ok 7, suc s);
  get_exit_code = λ handle s. (ok 259, s);
  query_image_name = λ handle s. (err (os (pos 5)), s);
  process_times = λ handle s. (ok (90, 0, 6, 8), s);
  priority_class = λ handle s. (ok 32, s);
  set_priority_class = λ handle value s. (ok tt, s);
  terminate_process = λ handle s. (ok tt, suc s);
  suspend_process = λ handle s. (ok tt, s);
  resume_process = λ handle s. (ok tt, s);
  current_process_id = λ s. (8, s);
  is_wow64 = λ handle s. (ok false, s);
  peb_address = λ handle s. (ok 64, s);
  peb32_address = λ handle s. (ok 0, s);
  read_process_memory =
      λ handle src len s. if ltb s 2 then (err (os (pos 299)), suc s) else (ok (1 ∷ 2 ∷ []), s);
  enum_processes = λ bytes s. (ok (bytes, []), suc s);
  system_processes = λ capacity s. (ok (1 ∷ 2 ∷ []), suc s);
  create_snapshot = λ s. (err (os (pos 5)), s);
  process_first = λ handle s. (err (os (pos 18)), s);
  process_next = λ handle s. (err (os (pos 18)), s);
  decode = λ code. uncategorized;
  error_invalid_parameter = pos 87;
  error_access_denied = pos 5;
  error_partial_copy = pos 299;
  error_no_more_files = pos 18;
  error_privilege_not_held = pos 1314;
  eperm = pos 1;
  eacces = pos 13;
  still_active = 259;
  nt_code = λ status. pos (status + 0x10000000);
  reserve = λ capacity len additional.
      if leb (len + additional) capacity then capacity else len + additional;
}

kernel-IsReserve : IsReserve kernel.reserve
kernel-IsReserve capacity len additional = (ground arith, ground arith)

pids_never_returns_example : (pids kernel 50 1024 0).0 ≡ none
pids_never_returns_example =
    pids_never_returns kernel 50 1024 0 kernel-IsReserve (omega arith)
      (record { filled = λ s. ([], suc s, refl) })

abbrev clock : Clock ℕ ℕ
clock = record {
  into_time = λ t. t;
  minus_epoch_delta = λ t. t;
  is_nan = λ t. false;
  same = λ t u. t == u;
}

abbrev layout : Layout
layout = record {
  peb_size = 8;
  peb32_size = 4;
  params_size = 16;
  params32_size = 8;
  peb_parameters = λ bytes. 128;
  peb32_parameters = λ bytes. 128;
  directory = λ bytes. (256, 2);
  directory32 = λ bytes. (256, 2);
}

abbrev process_handle : ProcessHandle
process_handle = record { handle = 7; pid = 8 }

read_memory-retried_example :
    read_memory kernel clock layout process_handle 64 2 (os (pos 0)) 0 ≡ (ok (1 ∷ 2 ∷ []), 2)
read_memory-retried_example =
    read_memory-retried kernel clock layout process_handle 64 2 (os (pos 0)) 2 (1 ∷ 2 ∷ [])
      (more refl (more refl stop)) (omega arith) refl

-- The processes 4 and 8, one byte behind the other; all threads of the second one wait suspended.
abbrev entry_at : Bytes → Entry ℕ
entry_at bytes = elim bytes [
  | [] ↦ record { next_entry_offset = 0; unique_process_id = 0; create_time = 0; threads = [] }
  | n ∷ rest ↦ record {
    next_entry_offset = if n == 1 then 1 else 0;
    unique_process_id = n * 4;
    create_time = 90;
    threads = record { thread_state = 5; wait_reason = 5 } ∷ [];
  }
]

load_table_processes : load_table kernel 3 0 ≡ (some (ok (1 ∷ 2 ∷ [])), 1)
unfolding load_table load_loop
load_table_processes = refl

is_suspended-entry_of_example :
    (answer : Bool) × (is_suspended entry_at kernel 5 5 3 8 0 ≡ (some (ok answer), 1))
    × ((answer ≡ true) ↔ All (IsSuspended 5 5) (entry_at (2 ∷ [])).threads)
is_suspended-entry_of_example =
    is_suspended-entry_of entry_at kernel 5 5 3 8 0 1 (1 ∷ 2 ∷ [])
      (entry_at (1 ∷ []) ∷ entry_at (2 ∷ []) ∷ []) (entry_at (2 ∷ [])) load_table_processes
      (refl, (refl, refl)) (omega arith) refl

is_suspended_never_returns_example : (is_suspended entry_at kernel 5 5 3 12 0).0 ≡ none
is_suspended_never_returns_example =
    is_suspended_never_returns entry_at kernel 5 5 3 12 0 1 (1 ∷ 2 ∷ [])
      (entry_at (1 ∷ []) ∷ entry_at (2 ∷ []) ∷ []) load_table_processes (refl, (refl, refl))
      (omega arith, (omega arith, tt))

abbrev world : World ℕ ℕ ℕ
world = record {
  boot_time = λ s. (ok 0, s);
  file_name = λ path. none;
  lossy = λ s. s;
  entry_at = entry_at;
  thread_error = os (pos 0);
  waiting = 5;
  suspended = 5;
  capacity = 1024;
}

-- A process that started at 50; the one that has the number now started at 90.
abbrev process : Process ℕ
process = record { pid = 8; unique_id = record { pid = pos 8; create_time = 50 } }

-- The number 8 is owned by a process that started at 90, until there was a request.
abbrev owner : ℕ → Option ℕ
owner zero = some 90
owner (suc _) = none

abbrev reused : Kernel ℕ ℕ
reused = record kernel { open_process = λ access pid s. (ok 7, s) }

reused_queried :
    (s start : ℕ)
    → owner s ≡ some start
    → (handle : ℕ) × (times : ℕ × ℕ × ℕ × ℕ) × (reused.open_process query_limited_information 8 s
        ≡ (ok handle, s))
      × (reused.get_exit_code handle s ≡ (ok 259, s))
      × (reused.process_times handle s ≡ (ok times, s))
      × (times.0 ≡ start)
reused_queried zero start held = (7, (90, 0, 6, 8), refl, refl, refl, ground arith)
reused_queried (suc s) start held = absurd (ground arith)

reused_ended :
    (s start : ℕ)
    → owner s ≡ some start
    → (handle : ℕ) × (t : ℕ) × (reused.open_process termination 8 s ≡ (ok handle, s))
      × (reused.terminate_process handle s ≡ (ok tt, t))
      × (owner t ≡ none)
reused_ended zero start held = (7, 1, refl, refl, refl)
reused_ended (suc s) start held = absurd (ground arith)

reused-Owned : Owned reused clock layout world 3 8 owner
reused-Owned = record { queried = reused_queried; ended = reused_ended }

kill_reused_example :
    (is_running reused clock layout world 3 process 0 ≡ (some (ok false), 0))
    × ((t : ℕ) × (kill reused clock layout world 3 process 0 ≡ (some (ok tt), t))
        × (owner t ≡ none))
kill_reused_example =
    kill_reused reused clock layout world 3 process owner 0 90 (omega arith) (omega arith)
      reused-Owned refl refl refl
