-- ===== src/Process/Unix/Wait.antt =====
-- `pid_wait` and the existence of a process that it asks for.
use heim.Prelude.{ℕ, zero, suc, ◌<◌, ◌≡◌, Bool, arith, true, false, some}
use heim.Outcome.{ok}
use heim.Common.Errors.{ℤ, negsuc}
use heim.Common.Int.{int_eq_refl}
use heim.Process.System.{System}
use heim.Process.Unix.{pid_exists, wait_loop, pid_wait}

module _ {S : Type 0} (sys : System S) (pid : ℤ) where
  -- One item of the interval, and the question behind it.
  abbrev pub poll : S → Bool × S
  poll s = pid_exists sys pid (sys.tick s)

  -- The state behind a number of polls.
  abbrev pub after : ℕ → S → S
  after zero s = s
  after (suc n) s = after n (poll s).1

  -- The process is there at each of so many polls.
  abbrev pub RunsFor : ℕ → S → Type 0
  RunsFor zero s = Unit
  RunsFor (suc n) s = ((poll s).0 ≡ true) × RunsFor n (poll s).1

  wait_loop_ends :
      (n fuel : ℕ) (s : S)
      → n < fuel
      → RunsFor n s
      → (poll (after n s)).0 ≡ false
      → wait_loop sys fuel pid s ≡ (some (ok tt), (poll (after n s)).1)
  unfolding wait_loop
  wait_loop_ends n zero s h runs gone = absurd (omega arith)
  wait_loop_ends zero (suc fuel) s h runs gone = rw gone
  wait_loop_ends (suc n) (suc fuel) s h runs gone =
      rw (runs.0, wait_loop_ends n fuel (poll s).1 (omega arith) runs.1 gone)

  -- If `waitpid` fails, as it does for a process that is not a child, the wait ends at the first
  -- poll that does not find the process, with a success, given more rounds than the polls that
  -- find it.
  pub pid_wait_ends :
      (n fuel : ℕ) (s : S)
      → (sys.waitpid pid s).0 ≡ negsuc 0
      → n < fuel
      → RunsFor n (sys.waitpid pid s).1
      → (poll (after n (sys.waitpid pid s).1)).0 ≡ false
      → pid_wait sys fuel pid s ≡ (some (ok tt), (poll (after n (sys.waitpid pid s).1)).1)
  unfolding pid_wait
  pid_wait_ends n fuel s failed h runs gone =
      rw (failed, int_eq_refl (negsuc 0), wait_loop_ends n fuel (sys.waitpid pid s).1 h runs gone)
