-- ===== src/Process/Mac/Listed.antt =====
-- heim-process/src/sys/macos: all processes (bindings/process.rs) and their numbers (pids.rs). A call
-- that is told of more room than the buffer has is undefined behaviour; it stands as a panic.
use mathlib.Core.Option
use heim.Prelude.{
  ℕ, zero, suc, ◌*◌, ◌/◌, ◌-◌, Option, none, some, List, [], ◌∷◌, map, take, ltb, if◌then◌else◌,
}
use heim.Outcome.{ok, err, panic, map_ok}
use heim.Common.Errors.{ℤ, IoResult, Result, last_os_error, with_sysctl, io_raw_os_error}
use heim.Runtime.Task.{Task}
use heim.Process.Mac.{Darwin, KinfoProc, is_code}

-- The size of `kinfo_proc`, as the test of the layout has it.
abbrev pub kinfo_size : ℕ
kinfo_size = 648

module _ {S TimeVal : Type 0} (mac : Darwin S TimeVal) where
  abbrev name : List ℤ
  name = mac.ctl_kern ∷ mac.kern_proc ∷ mac.kern_proc_all ∷ []

  abbrev pub Fueled : Type 0
  Fueled = Task S (Option (Result (List (KinfoProc TimeVal))))

  -- What the loop does with the list.
  abbrev pub stored : Fueled → IoResult (ℕ × List (KinfoProc TimeVal)) → Fueled
  stored again (ok (size, processes)) s = (some (ok (take (size / kinfo_size) processes)), s)
  stored again (err e) s =
      if is_code (io_raw_os_error e) mac.enomem
      then again s
      else (some (err (with_sysctl (last_os_error e) name)), s)
  stored again panic s = (some panic, s)

  -- A round behind the answer of the size, by the capacity behind `reserve_exact`.
  abbrev pub sized : (ℕ → Fueled) → ℕ → IoResult ℕ → Fueled
  sized again capacity (ok size) s =
      let num_processes = size / kinfo_size in
      let capacity' =
        if ltb capacity num_processes
        then mac.reserve_exact capacity 0 (num_processes - capacity)
        else capacity in
      if ltb (capacity' * kinfo_size) size
      then (some panic, s)
      else let r = mac.sysctl_processes size s in stored (again capacity') r.0 r.1
  sized again capacity (err e) s = (some (err (with_sysctl (last_os_error e) name)), s)
  sized again capacity panic s = (some panic, s)

  -- The loop of `processes`, by the capacity of the vector, whose length is zero.
  unfoldable pub fill : ℕ → ℕ → Fueled
  fill zero capacity s = (none, s)
  fill (suc fuel) capacity s =
      let go = fill fuel in let r = mac.sysctl_size s in sized go capacity r.0 r.1

  -- `processes`
  unfoldable pub processes : ℕ → Fueled
  unfolding fill
  processes fuel = fill fuel 0

  -- `pids`, with what its stream yields
  unfoldable pub pids : ℕ → Task S (Option (Result (List ℤ)))
  unfolding processes
  pids fuel s =
      let r = processes fuel s in (Option.map (map_ok (map (λ info. info.p_pid))) r.0, r.1)
