-- ===== src/Process/Windows/Pids.antt =====
-- heim-process/src/sys/windows/bindings/mod.rs: the numbers of all processes.
use heim.Prelude.{
  ℕ, zero, suc, ◌*◌, ◌/◌, ◌≤◌, ◌≡◌, refl, ap, ◌∙◌, arith, Option, none, some, List, ◌==◌,
  if◌then◌else◌, if_true, take,
}
use heim.Outcome.{ok, err, panic}
use heim.Text.{codes}
use heim.Common.Errors.{Result, IoResult, last_os_error, with_ffi}
use heim.Runtime.Task.{Task}
use heim.Common.Memory.{IsReserve}
use heim.Process.Windows.{Kernel}

module _ {S FileTime : Type 0} (sys : Kernel S FileTime) where
  abbrev pub enumerated :
      ℕ
      → Task S (Option (Result (List ℕ)))
      → IoResult (ℕ × List ℕ)
      → Task S (Option (Result (List ℕ)))
  enumerated cb again (ok (bytes_returned, processes)) s =
      if cb == bytes_returned then again s else (some (ok (take (bytes_returned / 4) processes)), s)
  enumerated cb again (err e) s =
      (some (err (with_ffi (last_os_error e) (codes "EnumProcesses"))), s)
  enumerated cb again panic s = (some panic, s)

  -- The loop of `pids`, by the capacity of the vector, whose length is zero all along.
  unfoldable pub pids_loop : ℕ → ℕ → Task S (Option (Result (List ℕ)))
  pids_loop zero capacity s = (none, s)
  pids_loop (suc fuel) capacity s =
      let again = pids_loop fuel (sys.reserve capacity 0 1024) in
      let r = sys.enum_processes (capacity * 4) s in enumerated (capacity * 4) again r.0 r.1

  -- `pids`, with the capacity that the vector starts with
  unfoldable pub pids : ℕ → ℕ → Task S (Option (Result (List ℕ)))
  unfolding pids_loop
  pids fuel capacity = pids_loop fuel capacity

  -- Whenever it is asked, the system fills a buffer of so many bytes.
  pub record Fills (bytes : ℕ) : Type 0 where
    pub filled :
        (s : S)
        → (processes : List ℕ) × (t : S) × (sys.enum_processes bytes s ≡ (ok (bytes, processes), t))

  pids_loop_full :
      (fuel capacity : ℕ) (s : S)
      → Fills (capacity * 4)
      → sys.reserve capacity 0 1024 ≡ capacity
      → (pids_loop fuel capacity s).0 ≡ none
  unfolding pids_loop
  pids_loop_full zero capacity s full kept = refl
  pids_loop_full (suc fuel) capacity s full kept =
      let (processes, t, found) = full.filled s in
      rw (found, kept)
        (ap (λ (r : Option (Result (List ℕ)) × S). r.0)
            (if_true {c = capacity * 4 == capacity * 4} _ _ (ground arith))
          ∙ pids_loop_full fuel capacity t full kept)

  -- If there are at least as many processes as the vector has room for, which is 1024 or more, so
  -- that the system fills it, then `pids` never returns: `reserve` leaves the vector as it is, since
  -- it has room for 1024 items beyond its length, which is zero.
  pub pids_never_returns :
      (fuel capacity : ℕ) (s : S)
      → IsReserve sys.reserve
      → 1024 ≤ capacity
      → Fills (capacity * 4)
      → (pids fuel capacity s).0 ≡ none
  unfolding pids
  pids_never_returns fuel capacity s law room full =
      pids_loop_full fuel capacity s full ((law capacity 0 1024).1 (omega arith))
