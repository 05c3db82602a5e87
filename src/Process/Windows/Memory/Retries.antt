-- ===== src/Process/Windows/Memory/Retries.antt =====
-- How often a read of memory is tried.
use heim.Prelude.{ℕ, zero, suc, ◌<◌, ◌≡◌, refl, ◌∙◌, arith, if_true}
use heim.Outcome.{ok, err}
use heim.Text.{Bytes, codes}
use heim.Common.Errors.{IoError, os, last_os_error, with_ffi}
use heim.Common.Int.{int_eq_refl}
use heim.Process.Errors.{load}
use heim.Process.Windows.{Kernel}
use heim.Process.Windows.Open.{ProcessHandle}
use heim.Process.Windows.Memory.{Clock, Layout, read_loop, read_memory}

module _ {S FileTime Time : Type 0} (sys : Kernel S FileTime) (clock : Clock FileTime Time)
    (layout : Layout) (self : ProcessHandle) (src len : ℕ) where
  -- So many reads in turn are cut short.
  pub data Partial : ℕ → S → S → Type 0 where
    stop : {s : S} → Partial 0 s s
    more :
        {n : ℕ} {s t u : S}
        → sys.read_process_memory self.handle src len s ≡ (err (os sys.error_partial_copy), t)
        → Partial n t u
        → Partial (suc n) s u

  round_Partial :
      (rounds : ℕ) (e : IoError) (s t : S)
      → sys.read_process_memory self.handle src len s ≡ (err (os sys.error_partial_copy), t)
      → read_loop sys clock layout (suc rounds) self src len e s
        ≡ read_loop sys clock layout rounds self src len (os sys.error_partial_copy) t
  unfolding read_loop
  round_Partial rounds e s t h = rw h (if_true _ _ (int_eq_refl sys.error_partial_copy))

  round_ok :
      (rounds : ℕ) (e : IoError) (s t : S) (bytes : Bytes)
      → sys.read_process_memory self.handle src len s ≡ (ok bytes, t)
      → read_loop sys clock layout (suc rounds) self src len e s ≡ (ok bytes, t)
  unfolding read_loop
  round_ok rounds e s t bytes h = rw h refl

  read_loop-Partial :
      (rounds : ℕ) (e : IoError) {n : ℕ} {s t : S} (u : S) (bytes : Bytes)
      → Partial n s t
      → n < rounds
      → sys.read_process_memory self.handle src len t ≡ (ok bytes, u)
      → read_loop sys clock layout rounds self src len e s ≡ (ok bytes, u)
  read_loop-Partial zero e u bytes run lt h = absurd (omega arith)
  read_loop-Partial (suc rounds) e u bytes stop lt h = round_ok rounds e _ u bytes h
  read_loop-Partial (suc rounds) e u bytes (more cut run) lt h =
      round_Partial rounds e _ _ cut
      ∙ read_loop-Partial rounds (os sys.error_partial_copy) u bytes run (omega arith) h

  read_loop_gives_up :
      (n : ℕ) {s t : S}
      → Partial n s t
      → read_loop sys clock layout n self src len (os sys.error_partial_copy) s ≡ (
        err (
            load
              (with_ffi (last_os_error (os sys.error_partial_copy)) (codes "ReadProcessMemory"))),
        t,
      )
  unfolding read_loop
  read_loop_gives_up zero stop = refl
  read_loop_gives_up (suc n) (more cut run) =
      round_Partial n (os sys.error_partial_copy) _ _ cut ∙ read_loop_gives_up n run

  -- Up to four reads that are cut short are tried again, and the bytes of the read behind them are
  -- the result.
  pub read_memory-retried :
      (e : IoError) {n : ℕ} {s t : S} (u : S) (bytes : Bytes)
      → Partial n s t
      → n < 5
      → sys.read_process_memory self.handle src len t ≡ (ok bytes, u)
      → read_memory sys clock layout self src len e s ≡ (ok bytes, u)
  unfolding read_memory
  read_memory-retried e u bytes run lt h = read_loop-Partial 5 e u bytes run lt h

  -- After five reads that are cut short the error is that of the last one, whatever the last error
  -- of the thread was before, and no further read is made.
  read_memory_gives_up :
      (e : IoError) {s t : S}
      → Partial 5 s t
      → read_memory sys clock layout self src len e s ≡ (
        err (
            load
              (with_ffi (last_os_error (os sys.error_partial_copy)) (codes "ReadProcessMemory"))),
        t,
      )
  unfolding read_memory
  read_memory_gives_up e (more cut run) = round_Partial 4 e _ _ cut ∙ read_loop_gives_up 4 run
