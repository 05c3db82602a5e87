-- ===== src/Process/Windows/Snapshot/Errors.antt =====
-- A snapshot whose further entries cannot be read.
use heim.Prelude.{ℕ, zero, suc, ◌≡◌, refl, true, false, none}
use heim.Outcome.{ok, err}
use heim.Common.Errors.{IoError}
use heim.Process.Windows.{Kernel, fails_with}
use heim.Process.Windows.Snapshot.{next, find, new, parent_pid}

-- Every request for a further entry fails with an error of one code.
pub record Fails {S FileTime : Type 0} (sys : Kernel S FileTime) (handle : ℕ) (e : IoError)
    : Type 0 where
  pub first : (s : S) → (t : S) × (sys.process_first handle s ≡ (err e, t))
  pub further : (s : S) → (t : S) × (sys.process_next handle s ≡ (err e, t))

module _ {S FileTime : Type 0} (sys : Kernel S FileTime) (handle : ℕ) (e : IoError)
    (fails : Fails sys handle e) (code : fails_with e sys.error_no_more_files ≡ false) where
  find_further :
      (fuel pid : ℕ) (s : S)
      → (find sys fuel pid (record { handle = handle; first = false }) s).0 ≡ none
  unfolding find next
  find_further zero pid s = refl
  find_further (suc fuel) pid s =
      let (t, h) = fails.further s in rw (h, code) (find_further fuel pid t)

  find_first :
      (fuel pid : ℕ) (s : S)
      → (find sys fuel pid (record { handle = handle; first = true }) s).0 ≡ none
  unfolding find next
  find_first zero pid s = refl
  find_first (suc fuel) pid s = let (t, h) = fails.first s in rw (h, code) (find_further fuel pid t)

  -- If every entry of the snapshot is answered with an error that is not the end of the list, then
  -- `parent_pid` never returns, since the search passes over the items that are errors.
  parent_pid_never_returns :
      (fuel pid : ℕ) (s t : S)
      → sys.create_snapshot s ≡ (ok handle, t)
      → (parent_pid sys fuel pid s).0 ≡ none
  unfolding parent_pid new
  parent_pid_never_returns fuel pid s t h = rw h (rw (find_first fuel pid t) refl)
