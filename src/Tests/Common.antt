-- ===== src/Tests/Common.antt =====
-- heim-common and heim-runtime at concrete inputs.
use heim.Prelude.{ℕ, Bool, true, false, none, some, [], ◌∷◌, ◌≡◌, refl, arith}
use heim.Text.{codes}
use heim.Common.ChooseChain.{ready, ChooseChain, new}
use heim.Common.ChooseChain.Drain.{Script, poll_script, drain, drain-new}
use heim.Runtime.Roots.{
  unset, procfs_root, make_calls, set_procfs, get_procfs, set_sysfs, procfs_root-make_calls,
}

abbrev silent : Script ℕ
silent = none ∷ none ∷ []

abbrev numbers : Script ℕ
numbers = some 4 ∷ none ∷ some 5 ∷ []

drain-new_example : drain 6 (new silent numbers) ≡ some (4 ∷ 5 ∷ [])
drain-new_example = drain-new 6 silent numbers (omega arith)

abbrev yielded : ChooseChain (Script ℕ) (Script ℕ)
yielded = record { first = some (none ∷ []); first_yielded = true; second = numbers }

abbrev is_empty : Script ℕ → Bool
is_empty [] = true
is_empty (a ∷ s) = false

is_empty_fused :
    (t : Script ℕ)
    → is_empty t ≡ true
    → ((poll_script t).0 ≡ ready none) × (is_empty (poll_script t).1 ≡ true)
is_empty_fused [] h = (refl, refl)
is_empty_fused (a ∷ t) h = cc

abbrev ended : ChooseChain (Script ℕ) (Script ℕ)
ended = record { first = none; first_yielded = false; second = [] }

procfs_root-make_calls_example :
    (procfs_root (
      make_calls
        (set_sysfs (codes "/mnt/sys") ∷ set_procfs (codes "/mnt/proc") ∷ get_procfs ∷ [])
        unset)).0
    ≡ codes "/mnt/proc"
procfs_root-make_calls_example =
    procfs_root-make_calls
      (set_sysfs (codes "/mnt/sys") ∷ set_procfs (codes "/mnt/proc") ∷ get_procfs ∷ [])
