-- ===== src/Process/Mac/Handle/Zombies.antt =====
-- Processes that the library darwin_libproc does not find.
use heim.Prelude.{
  ℕ, zero, suc, ◌≤◌, ◌<◌, ◌≡◌, refl, ap, ◌∙◌, ◌⊎◌, inl, inr, arith, false, Option, none, some, ◌++◌,
  ◌==◌, if_false, Bool-cases, if◌then◌else◌,
}
use heim.Outcome.{ok, err}
use heim.Text.{codes}
use heim.Text.Signed.{show_int}
use heim.Common.Errors.{ℤ, pos, negsuc, os, simple, invalid_data, from_io, with_message}
use heim.Common.Int.{int_eq, int_eq_refl}
use heim.Runtime.Task.{ready, await}
use heim.Process.Errors.{
  ProcessError, ProcessResult, no_such_process, zombie_process, access_denied, load,
}
use heim.Process.Errors
use heim.Process.Handle.{Process}
use heim.Process.Mac.{
  Darwin, KinfoProc, is_denied, process, blamed, by_status, catch_zombie, try_from,
}
use heim.Process.Mac.Handle.{Conversions, path_for, exe, cwd, cpu_time, memory}
use heim.Process.System.{System, Times}

-- The states are numbered from 1 to 5, and 5 is that of a zombie; any other number is no state.
abbrev pub IsUnknown : ℤ → Type 0
IsUnknown (pos n) = (n ≡ 0) ⊎ (5 < n)
IsUnknown (negsuc n) = Unit

-- What is to be reported of a process by what the system shows under its number.
pub data Blame {TimeVal : Type 0} (pid : ℤ)
    : Option (KinfoProc TimeVal) → ProcessError → Type 0 where
  gone : Blame pid none (no_such_process pid)
  dead :
      {info : KinfoProc TimeVal} → info.p_stat ≡ pos 5 → Blame pid (some info) (zombie_process pid)
  hidden :
      {info : KinfoProc TimeVal} (n : ℕ)
      → info.p_stat ≡ pos n
      → 1 ≤ n
      → n ≤ 4
      → Blame pid (some info) (access_denied pid)
  unknown :
      {info : KinfoProc TimeVal}
      → IsUnknown info.p_stat
      → Blame pid (some info) (
          load (
            with_message
              (from_io (simple invalid_data))
              (codes "Unknown process p_stat value: " ++ show_int info.p_stat)))

module _ {S Time TimeVal : Type 0} (sys : System S) (mac : Darwin S TimeVal) (times : Times Time)
    (conv : Conversions Time TimeVal) where
  by_status-hidden :
      {A : Type 0} (pid : ℤ) (n : ℕ)
      → 1 ≤ n
      → n ≤ 4
      → by_status sys mac {A = A} pid (try_from (pos n)) ≡ err (access_denied pid)
  unfolding try_from int_eq
  by_status-hidden pid zero low high = absurd (omega arith)
  by_status-hidden pid (suc zero) low high = refl
  by_status-hidden pid (suc (suc zero)) low high = refl
  by_status-hidden pid (suc (suc (suc zero))) low high = refl
  by_status-hidden pid (suc (suc (suc (suc zero)))) low high = refl
  by_status-hidden pid (suc (suc (suc (suc (suc n))))) low high = absurd (omega arith)

  try_from-unknown :
      (state : ℤ)
      → IsUnknown state
      → try_from state
        ≡ err (
            with_message
              (from_io (simple invalid_data))
              (codes "Unknown process p_stat value: " ++ show_int state))
  unfolding try_from int_eq
  try_from-unknown (pos n) out =
      if_false {c = n == 1} _ _ (ground arith)
      ∙ if_false {c = n == 2} _ _ (ground arith)
      ∙ if_false {c = n == 3} _ _ (ground arith)
      ∙ if_false {c = n == 4} _ _ (ground arith)
      ∙ if_false {c = n == 5} _ _ (ground arith)
  try_from-unknown (negsuc n) out = refl

  blamed-Blame :
      {A : Type 0} (pid : ℤ) (s t : S) (found : Option (KinfoProc TimeVal)) (e : ProcessError)
      → mac.sysctl_process pid s ≡ (ok found, t)
      → Blame pid found e
      → await (process sys mac pid) (λ r. ready (blamed sys mac {A = A} pid r)) s ≡ (err e, t)
  unfolding process blamed int_eq
  blamed-Blame pid s t found e h gone = rw h refl
  blamed-Blame pid s t found e h (dead five) = rw (h, five) refl
  blamed-Blame pid s t found e h (hidden n state low high) =
      rw (h, state) (ap (λ r. (r, t)) (by_status-hidden pid n low high))
  blamed-Blame pid s t (some info) e h (unknown out) =
      rw h (ap (λ r. (by_status sys mac pid r, t)) (try_from-unknown info.p_stat out))

  catch_zombie-Blame :
      {A : Type 0} (pid : ℤ) (s t : S) (found : Option (KinfoProc TimeVal)) (e : ProcessError)
      → mac.sysctl_process pid s ≡ (ok found, t)
      → Blame pid found e
      → catch_zombie sys mac {A = A} (Errors.from_io (os sys.esrch)) pid s ≡ (err e, t)
  unfolding catch_zombie
  catch_zombie-Blame pid s t found e h blame =
      rw (int_eq_refl sys.esrch) (blamed-Blame pid s t found e h blame)

  exe_for-Blame :
      (pid : ℤ) (t u : S) (found : Option (KinfoProc TimeVal)) (e : ProcessError)
      → mac.sysctl_process pid t ≡ (ok found, u)
      → Blame pid found e
      → path_for sys mac times conv pid (err (os sys.esrch)) t
        ≡ (if int_eq pid (pos 0) then (err (access_denied pid), t) else (err e, u))
  unfolding path_for
  exe_for-Blame pid t u found e shown blame = elim (Bool-cases (int_eq pid (pos 0))) [
    | inl kernel ↦ rw kernel refl
    | inr other ↦ rw other (catch_zombie-Blame pid t u found e shown blame)
  ]

  -- If the library does not find a process (the error ESRCH, which is no lack of permission), then
  -- its directory, its times and its memory are all refused with the same error: that there is no
  -- such process if the system shows none either, that it is a zombie if the system shows one, that
  -- the access is denied if it shows the process in another state, and the number of the state if
  -- this is none. Its path is refused with this error too, except that of the process 0, for which
  -- the access is denied and the system is not asked.
  pub exe-Blame :
      (self : Process Time) (s t u : S) (found : Option (KinfoProc TimeVal)) (e : ProcessError)
      → is_denied (sys.decode sys.esrch) ≡ false
      → mac.pid_path self.pid s ≡ (err (os sys.esrch), t)
      → mac.pid_cwd self.pid s ≡ (err (os sys.esrch), t)
      → mac.task_info self.pid s ≡ (err (os sys.esrch), t)
      → mac.sysctl_process self.pid t ≡ (ok found, u)
      → Blame self.pid found e
      → (exe sys mac times conv self s
          ≡ (if int_eq self.pid (pos 0) then (err (access_denied self.pid), t) else (err e, u)))
        × (cwd sys mac times conv self s ≡ (err e, u))
        × (cpu_time sys mac times conv self s ≡ (err e, u))
        × (memory sys mac times conv self s ≡ (err e, u))
  unfolding exe cwd cpu_time memory
  exe-Blame self s t u found e plain path directory info shown blame = (
    rw path (exe_for-Blame self.pid t u found e shown blame),
    rw (directory, plain) (catch_zombie-Blame self.pid t u found e shown blame),
    rw (info, plain) (catch_zombie-Blame self.pid t u found e shown blame),
    rw (info, plain) (catch_zombie-Blame self.pid t u found e shown blame),
  )
