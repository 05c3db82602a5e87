-- ===== src/Process/Signal/RoundTrip.antt =====
-- A signal and its number determine each other.
use heim.Prelude.{
  ℕ, zero, suc, subst, ◌≡◌, refl, arith, ◌↔◌, false, Option, none, some, List, [], ◌∷◌, All, inl,
  inr, Bool-cases, if◌then◌else◌,
}
use heim.Outcome.{ok}
use heim.Common.Errors.{ℤ}
use heim.Common.Int.{int_eq, int_eq_refl, int_eq_sound}
use heim.Process.Signal.{
  Signal, abrt, alrm, bus, chld, cont, fpe, hup, ill, int, kill, pipe, quit, segv, stop, term, tstp,
  ttin, ttou, usr1, usr2, poll, prof, sys, trap, urg, vt_alrm, x_cpu, x_fsz, Libc, first_arm, arms,
  try_from, number_of,
}

abbrev arm_at : List (ℤ × Signal) → ℕ → Option (ℤ × Signal)
arm_at [] i = none
arm_at (arm ∷ rest) zero = some arm
arm_at (arm ∷ rest) (suc i) = arm_at rest i

-- No number stands twice.
abbrev pub Distinct : List (ℤ × Signal) → Type 0
Distinct [] = Unit
Distinct (arm ∷ rest) = All (λ other. int_eq other.0 arm.0 ≡ false) rest × Distinct rest

differs :
    (list : List (ℤ × Signal)) (i : ℕ) (number : ℤ) (signal : Signal) (k : ℤ)
    → All (λ other. int_eq other.0 k ≡ false) list
    → arm_at list i ≡ some (number, signal)
    → int_eq number k ≡ false
differs [] i number signal k h e = ground arith
differs (arm ∷ rest) zero number signal k h e =
    let same : arm ≡ (number, signal) = ground arith in subst (λ a. int_eq a.0 k ≡ false) same h.0
differs (arm ∷ rest) (suc i) number signal k h e = differs rest i number signal k h.1 e

-- A list of arms without a number twice finds each of its signals by its number.
first_arm-arm_at :
    (list : List (ℤ × Signal)) (i : ℕ) (number : ℤ) (signal : Signal)
    → Distinct list
    → arm_at list i ≡ some (number, signal)
    → first_arm list number ≡ ok signal
unfolding first_arm
first_arm-arm_at [] i number signal d e = ground arith
first_arm-arm_at (arm ∷ rest) zero number signal d e =
    let same : arm ≡ (number, signal) = ground arith in rw (same, int_eq_refl number)
first_arm-arm_at (arm ∷ rest) (suc i) number signal d e =
    let other : int_eq number arm.0 ≡ false = differs rest i number signal arm.0 d.0 e in
    rw (other, first_arm-arm_at rest i number signal d.1 e)

module _ (c : Libc) where
  abbrev Agrees : ℤ × Signal → Type 0
  Agrees arm = number_of c arm.1 ≡ arm.0

  first_arm_sound :
      (list : List (ℤ × Signal)) (number : ℤ) (signal : Signal)
      → All Agrees list
      → first_arm list number ≡ ok signal
      → number_of c signal ≡ number
  unfolding first_arm
  first_arm_sound [] number signal all e = ground arith
  first_arm_sound (arm ∷ rest) number signal all e = elim (Bool-cases (int_eq number arm.0)) [
    | inl same ↦
        let found : ok (arm.1) ≡ ok signal =
          subst (λ b. (if b then ok (arm.1) else first_arm rest number) ≡ ok signal) same e in
        ground (arith, int_eq_sound number arm.0 same, all.0)
    | inr other ↦
        first_arm_sound rest number signal all.1
          (subst (λ b. (if b then ok (arm.1) else first_arm rest number) ≡ ok signal) other e)
  ]

  -- The place of a signal's arm.
  abbrev place : Signal → ℕ
  place abrt = 0
  place alrm = 1
  place bus = 2
  place chld = 3
  place cont = 4
  place fpe = 5
  place hup = 6
  place ill = 7
  place int = 8
  place kill = 9
  place pipe = 10
  place quit = 11
  place segv = 12
  place stop = 13
  place term = 14
  place tstp = 15
  place ttin = 16
  place ttou = 17
  place usr1 = 18
  place usr2 = 19
  place poll = 20
  place prof = 21
  place sys = 22
  place trap = 23
  place urg = 24
  place vt_alrm = 25
  place x_cpu = 26
  place x_fsz = 27

  arms_complete : (s : Signal) → arm_at (arms c) (place s) ≡ some (number_of c s, s)
  unfolding number_of
  arms_complete abrt = refl
  arms_complete alrm = refl
  arms_complete bus = refl
  arms_complete chld = refl
  arms_complete cont = refl
  arms_complete fpe = refl
  arms_complete hup = refl
  arms_complete ill = refl
  arms_complete int = refl
  arms_complete kill = refl
  arms_complete pipe = refl
  arms_complete quit = refl
  arms_complete segv = refl
  arms_complete stop = refl
  arms_complete term = refl
  arms_complete tstp = refl
  arms_complete ttin = refl
  arms_complete ttou = refl
  arms_complete usr1 = refl
  arms_complete usr2 = refl
  arms_complete poll = refl
  arms_complete prof = refl
  arms_complete sys = refl
  arms_complete trap = refl
  arms_complete urg = refl
  arms_complete vt_alrm = refl
  arms_complete x_cpu = refl
  arms_complete x_fsz = refl

  arms_agree : All Agrees (arms c)
  unfolding number_of
  arms_agree = ground arith

  -- If no two of the system's signal numbers are the same, a number is converted into a signal
  -- exactly if it is the number that the signal is converted into.
  pub try_from-number_of :
      Distinct (arms c)
      → (value : ℤ) (signal : Signal)
      → (try_from c value ≡ ok signal) ↔ (number_of c signal ≡ value)
  unfolding try_from
  try_from-number_of d value signal = (
    first_arm_sound (arms c) value signal arms_agree,
    λ e.
        subst (λ v. try_from c v ≡ ok signal) e
          (first_arm-arm_at (arms c) (place signal) (number_of c signal) signal d
            (arms_complete signal)),
  )
