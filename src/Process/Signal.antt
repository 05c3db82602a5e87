-- ===== src/Process/Signal.antt =====
-- heim-process/src/os/unix/signal.rs. The numbers of the signals are constants of libc.
pub mod RoundTrip
use heim.Prelude.{List, [], ◌∷◌, if◌then◌else◌}
use heim.Outcome.{ok, err}
use heim.Common.Errors.{ℤ, IoResult, simple, invalid_input}
use heim.Common.Int.{int_eq}

pub data Signal : Type 0 where
  abrt alrm bus chld cont fpe hup ill int kill pipe quit segv stop term tstp ttin ttou : Signal
  usr1 usr2 poll prof sys trap urg vt_alrm x_cpu x_fsz : Signal

pub record Libc : Type 0 where
  pub sigabrt : ℤ
  pub sigalrm : ℤ
  pub sigbus : ℤ
  pub sigchld : ℤ
  pub sigcont : ℤ
  pub sigfpe : ℤ
  pub sighup : ℤ
  pub sigill : ℤ
  pub sigint : ℤ
  pub sigkill : ℤ
  pub sigpipe : ℤ
  pub sigquit : ℤ
  pub sigsegv : ℤ
  pub sigstop : ℤ
  pub sigterm : ℤ
  pub sigtstp : ℤ
  pub sigttin : ℤ
  pub sigttou : ℤ
  pub sigusr1 : ℤ
  pub sigusr2 : ℤ
  pub sigpoll : ℤ
  pub sigprof : ℤ
  pub sigsys : ℤ
  pub sigtrap : ℤ
  pub sigurg : ℤ
  pub sigvtalrm : ℤ
  pub sigxcpu : ℤ
  pub sigxfsz : ℤ

-- The first arm of a `match` on numbers, with the error of its last arm.
unfoldable pub first_arm : List (ℤ × Signal) → ℤ → IoResult Signal
first_arm [] value = err (simple invalid_input)
first_arm ((number, signal) ∷ arms) value =
    let rest = first_arm arms value in if int_eq value number then ok signal else rest

module _ (c : Libc) where
  -- The arms of `Signal::try_from`, in their order.
  abbrev pub arms : List (ℤ × Signal)
  arms =
      (c.sigabrt, abrt)
      ∷ (c.sigalrm, alrm)
      ∷ (c.sigbus, bus)
      ∷ (c.sigchld, chld)
      ∷ (c.sigcont, cont)
      ∷ (c.sigfpe, fpe)
      ∷ (c.sighup, hup)
      ∷ (c.sigill, ill)
      ∷ (c.sigint, int)
      ∷ (c.sigkill, kill)
      ∷ (c.sigpipe, pipe)
      ∷ (c.sigquit, quit)
      ∷ (c.sigsegv, segv)
      ∷ (c.sigstop, stop)
      ∷ (c.sigterm, term)
      ∷ (c.sigtstp, tstp)
      ∷ (c.sigttin, ttin)
      ∷ (c.sigttou, ttou)
      ∷ (c.sigusr1, usr1)
      ∷ (c.sigusr2, usr2)
      ∷ (c.sigpoll, poll)
      ∷ (c.sigprof, prof)
      ∷ (c.sigsys, sys)
      ∷ (c.sigtrap, trap)
      ∷ (c.sigurg, urg)
      ∷ (c.sigvtalrm, vt_alrm)
      ∷ (c.sigxcpu, x_cpu)
      ∷ (c.sigxfsz, x_fsz)
      ∷ []

  -- `Signal::try_from`
  unfoldable pub try_from : ℤ → IoResult Signal
  try_from = first_arm arms

  -- `c_int::from`
  unfoldable pub number_of : Signal → ℤ
  number_of abrt = c.sigabrt
  number_of alrm = c.sigalrm
  number_of bus = c.sigbus
  number_of chld = c.sigchld
  number_of cont = c.sigcont
  number_of fpe = c.sigfpe
  number_of hup = c.sighup
  number_of ill = c.sigill
  number_of int = c.sigint
  number_of kill = c.sigkill
  number_of pipe = c.sigpipe
  number_of quit = c.sigquit
  number_of segv = c.sigsegv
  number_of stop = c.sigstop
  number_of term = c.sigterm
  number_of tstp = c.sigtstp
  number_of ttin = c.sigttin
  number_of ttou = c.sigttou
  number_of usr1 = c.sigusr1
  number_of usr2 = c.sigusr2
  number_of poll = c.sigpoll
  number_of prof = c.sigprof
  number_of sys = c.sigsys
  number_of trap = c.sigtrap
  number_of urg = c.sigurg
  number_of vt_alrm = c.sigvtalrm
  number_of x_cpu = c.sigxcpu
  number_of x_fsz = c.sigxfsz
