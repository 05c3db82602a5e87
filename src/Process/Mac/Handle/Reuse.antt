-- ===== src/Process/Mac/Handle/Reuse.antt =====
-- Signals to a process whose number may be of another one.
use heim.Prelude.{◌≡◌, refl, false, none, some, if◌then◌else◌, Bool-cases, inl, inr}
use heim.Outcome.{ok, err}
use heim.Common.Int.{int_eq_refl}
use heim.Process.Errors.{no_such_process}
use heim.Process.Handle.{Process, new_id, same_process}
use heim.Process.Mac.{Darwin, KinfoProc, process, catch_zombie}
use heim.Process.Mac.Handle.{Conversions, get, is_running, send}
use heim.Process.Signal.{Signal, Libc}
use heim.Process.System.{System, Times}
use heim.Process.Unix.{pid_kill}

module _ {S Time TimeVal : Type 0} (sys : System S) (mac : Darwin S TimeVal) (times : Times Time)
    (conv : Conversions Time TimeVal) (c : Libc) where
  send_there :
      (self : Process Time) (signal : Signal) (s t : S) (info : KinfoProc TimeVal)
      → self.unique_id.pid ≡ self.pid
      → mac.sysctl_process self.pid s ≡ (ok (some info), t)
      → times.is_nan (conv.into_time info.p_starttime) ≡ false
      → send sys mac times conv c self signal s ≡ (
          if times.same (conv.into_time info.p_starttime) self.unique_id.create_time
          then pid_kill sys c self.pid signal t
          else (err (no_such_process self.pid), t))
  unfolding send get process new_id is_running same_process
  send_there self signal s t info own h number =
      let equal = int_eq_refl self.pid in
      elim (Bool-cases (times.same (conv.into_time info.p_starttime) self.unique_id.create_time)) [
        | inl same ↦ rw (h, number, own, equal, same) refl
        | inr other ↦ rw (h, number, own, equal, other) refl
      ]

  send_gone :
      (self : Process Time) (signal : Signal) (s t : S)
      → mac.sysctl_process self.pid s ≡ (ok none, t)
      → send sys mac times conv c self signal s ≡ (err (no_such_process self.pid), t)
  unfolding send get process catch_zombie is_running
  send_gone self signal s t h = rw h refl

  -- If the system shows a process under the number of a handle, then a signal to the handle is the
  -- call of `kill` if this process started when the one of the handle did, and otherwise nothing is
  -- called, and the process of the handle is reported as gone. If the system shows no process, then
  -- it is reported as gone too.
  pub send-same_start :
      (self : Process Time) (signal : Signal) (s t s' t' : S) (info : KinfoProc TimeVal)
      → self.unique_id.pid ≡ self.pid
      → mac.sysctl_process self.pid s ≡ (ok (some info), t)
      → times.is_nan (conv.into_time info.p_starttime) ≡ false
      → mac.sysctl_process self.pid s' ≡ (ok none, t')
      → (send sys mac times conv c self signal s ≡ (
          if times.same (conv.into_time info.p_starttime) self.unique_id.create_time
          then pid_kill sys c self.pid signal t
          else (err (no_such_process self.pid), t)))
        × (send sys mac times conv c self signal s' ≡ (err (no_such_process self.pid), t'))
  send-same_start self signal s t s' t' info own h number gone =
      (send_there self signal s t info own h number, send_gone self signal s' t' gone)
