-- ===== src/Process/Handle/Signals.antt =====
-- Whom the signals of a process reach, when its number may have been given to another process.
use heim.Prelude.{
  ℕ, ◌^◌, ◌<◌, ◌≡◌, ◌≢◌, ◌↔◌, ◌⊎◌, inl, inr, Bool-cases, Option-cases, sym, ap, ◌∙◌, true, false,
  none, some,
}
use heim.Outcome.{ok, err, panic}
use heim.Text.{codes}
use heim.Text.Signed.{InRange}
use heim.Common.Errors.{ℤ, IoError, not_found, kind_of_io}
use heim.Host.BootTime.{boot_time}
use heim.Process.Errors.{no_such_process}
use heim.Common.Int.{int_eq_refl}
use heim.Process.System.{System, Times}
use heim.Process.Signal.{Signal, Libc}
use heim.Process.Unix.{pid_kill}
use heim.Process.Stat.Layout.{stat_line}
use heim.Process.Stat.RoundTrip.{stat_of, from_str-stat_line}
use heim.Process.Procfs.{process_file_path, stat}
use heim.Process.Handle.{Process, get, same_process, send}
use heim.Process.Handle.Slot.{Entry, IsEntry, start, Slot, IsSlot, Steps, restarted}

-- What procfs shows of one process number, and that it is read without a change of the state.
pub record Shows {S Time : Type 0} (sys : System S) (times : Times Time) (pid : ℤ) (slot : S → Slot)
    (boot : Time) : Type 0 where
  pub line_there :
      (s : S) (e : Entry)
      → (slot s).holder ≡ some e
      → sys.read_to_string (process_file_path sys pid (codes "stat")) s
        ≡ (ok (stat_line pid e.name e.state e.fields e.more), s)
  pub line_gone :
      (s : S)
      → (slot s).holder ≡ none
      → (e : IoError) × (sys.read_to_string (process_file_path sys pid (codes "stat")) s
          ≡ (err e, s))
        × (kind_of_io sys.decode e ≡ not_found)
  pub boot_shown :
      (s : S) → boot_time times.parse sys.procfs_root sys.read_to_string s ≡ (ok boot, s)
  pub entries_fit : (s : S) (e : Entry) → (slot s).holder ≡ some e → IsEntry e

-- The times of two processes are told apart if their clock ticks differ.
pub record TellsApart {Time : Type 0} (times : Times Time) (boot : Time) (limit : ℕ) : Type 0 where
  pub number : (n : ℕ) → n < limit → times.is_nan (times.plus (times.of_ticks n) boot) ≡ false
  pub apart :
      (m n : ℕ)
      → m < limit
      → n < limit
      → (times.same (times.plus (times.of_ticks m) boot) (times.plus (times.of_ticks n) boot)
          ≡ true)
        ↔ (m ≡ n)

module _ {S Time : Type 0} {sys : System S} {times : Times Time} {pid : ℤ} {slot : S → Slot}
    {boot : Time} (shows : Shows sys times pid slot boot) (pid_fits : InRange (2 ^ 31) pid) where
  abbrev born : Entry → Time
  born e = times.plus (times.of_ticks (start e)) boot

  abbrev process_at : Entry → Process Time
  process_at e = record { pid = pid; unique_id = record { pid = pid; create_time = born e } }

  pub stat_there :
      (s : S) (e : Entry)
      → (slot s).holder ≡ some e
      → stat sys times pid s ≡ (
        ok (record (stat_of times.of_ticks pid e.name e.state e.fields) { create_time = born e }),
        s,
      )
  unfolding stat
  stat_there s e h =
      let fits = shows.entries_fit s e h in
      rw (shows.line_there s e h) (
        rw
          (from_str-stat_line times.of_ticks pid e.name e.state e.fields e.more pid_fits
            fits.fields_fit fits.more_fits)
          (rw (shows.boot_shown s)))

  stat_gone :
      (s : S) → (slot s).holder ≡ none → stat sys times pid s ≡ (err (no_such_process pid), s)
  unfolding stat
  stat_gone s h = let (e, read, kind) = shows.line_gone s h in rw read (rw kind)

  pub get_there :
      (s : S) (e : Entry)
      → (slot s).holder ≡ some e
      → times.is_nan (born e) ≡ false
      → get sys times pid s ≡ (ok (process_at e), s)
  unfolding get
  get_there s e h number = rw (stat_there s e h) (rw number)

  get_gone : (s : S) → (slot s).holder ≡ none → get sys times pid s ≡ (err (no_such_process pid), s)
  unfolding get
  get_gone s h = rw (stat_gone s h)

  module _ {limit : ℕ} (apart : TellsApart times boot limit) (c : Libc) (self : Process Time)
      (before s : S) (d : Entry) (is_slot : IsSlot (slot before))
      (held : (slot before).holder ≡ some d) (d_fits : start d < limit)
      (got : get sys times pid before ≡ (ok self, before)) (steps : Steps (slot before) (slot s))
      (signal : Signal) where
    self_is : process_at d ≡ self
    self_is =
        ap (λ r. elim r.0 [ ok process ↦ process | err e ↦ process_at d | panic ↦ process_at d ])
          (sym (get_there before d held (apart.number (start d) d_fits)) ∙ got)

    send_gone :
        (slot s).holder ≡ none → send sys times c self signal s ≡ (err (no_such_process pid), s)
    unfolding send
    send_gone h = rw (sym self_is) (rw (get_gone s h))

    -- A signal is passed to `kill` if the process that has the number now is the one that the
    -- number was asked for, whatever became of it in between, short of its end.
    pub send_delivered :
        (e : Entry)
        → (slot s).holder ≡ some e
        → start e < limit
        → (slot s).generation ≡ (slot before).generation
        → send sys times c self signal s ≡ pid_kill sys c pid signal s
    unfolding send same_process
    send_delivered e h fits same =
        let started = (restarted (slot before) (slot s) d e is_slot steps held h).1 same in
        let equal = (apart.apart (start e) (start d) fits d_fits).1 started in
        rw (sym self_is)
          (rw (get_there s e h (apart.number (start e) fits)) (rw (int_eq_refl pid) (rw equal)))

    send_other :
        (e : Entry)
        → (slot s).holder ≡ some e
        → start e < limit
        → (slot s).generation ≢ (slot before).generation
        → send sys times c self signal s ≡ (err (no_such_process pid), s)
    unfolding send same_process
    send_other e h fits other = elim (Bool-cases (times.same (born e) (born d))) [
      | inl equal ↦
          let started = (apart.apart (start e) (start d) fits d_fits).0 equal in
          absurd (other ((restarted (slot before) (slot s) d e is_slot steps held h).0 started))
      | inr differs ↦
          rw (sym self_is)
            (rw (get_there s e h (apart.number (start e) fits)) (rw (int_eq_refl pid) (rw differs)))
    ]

    -- No signal is sent, and the state is left as it was, if the process has ended, also if its
    -- number was given to another process since; the error says that there is no such process.
    pub send_refused :
        ((slot s).holder ≡ none) ⊎ ((slot s).generation ≢ (slot before).generation)
        → ((e : Entry) → (slot s).holder ≡ some e → start e < limit)
        → send sys times c self signal s ≡ (err (no_such_process pid), s)
    send_refused (inl gone) fits = send_gone gone
    send_refused (inr other) fits = elim (Option-cases (slot s).holder) [
      | inl gone ↦ send_gone gone
      | inr (e, h) ↦ send_other e h (fits e h) other
    ]
