-- ===== src/Process/Windows/Handle/Reuse.antt =====
-- Handles of processes that are gone.
use heim.Prelude.{
  ℕ, ◌≡◌, ◌≢◌, refl, Bool, ◌&&◌, ap, ◌∙◌, arith, true, false, Option, none, some, if_false, ◌==◌,
}
use heim.Outcome.{ok, err}
use heim.Common.Errors.{pos, IoError, kind_of_io}
use heim.Process.Errors.{no_such_process}
use heim.Process.Windows.{Kernel, query_limited_information, termination, fails_with}
use heim.Process.Windows.Memory.{Clock, Layout, exit_code, process_times, create_time}
use heim.Process.Windows.Open.{
  ProcessHandle, is_denied, open_handle, open_handle_refused, query_limited_info, for_termination,
  terminate,
}
use heim.Process.Windows.Handle.{
  Process, World, Fueled, match_with, continue, by_time, by_handle, get, get_unchecked,
  create_time_of, same_process, pid_exists, is_running,
}
use heim.Process.Windows.Handle.Methods.{kill}

module _ {S FileTime Time : Type 0} (sys : Kernel S FileTime) (clock : Clock FileTime Time)
    (layout : Layout) (world : World S FileTime Time) (fuel : ℕ) where
  query_refused :
      (pid : ℕ) (e : IoError) (s t : S)
      → (pid == 0) ≡ false
      → sys.open_process query_limited_information pid s ≡ (err e, t)
      → is_denied (kind_of_io sys.decode e) ≡ false
      → fails_with e sys.error_invalid_parameter ≡ true
      → query_limited_info sys pid s ≡ (err (no_such_process (pos pid)), t)
  unfolding query_limited_info
  query_refused pid e s t other h denied refused =
      open_handle_refused sys query_limited_information pid e s t h denied refused
      ∙ ap (λ x. (err x, t)) (if_false _ _ other)

  pid_exists_refused :
      (pid : ℕ) (s t : S)
      → (pid == 0) ≡ false
      → query_limited_info sys pid s ≡ (err (no_such_process (pos pid)), t)
      → pid_exists sys clock layout world fuel pid s ≡ (some (ok false), t)
  unfolding pid_exists
  pid_exists_refused pid s t other h =
      rw other (ap (λ r. by_handle sys clock layout world fuel pid r.0 r.1) h)

  get_absent :
      (pid : ℕ) (s t : S)
      → pid_exists sys clock layout world fuel pid s ≡ (some (ok false), t)
      → get sys clock layout world fuel pid s ≡ (some (err (no_such_process (pos pid))), t)
  unfolding get
  get_absent pid s t h = rw h refl

  is_running_absent :
      (self : Process Time) (s t : S)
      → get sys clock layout world fuel self.pid s
        ≡ (some (err (no_such_process (pos self.pid))), t)
      → is_running sys clock layout world fuel self s
        ≡ (some (err (no_such_process (pos self.pid))), t)
  unfolding is_running
  is_running_absent self s t h = rw h refl

  -- If the system refuses the number of a process as a parameter, then there is no such process for
  -- `get`, and for `is_running` of a handle with this number, which is an error there.
  get_refused :
      (self : Process Time) (e : IoError) (s t : S)
      → self.pid ≢ 0
      → sys.open_process query_limited_information self.pid s ≡ (err e, t)
      → is_denied (kind_of_io sys.decode e) ≡ false
      → fails_with e sys.error_invalid_parameter ≡ true
      → (get sys clock layout world fuel self.pid s
          ≡ (some (err (no_such_process (pos self.pid))), t))
        × (is_running sys clock layout world fuel self s
            ≡ (some (err (no_such_process (pos self.pid))), t))
  get_refused self e s t other h denied refused =
      let other : (self.pid == 0) ≡ false = ground arith in
      let absent = get_absent self.pid s t (
        pid_exists_refused self.pid s t other
          (query_refused self.pid e s t other h denied refused)) in
      (absent, is_running_absent self s t absent)

  -- While a process owns the number, the system lets it be opened, and shows that it runs and when it
  -- started; a process that is terminated owns the number no longer.
  pub record Owned (pid : ℕ) (owner : S → Option Time) : Type 0 where
    pub queried :
        (s : S) (start : Time)
        → owner s ≡ some start
        → (handle : ℕ) × (times : FileTime × FileTime × FileTime × FileTime) × (sys.open_process
              query_limited_information pid s
            ≡ (ok handle, s))
          × (sys.get_exit_code handle s ≡ (ok sys.still_active, s))
          × (sys.process_times handle s ≡ (ok times, s))
          × (clock.minus_epoch_delta (clock.into_time times.0) ≡ start)
    pub ended :
        (s : S) (start : Time)
        → owner s ≡ some start
        → (handle : ℕ) × (t : S) × (sys.open_process termination pid s ≡ (ok handle, s))
          × (sys.terminate_process handle s ≡ (ok tt, t))
          × (owner t ≡ none)

  queries :
      (pid handle : ℕ) (s : S)
      → sys.open_process query_limited_information pid s ≡ (ok handle, s)
      → query_limited_info sys pid s ≡ (ok (record { handle = handle; pid = pid }), s)
  unfolding query_limited_info open_handle
  queries pid handle s opened = rw opened refl

  pid_exists_active :
      (pid handle : ℕ) (s : S)
      → (pid == 0) ≡ false
      → query_limited_info sys pid s ≡ (ok (record { handle = handle; pid = pid }), s)
      → sys.get_exit_code handle s ≡ (ok sys.still_active, s)
      → pid_exists sys clock layout world fuel pid s ≡ (some (ok true), s)
  unfolding pid_exists exit_code
  pid_exists_active pid handle s zero queried active =
      let same : (sys.still_active == sys.still_active) ≡ true = ground arith in
      rw zero (
        ap (λ r. by_handle sys clock layout world fuel pid r.0 r.1) queried
        ∙ rw (active, same) refl)

  abbrev create_time_by : ℕ → ProcessHandle → Fueled S Time
  unfolding create_time
  create_time_by pid handle =
      match_with (create_time sys clock layout handle) (by_time sys clock layout world fuel pid)

  create_time_of_query :
      (pid handle : ℕ) (s : S) (times : FileTime × FileTime × FileTime × FileTime)
      → (pid == 0) ≡ false
      → (pid == 4) ≡ false
      → query_limited_info sys pid s ≡ (ok (record { handle = handle; pid = pid }), s)
      → sys.process_times handle s ≡ (ok times, s)
      → create_time_of sys clock layout world fuel pid s
        ≡ (some (ok (clock.minus_epoch_delta (clock.into_time times.0))), s)
  unfolding create_time_of create_time process_times
  create_time_of_query pid handle s times zero four queried timed =
      rw (zero, four)
        (ap (λ r. continue (create_time_by pid) (some r.0) r.1) queried ∙ rw timed refl)

  get_owned :
      (pid : ℕ) (s : S) (start : Time)
      → pid_exists sys clock layout world fuel pid s ≡ (some (ok true), s)
      → create_time_of sys clock layout world fuel pid s ≡ (some (ok start), s)
      → clock.is_nan start ≡ false
      → get sys clock layout world fuel pid s ≡ (
        some (ok (record { pid = pid; unique_id = record { pid = pos pid; create_time = start } })),
        s,
      )
  unfolding get get_unchecked
  get_owned pid s start exists timed number = rw (exists, timed, number) refl

  &&-false : (test : Bool) → (test && false) ≡ false
  &&-false true = refl
  &&-false false = refl

  is_running_other :
      (self found : Process Time) (s : S)
      → get sys clock layout world fuel self.pid s ≡ (some (ok found), s)
      → clock.same found.unique_id.create_time self.unique_id.create_time ≡ false
      → is_running sys clock layout world fuel self s ≡ (some (ok false), s)
  unfolding is_running same_process
  is_running_other self found s got other =
      rw got (ap (λ same. (some (ok same), s)) (rw other (&&-false _)))

  kill_ends :
      (self : Process Time) (handle : ℕ) (s t : S)
      → (self.pid == 0) ≡ false
      → sys.open_process termination self.pid s ≡ (ok handle, s)
      → sys.terminate_process handle s ≡ (ok tt, t)
      → kill sys clock layout world fuel self s ≡ (some (ok tt), t)
  unfolding kill open_handle for_termination terminate
  kill_ends self handle s t zero opened ended = rw (zero, opened, ended) refl

  -- If the number of a handle, which is neither 0 nor 4, is owned by a process that runs, that the
  -- system lets be queried and terminated, and that started at another time than the one of the
  -- handle, then `is_running` says of the handle that its process does not run, and `kill` of the
  -- same handle in the same state succeeds, and nothing owns the number any more.
  pub kill_reused :
      (self : Process Time) (owner : S → Option Time) (s : S) (start : Time)
      → self.pid ≢ 0
      → self.pid ≢ 4
      → Owned self.pid owner
      → owner s ≡ some start
      → clock.is_nan start ≡ false
      → clock.same start self.unique_id.create_time ≡ false
      → (is_running sys clock layout world fuel self s ≡ (some (ok false), s))
        × ((t : S) × (kill sys clock layout world fuel self s ≡ (some (ok tt), t))
            × (owner t ≡ none))
  kill_reused self owner s start nonzero nonfour owned held number other =
      let zero : (self.pid == 0) ≡ false = ground arith in
      let four : (self.pid == 4) ≡ false = ground arith in
      let (handle, times, opened, active, timed, started) = owned.queried s start held in
      let (ender, t, opened', ended, free) = owned.ended s start held in
      let queried = queries self.pid handle s opened in
      let found =
        get_owned self.pid s start (pid_exists_active self.pid handle s zero queried active)
          (create_time_of_query self.pid handle s times zero four queried timed
            ∙ ap (λ time. (some (ok time), s)) started)
          number in
      (
        is_running_other self _ s found other,
        (t, kill_ends self ender s t zero opened' ended, free),
      )
