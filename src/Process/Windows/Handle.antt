-- ===== src/Process/Windows/Handle.antt =====
-- heim-process/src/sys/windows/process/mod.rs, process/create_time.rs and pids.rs: a process, and what
-- is asked of it.
pub mod Methods
pub mod Reuse
use heim.Prelude.{
  ℕ, Bool, true, false, ◌&&◌, ◌||◌, Option, none, some, List, [], ◌∷◌, ◌==◌, if◌then◌else◌,
}
use heim.Outcome.{ok, err, panic}
use heim.Text.{Str, Bytes}
use heim.Common.Errors.{pos, Result, Error, IoError, raw_os_error}
use heim.Common.Int.{int_eq}
use heim.Runtime.Task.{Task}
use heim.Process.Errors.{
  ProcessResult, access_denied, no_such_process, load, zombie_process, unreadable_peb,
}
use heim.Process.Handle.{UniqueId}
use heim.Process.Windows.{Kernel, is_code}
use heim.Process.Windows.Open.{ProcessHandle, query_limited_info}
use heim.Process.Windows.Open
use heim.Process.Windows.Memory.{Clock, Layout, exit_code}
use heim.Process.Windows.Memory
use heim.Process.Windows.Pids
use heim.Process.Windows.Table.{Entry, traverse}

pub record Process (Time : Type 0) : Type 0 where
  pub pid : ℕ
  pub unique_id : UniqueId Time

-- A request that may run out of fuel; `none` means that it did.
abbrev pub Fueled : Type 0 → Type 0 → Type 0
Fueled S A = Task S (Option (ProcessResult A))

abbrev pub continue : {S A B : Type 0} → (A → Fueled S B) → Option (ProcessResult A) → Fueled S B
continue f none s = (none, s)
continue f (some (ok a)) s = f a s
continue f (some (err e)) s = (some (err e), s)
continue f (some panic) s = (some panic, s)

-- `future.await?`
infixl 5 ◌>>=◌
abbrev pub ◌>>=◌ : {S A B : Type 0} → Fueled S A → (A → Fueled S B) → Fueled S B
◌>>=◌ task f s = let r = task s in continue f r.0 r.1

abbrev pub lift : {S A : Type 0} → Task S (ProcessResult A) → Fueled S A
lift task s = let r = task s in (some r.0, r.1)

abbrev pub done : {S A : Type 0} → ProcessResult A → Fueled S A
done r s = (some r, s)

-- `match future.await`
abbrev pub match_with :
    {S A B : Type 0} → Task S (ProcessResult A) → (ProcessResult A → Fueled S B) → Fueled S B
match_with task f s = let r = task s in f r.0 r.1

-- What the sources take from elsewhere: the boot time of heim-host, the file name of a path as a
-- text, the text of 16-bit characters, the layout of an entry of the table, the last error of the
-- thread, and the constants of the states of threads.
pub record World (S FileTime Time : Type 0) : Type 0 where
  pub boot_time : Task S (ProcessResult Time)
  pub file_name : List ℕ → Option Str
  pub lossy : List ℕ → Str
  pub entry_at : Bytes → Entry FileTime
  pub thread_error : IoError
  pub waiting : ℕ
  pub suspended : ℕ
  -- The capacity that a vector starts with, which is at least 1024.
  pub capacity : ℕ

module _ {S FileTime Time : Type 0} (sys : Kernel S FileTime) (clock : Clock FileTime Time)
    (layout : Layout) (world : World S FileTime Time) (fuel : ℕ) where
  abbrev pub contains : List ℕ → ℕ → Bool
  contains [] pid = false
  contains (p ∷ pids) pid = p == pid || contains pids pid

  abbrev listed : ℕ → Option (Result (List ℕ)) → Option (ProcessResult Bool)
  listed pid none = none
  listed pid (some (ok pids)) = some (ok (contains pids pid))
  listed pid (some (err e)) = some (err (load e))
  listed pid (some panic) = some panic

  abbrev by_code : ℕ → ProcessResult ℕ → Fueled S Bool
  unfolding Pids.pids
  by_code pid (ok code) s =
      if code == sys.still_active
      then (some (ok true), s)
      else let r = Pids.pids sys fuel world.capacity s in (listed pid r.0, r.1)
  by_code pid (err e) s = (some (err e), s)
  by_code pid panic s = (some panic, s)

  abbrev pub by_handle : ℕ → ProcessResult ProcessHandle → Fueled S Bool
  unfolding exit_code by_code
  by_handle pid (ok process) = match_with (exit_code sys clock layout process) (by_code pid)
  by_handle pid (err (no_such_process n)) = done (ok false)
  by_handle pid (err (access_denied n)) = done (ok true)
  by_handle pid (err (zombie_process n)) = done (err (zombie_process n))
  by_handle pid (err (load e)) = done (err (load e))
  by_handle pid (err (unreadable_peb n)) = done (err (unreadable_peb n))
  by_handle pid panic = done panic

  -- `pid_exists`
  unfoldable pub pid_exists : ℕ → Fueled S Bool
  unfolding query_limited_info by_handle
  pid_exists pid =
      if pid == 0 then done (ok true) else match_with (query_limited_info sys pid) (by_handle pid)

  -- The four codes for which the table of processes is searched.
  abbrev is_refusal : Error → Bool
  is_refusal e =
      let raw = raw_os_error e in
      is_code raw sys.eperm
      || is_code raw sys.eacces
      || is_code raw sys.error_access_denied
      || is_code raw sys.error_privilege_not_held

  abbrev pub by_time : ℕ → ProcessResult Time → Fueled S Time
  unfolding traverse
  by_time pid (ok time) = done (ok time)
  by_time pid (err (load e)) =
      if is_refusal e
      then traverse world.entry_at sys clock.into_time fuel pid
      else done (err (load e))
  by_time pid (err (no_such_process n)) = done (err (no_such_process n))
  by_time pid (err (zombie_process n)) = done (err (zombie_process n))
  by_time pid (err (access_denied n)) = done (err (access_denied n))
  by_time pid (err (unreadable_peb n)) = done (err (unreadable_peb n))
  by_time pid panic = done panic

  -- `create_time::get`
  unfoldable pub create_time_of : ℕ → Fueled S Time
  unfolding query_limited_info by_time Memory.create_time
  create_time_of pid = if pid == 0 || pid == 4 then lift world.boot_time else do
    handle ← lift (query_limited_info sys pid)
    match_with (Memory.create_time sys clock layout handle) (by_time pid)

  -- `UniqueId::new` around the number and the time
  abbrev pub process_of : ℕ → Time → ProcessResult (Process Time)
  process_of pid create_time =
      if clock.is_nan create_time
      then panic
      else ok
          (record { pid = pid; unique_id = record { pid = pos pid; create_time = create_time } })

  unfoldable pub get_unchecked : ℕ → Fueled S (Process Time)
  unfolding create_time_of
  get_unchecked pid = do create_time ← create_time_of pid; done (process_of pid create_time)

  -- `get`
  unfoldable pub get : ℕ → Fueled S (Process Time)
  unfolding pid_exists get_unchecked
  get pid = do
    exists ← pid_exists pid
    if exists then get_unchecked pid else done (err (no_such_process (pos pid)))

  -- `current`
  unfoldable pub current : Fueled S (Process Time)
  unfolding get_unchecked
  current s = let r = sys.current_process_id s in get_unchecked r.0 r.1

  unfoldable pub same_process : Process Time → Process Time → Bool
  same_process self other =
      int_eq self.unique_id.pid other.unique_id.pid
      && clock.same self.unique_id.create_time other.unique_id.create_time

  -- `is_running`
  unfoldable pub is_running : Process Time → Fueled S Bool
  unfolding get same_process
  is_running self = do other ← get self.pid; done (ok (same_process other self))
