-- ===== src/Disk/Volumes.antt =====
-- heim-disk/src/sys/windows: the iterator over the volumes (bindings/volumes.rs), the counters of
-- one (bindings/perf.rs), and their streams (counters.rs). Each search of the system is a function
-- of its state; what it leaves in the buffer is its answer.
pub mod Found
use mathlib.Core.Option
use heim.Prelude.{
  ℕ, zero, suc, ◌+◌, ◌*◌, Bool, true, false, Option, none, some, List, [], ◌∷◌, ◌++◌, ◌||◌,
  if◌then◌else◌,
}
use heim.Outcome.{ok, err, panic, ◌>>=◌, map_err}
use heim.Common.Errors.{ℤ, Result, IoResult, IoError, last_os_error, from_io, io_raw_os_error}
use heim.Common.Int.{int_eq}
use heim.Common.Memory.{before_zero}
use heim.Runtime.Task.{Task}

-- What the source asks of the system: `FindFirstVolumeW` with the handle and the buffer,
-- `FindNextVolumeW` with the buffer.
pub record Search (S H : Type 0) : Type 0 where
  pub find_first : Task S (IoResult (H × List ℕ))
  pub find_next : H → Task S (IoResult (List ℕ))
  pub no_more_files : ℤ

abbrev pub is_code : Option ℤ → ℤ → Bool
is_code none code = false
is_code (some raw) code = int_eq raw code

-- `Volumes`; the buffer is only read behind a search that filled it.
pub record Volumes (H : Type 0) : Type 0 where
  pub handle : Option H

module _ {S H : Type 0} (sys : Search S H) where
  abbrev first_found : Volumes H → IoResult (H × List ℕ) → Result (List ℕ) × Volumes H
  first_found self (ok (handle, buffer)) =
      (ok (before_zero buffer), record { handle = some handle })
  first_found self (err e) = (err (last_os_error e), self)
  first_found self panic = (panic, self)

  -- `Volumes::find_first_volume`
  unfoldable pub find_first_volume : Volumes H → Task S (Result (List ℕ) × Volumes H)
  find_first_volume self s = let r = sys.find_first s in (first_found self r.0, r.1)

  abbrev next_found : IoResult (List ℕ) → Result (Option (List ℕ))
  next_found (ok buffer) = ok (some (before_zero buffer))
  next_found (err e) =
      if is_code (io_raw_os_error e) sys.no_more_files then ok none else err (from_io e)
  next_found panic = panic

  -- `Volumes::find_next_volume`
  unfoldable pub find_next_volume : H → Task S (Result (Option (List ℕ)))
  find_next_volume handle s = let r = sys.find_next handle s in (next_found r.0, r.1)

  abbrev transpose : {A : Type 0} → Result (Option A) → Option (Result A)
  transpose (ok none) = none
  transpose (ok (some a)) = some (ok a)
  transpose (err e) = some (err e)
  transpose panic = some panic

  abbrev next_by : Volumes H → Option H → Task S (Option (Result (List ℕ)) × Volumes H)
  unfolding find_first_volume find_next_volume
  next_by self none s = let r = find_first_volume self s in ((some r.0.0, r.0.1), r.1)
  next_by self (some handle) s = let r = find_next_volume handle s in ((transpose r.0, self), r.1)

  -- `Iterator::next`
  unfoldable pub next : Volumes H → Task S (Option (Result (List ℕ)) × Volumes H)
  unfolding next_by
  next self = next_by self self.handle

-- `DISK_PERFORMANCE`: the fields that the source reads.
pub record DiskPerformance : Type 0 where
  pub bytes_read : ℕ
  pub bytes_written : ℕ
  pub read_time : ℕ
  pub write_time : ℕ
  pub read_count : ℕ
  pub write_count : ℕ

-- `CreateFileW`, `DeviceIoControl` and `CloseHandle` for one path, and the two codes that are
-- ignored.
pub record Device : Type 0 where
  pub create_file : List ℕ → IoResult (Unit {0})
  pub control : List ℕ → IoResult DiskPerformance
  pub close : List ℕ → IoResult (Unit {0})
  pub invalid_function : ℤ
  pub not_supported : ℤ

-- `Vec::pop`
abbrev pub without_last : List ℕ → List ℕ
without_last [] = []
without_last (c ∷ []) = []
without_last (c ∷ d ∷ s) = c ∷ without_last (d ∷ s)

module _ (dev : Device) where
  abbrev performance_of : IoResult DiskPerformance → Result (Option DiskPerformance)
  performance_of (ok perf) = ok (some perf)
  performance_of (err e) =
      let raw = io_raw_os_error e in
      if is_code raw dev.invalid_function || is_code raw dev.not_supported
      then ok none
      else err (from_io e)
  performance_of panic = panic

  -- `disk_performance`
  unfoldable pub disk_performance : List ℕ → Result (Option DiskPerformance)
  disk_performance volume_path = do
    let path = without_last volume_path ++ 0 ∷ []
    _ ← map_err last_os_error (dev.create_file path)
    _ ← map_err last_os_error (dev.close path)
    performance_of (dev.control path)

-- `IoCounters`, with the type of times.
pub record IoCounters (Time : Type 0) : Type 0 where
  pub volume_path : List ℕ
  pub read_count : ℕ
  pub write_count : ℕ
  pub read_bytes : ℕ
  pub write_bytes : ℕ
  pub read_time : Time
  pub write_time : Time

module _ {S H Time : Type 0} (sys : Search S H) (dev : Device) (microseconds : ℕ → Time)
    (filter : List ℕ → Bool) where
  abbrev pub counters_of : List ℕ → DiskPerformance → IoCounters Time
  counters_of path perf = record {
    volume_path = path;
    read_count = perf.read_count;
    write_count = perf.write_count;
    read_bytes = perf.bytes_read;
    write_bytes = perf.bytes_written;
    read_time = microseconds (perf.read_time * 10);
    write_time = microseconds (perf.write_time * 10);
  }

  abbrev pub measured : List ℕ → Result (Option DiskPerformance) → Option (Result (IoCounters Time))
  measured path (ok (some perf)) = some (ok (counters_of path perf))
  measured path (ok none) = none
  measured path (err e) = some (err e)
  measured path panic = some panic

  -- The closure of `inner_stream`
  unfoldable pub counters_for : Result (List ℕ) → Option (Result (IoCounters Time))
  unfolding disk_performance
  counters_for (ok path) = if filter path then measured path (disk_performance dev path) else none
  counters_for (err e) = some (err e)
  counters_for panic = some panic

  abbrev pub push : {A : Type 0} → Option A → List A → List A
  push none rest = rest
  push (some a) rest = a ∷ rest

  -- `inner_stream`, with all that it yields and a number of searches; `none` means that they were
  -- too few.
  unfoldable pub react :
      (Volumes H → Task S (Option (List (Result (IoCounters Time)))))
      → Option (Result (List ℕ))
      → Volumes H
      → Task S (Option (List (Result (IoCounters Time))))
  react go none self s = (some [], s)
  react go (some item) self s =
      let rest = go self s in (Option.map (push (counters_for item)) rest.0, rest.1)

  unfoldable pub inner_stream : ℕ → Volumes H → Task S (Option (List (Result (IoCounters Time))))
  unfolding next counters_for react
  inner_stream zero self s = (none, s)
  inner_stream (suc n) self s = let r = next sys self s in react (inner_stream n) r.0.0 r.0.1 r.1

-- `io_counters` and `io_counters_physical`; `is_fixed` is the test of the type of the drive.
unfoldable pub io_counters :
    {S H Time : Type 0}
    → Search S H
    → Device
    → (ℕ → Time)
    → ℕ
    → Task S (Option (List (Result (IoCounters Time))))
unfolding inner_stream
io_counters sys dev microseconds n =
    inner_stream sys dev microseconds (λ _. true) n (record { handle = none })

unfoldable pub io_counters_physical :
    {S H Time : Type 0}
    → Search S H
    → Device
    → (ℕ → Time)
    → (List ℕ → Bool)
    → ℕ
    → Task S (Option (List (Result (IoCounters Time))))
unfolding inner_stream
io_counters_physical sys dev microseconds is_fixed n =
    inner_stream sys dev microseconds is_fixed n (record { handle = none })
