-- ===== src/Cpu/Freq.antt =====
-- heim-cpu/src/sys/linux/freq.rs. A frequency is its number of hertz in 64 bits, whose operations
-- wrap, as in a release build. The crate glob is a parameter: what it yields for a pattern, or
-- nothing if the pattern is wrong.
pub mod Mean
use heim.Prelude.{
  ℕ, ◌+◌, ◌*◌, ◌/◌, ◌%◌, ◌^◌, Option, none, some, List, [], ◌∷◌, ◌++◌, map, ltb, if◌then◌else◌,
}
use mathlib.Core.Option
use heim.Outcome.{ok, err, panic, ◌>>=◌, map_err}
use heim.Text.{Str, codes, is_whitespace}
use heim.Text.Split.{trim_end}
use heim.Text.Number.{parse_u64}
use heim.Common.Errors.{
  Error, Result, IoResult, simple, invalid_data, from_io, from_parse_int, with_message,
}
use heim.Runtime.Fs.{FilePath, Files, join}

-- `CpuFrequency`; its accessors are the fields.
pub record CpuFrequency : Type 0 where
  pub current : ℕ
  pub min : Option ℕ
  pub max : Option ℕ

-- `CpuFrequency::default`
abbrev pub default : CpuFrequency
default = record { current = 0; min = none; max = none }

-- The match of `add` on two bounds.
unfoldable pub add_bounds : Option ℕ → Option ℕ → Option ℕ
add_bounds (some left) (some right) = some ((left + right) % 2 ^ 64)
add_bounds (some left) none = some left
add_bounds none (some right) = some right
add_bounds none none = none

-- `Add::add`
unfoldable pub add : CpuFrequency → CpuFrequency → CpuFrequency
unfolding add_bounds
add self rhs = record {
  current = (self.current + rhs.current) % 2 ^ 64;
  min = add_bounds self.min rhs.min;
  max = add_bounds self.max rhs.max;
}

abbrev ok_of : {A : Type 0} → Result A → Option A
ok_of (ok a) = some a
ok_of (err e) = none
ok_of panic = none

-- The loop of `frequency`, with the sum and the number of the items so far.
unfoldable pub sum_items : List (Result CpuFrequency) → CpuFrequency → ℕ → Result (CpuFrequency × ℕ)
unfolding add
sum_items [] acc amount = ok (acc, amount)
sum_items (item ∷ items) acc amount = do freq ← item; sum_items items (add acc freq) (amount + 1)

abbrev no_frequencies : Error
no_frequencies =
    with_message (from_io (simple invalid_data))
      (codes "No CPU frequencies was found, running in VM?")

-- What is returned behind the loop.
unfoldable pub mean : CpuFrequency × ℕ → Result CpuFrequency
mean (acc, amount) =
    if ltb 0 amount
    then ok (record {
      current = acc.current / amount;
      min = Option.map (λ value. value / amount) acc.min;
      max = Option.map (λ value. value / amount) acc.max;
    })
    else err no_frequencies

module _ (files : Files) where
  -- `read_freq`
  unfoldable pub read_freq : FilePath → Result ℕ
  read_freq path = do
    contents ← map_err from_io (files.read_to_string path)
    value ← map_err from_parse_int (parse_u64 (trim_end is_whitespace contents))
    ok ((value * 1000) % 2 ^ 64)

  unfoldable pub current_freq : FilePath → Result ℕ
  unfolding read_freq
  current_freq path = read_freq (join path (codes "scaling_cur_freq"))

  unfoldable pub max_freq : FilePath → Option ℕ
  unfolding read_freq
  max_freq path = ok_of (read_freq (join path (codes "scaling_max_freq")))

  unfoldable pub min_freq : FilePath → Option ℕ
  unfolding read_freq
  min_freq path = ok_of (read_freq (join path (codes "scaling_min_freq")))

  -- The closure of `_frequencies`.
  unfoldable pub read_cpu : IoResult FilePath → Result CpuFrequency
  unfolding current_freq max_freq min_freq
  read_cpu try_path = do
    path ← map_err from_io try_path
    current ← current_freq path
    ok (record { current = current; min = min_freq path; max = max_freq path })

  module _ (glob : Str → Option (List (IoResult FilePath))) (sysfs_root : FilePath) where
    abbrev read_cpus : Option (List (IoResult FilePath)) → Result (List (Result CpuFrequency))
    unfolding read_cpu
    read_cpus none = panic
    read_cpus (some entries) = ok (map read_cpu entries)

    -- `_frequencies` and `frequencies`, with what they yield
    unfoldable pub frequencies : Result (List (Result CpuFrequency))
    unfolding read_cpu
    frequencies = read_cpus (glob (join sysfs_root (codes "devices/system/cpu/cpu[0-9]/cpufreq/")))

    -- `frequency`
    unfoldable pub frequency : Result CpuFrequency
    unfolding frequencies sum_items mean
    frequency = do items ← frequencies; sum ← sum_items items default 0; mean sum
