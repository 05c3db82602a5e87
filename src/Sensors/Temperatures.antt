-- ===== src/Sensors/Temperatures.antt =====
-- heim-sensors/src/sys/linux/temperatures.rs: the streams of sensors, as what they yield.
use heim.Prelude.{
  map, some, Bool, ◌&&◌, none, List, [], ◌∷◌, ◌++◌, drop, length, ◌-◌, leb, if◌then◌else◌,
}
use heim.Outcome.{Outcome, ok, err, panic, ◌>>=◌}
use heim.Text.{Str, Bytes, codes, starts_with, str_eq}
use heim.Common.Errors.{Result, IoResult, ParseFloatError, from_io}
use heim.Common.ChooseChain.{ChooseChain, new}
use heim.Common.ChooseChain.Drain.{Script}
use heim.Runtime.Fs.{FilePath, Files, DirEntry, join}
use heim.Sensors.Files.{
  TemperatureSensor, File, path_of, read_name, read_temperature, hwmon_sensor, fold_trips,
}

-- `ends_with` on bytes
unfoldable pub ends_with : Bytes → Bytes → Bool
ends_with s postfix =
    leb (length postfix) (length s) && str_eq (drop (length s - length postfix) s) postfix

-- The items of a directory's stream; `try_flatten_stream` yields an error of `read_dir` as one item.
abbrev entries_in : FilePath → IoResult (List (IoResult DirEntry)) → List (Result File)
entries_in path (err e) = err (from_io e) ∷ []
entries_in path panic = panic ∷ []
entries_in path (ok []) = []
entries_in path (ok (ok entry ∷ rest)) =
    ok (record { directory = path; name = entry.file_name }) ∷ entries_in path (ok rest)
entries_in path (ok (err e ∷ rest)) = err (from_io e) ∷ entries_in path (ok rest)
entries_in path (ok (panic ∷ rest)) = panic ∷ entries_in path (ok rest)

-- `try_filter`
unfoldable pub try_filter : {A : Type 0} → (A → Bool) → List (Result A) → List (Result A)
try_filter keep [] = []
try_filter keep (ok a ∷ rest) =
    let rest = try_filter keep rest in if keep a then ok a ∷ rest else rest
try_filter keep (err e ∷ rest) = err e ∷ try_filter keep rest
try_filter keep (panic ∷ rest) = panic ∷ try_filter keep rest

-- `and_then` to a stream, and `try_flatten`
unfoldable pub try_flatten :
    {A B : Type 0} → (A → List (Result B)) → List (Result A) → List (Result B)
try_flatten f [] = []
try_flatten f (ok a ∷ rest) = f a ++ try_flatten f rest
try_flatten f (err e ∷ rest) = err e ∷ try_flatten f rest
try_flatten f (panic ∷ rest) = panic ∷ try_flatten f rest

-- `and_then` to a future
unfoldable pub and_then : {A B : Type 0} → (A → Result B) → List (Result A) → List (Result B)
and_then f [] = []
and_then f (item ∷ rest) = (item >>= f) ∷ and_then f rest

module _ {Temperature : Type 0} (parse : Str → Outcome ParseFloatError Temperature) (files : Files)
    (sysfs_root : FilePath) where
  abbrev entries : FilePath → List (Result File)
  entries path = entries_in path (files.read_dir path)

  is_input : File → Bool
  unfolding ends_with starts_with
  is_input entry = starts_with entry.name (codes "temp") && ends_with entry.name (codes "_input")

  abbrev devices : List (Result File)
  unfolding try_filter starts_with
  devices =
      try_filter (λ entry. starts_with entry.name (codes "hwmon"))
        (entries (join sysfs_root (codes "class/hwmon")))

  -- `hwmon`
  unfoldable pub hwmon : List (Result (TemperatureSensor Temperature))
  unfolding and_then try_flatten try_filter is_input hwmon_sensor starts_with
  hwmon =
      and_then (hwmon_sensor parse files)
        (try_flatten (λ entry. try_filter is_input (entries (path_of entry))) devices)

  -- `hwmon_device`
  unfoldable pub hwmon_device : List (Result (TemperatureSensor Temperature))
  unfolding and_then try_flatten try_filter is_input hwmon_sensor starts_with
  hwmon_device = and_then (hwmon_sensor parse files) (
      try_flatten (λ entry. try_filter is_input (entries (join (path_of entry) (codes "device"))))
        (try_filter (λ entry. files.exists (join (path_of entry) (codes "device"))) devices))

  is_trip_point : File → Bool
  unfolding ends_with starts_with
  is_trip_point entry =
      starts_with entry.name (codes "trip_point_") && ends_with entry.name (codes "type")

  -- The sensor of one thermal zone; the two futures of the join answer in turn.
  unfoldable pub zone_sensor : File → Result (TemperatureSensor Temperature)
  unfolding read_temperature fold_trips try_filter is_trip_point
  zone_sensor entry = do
    let root = path_of entry
    temp ← read_temperature parse files (join root (codes "temp"))
    unit ← read_name parse files (join root (codes "type"))
    fold_trips parse files
        (record { unit = unit; label = none; current = temp; high = none; critical = none })
        (try_filter is_trip_point (entries root))

  -- `thermal_zone`
  unfoldable pub thermal_zone : List (Result (TemperatureSensor Temperature))
  unfolding and_then try_filter zone_sensor starts_with
  thermal_zone = and_then zone_sensor (
      try_filter (λ entry. starts_with entry.name (codes "thermal_zone"))
        (entries (join sysfs_root (codes "class/thermal"))))

  -- `temperatures`: the selection of the two streams of hwmon, by the answers to its polls, and
  -- the thermal zones if it yields nothing.
  unfoldable pub temperatures :
      Script (Result (TemperatureSensor Temperature))
      → ChooseChain
          (Script (Result (TemperatureSensor Temperature)))
          (Script (Result (TemperatureSensor Temperature)))
  unfolding thermal_zone
  temperatures selected = new selected (map some thermal_zone)
