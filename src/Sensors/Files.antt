-- ===== src/Sensors/Files.antt =====
-- heim-sensors/src/sys/linux/temperatures.rs: the files of one sensor. A path is its bytes. `parse`
-- is the parse of an `f32`, as a number of thousandths of a degree.
use heim.Prelude.{◌-◌, Option, none, some, List, [], ◌∷◌, ◌++◌, take, length, ltb, if◌then◌else◌}
use heim.Outcome.{Outcome, ok, err, panic, ◌>>=◌, map_err, map_ok}
use heim.Text.{Str, Bytes, codes, str_eq, is_whitespace}
use heim.Text.Split.{trim_end}
use heim.Common.Errors.{Result, ParseFloatError, from_io, from_parse_float}
use heim.Runtime.Fs.{FilePath, Files, join}
use heim.Process.Command.{pop}

-- `TemperatureSensor`; its accessors are the fields.
pub record TemperatureSensor (Temperature : Type 0) : Type 0 where
  pub unit : Str
  pub label : Option Str
  pub current : Temperature
  pub high : Option Temperature
  pub critical : Option Temperature

-- A file of a directory, which stands for its path: the path's parent and its file name are these.
pub record File : Type 0 where
  pub directory : FilePath
  pub name : Bytes

abbrev pub path_of : File → FilePath
path_of file = join file.directory file.name

-- The name without its end; a slice that ends before the start panics.
unfoldable pub prefix_of : Bytes → Bytes → Result Bytes
prefix_of name postfix =
    if ltb (length name) (length postfix)
    then panic
    else ok (take (length name - length postfix) name)

-- `file_name`
abbrev pub file_name : Bytes → Bytes → Bytes
file_name prefix postfix = prefix ++ postfix

-- `or_else(|_e| future::ok(None))` behind `map_ok(Some)`
abbrev pub optional : {A : Type 0} → Result A → Result (Option A)
optional (ok a) = ok (some a)
optional (err e) = ok none
optional panic = panic

module _ {Temperature : Type 0} (parse : Str → Outcome ParseFloatError Temperature)
    (files : Files) where
  -- A text without its last character, which is the newline.
  abbrev pub read_name : FilePath → Result Str
  read_name path = map_ok pop (map_err from_io (files.read_to_string path))

  -- `read_temperature`
  unfoldable pub read_temperature : FilePath → Result Temperature
  read_temperature path = do
    contents ← map_err from_io (files.read_to_string path)
    map_err from_parse_float (parse (trim_end is_whitespace contents))

  -- `hwmon_sensor`; the five futures of the join answer in turn.
  unfoldable pub hwmon_sensor : File → Result (TemperatureSensor Temperature)
  unfolding read_temperature prefix_of
  hwmon_sensor input = do
    let root = input.directory
    prefix ← prefix_of input.name (codes "input")
    unit ← read_name (join root (codes "name"))
    label ← optional (read_name (join root (file_name prefix (codes "label"))))
    current ← read_temperature (path_of input)
    high ← optional (read_temperature (join root (file_name prefix (codes "max"))))
    critical ← optional (read_temperature (join root (file_name prefix (codes "crit"))))
    ok (record { unit = unit; label = label; current = current; high = high; critical = critical })

  -- The match on the type of a trip point.
  unfoldable pub assign_trip :
      Str → FilePath → TemperatureSensor Temperature → Result (TemperatureSensor Temperature)
  unfolding read_temperature
  assign_trip content temp_path acc =
      if str_eq content (codes "critical\n")
      then map_ok (λ temp. record acc { critical = some temp }) (read_temperature temp_path)
      else if str_eq content (codes "high\n")
      then map_ok (λ temp. record acc { high = some temp }) (read_temperature temp_path)
      else ok acc

  -- The closure of `try_fold`.
  unfoldable pub fold_trip :
      TemperatureSensor Temperature → File → Result (TemperatureSensor Temperature)
  unfolding prefix_of assign_trip
  fold_trip acc entry = do
    prefix ← prefix_of entry.name (codes "type")
    content ← map_err from_io (files.read_to_string (path_of entry))
    assign_trip content (join entry.directory (file_name prefix (codes "temp"))) acc

  -- `try_fold`
  unfoldable pub fold_trips :
      TemperatureSensor Temperature → List (Result File) → Result (TemperatureSensor Temperature)
  unfolding fold_trip
  fold_trips acc [] = ok acc
  fold_trips acc (item ∷ items) = do entry ← item; next ← fold_trip acc entry; fold_trips next items
