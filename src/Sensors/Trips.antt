-- ===== src/Sensors/Trips.antt =====
-- What the trip points of a thermal zone add to its sensor.
use heim.Prelude.{
  ◌≡◌, refl, false, Option, some, List, [], ◌∷◌, ◌++◌, map, All, inl, inr, Bool-cases, arith,
  length, length-append, take_left, ◌-◌, ltb, if◌then◌else◌,
}
use heim.Outcome.{Outcome, ok}
use heim.Text.{Str, Bytes, codes, str_eq, str_eq_iff}
use heim.Common.Errors.{Result, ParseFloatError}
use heim.Runtime.Fs.{FilePath, Files, join}
use heim.Sensors.Files.{
  TemperatureSensor, File, prefix_of, read_temperature, assign_trip, fold_trip, fold_trips,
}

pub record Trip (Temperature : Type 0) : Type 0 where
  pub prefix : Bytes
  pub content : Str
  pub temp : Temperature

prefix_of-append : (prefix postfix : Bytes) → prefix_of (prefix ++ postfix) postfix ≡ ok prefix
unfolding prefix_of
prefix_of-append prefix postfix =
    let total = length-append prefix postfix in
    let long : ltb (length (prefix ++ postfix)) (length postfix) ≡ false = ground arith in
    let rest : length (prefix ++ postfix) - length postfix ≡ length prefix = omega arith in
    rw (long) (rw rest (rw (take_left prefix postfix)))

module _ {Temperature : Type 0} (parse : Str → Outcome ParseFloatError Temperature) (files : Files)
    (root : FilePath) where
  -- The files of a trip point: its type, and its temperature.
  abbrev pub IsTrip : Trip Temperature → Type 0
  IsTrip t =
      (files.read_to_string (join root (t.prefix ++ codes "type")) ≡ ok t.content)
      × (read_temperature parse files (join root (t.prefix ++ codes "temp")) ≡ ok t.temp)

  abbrev pub file_of : Trip Temperature → Result File
  file_of t = ok (record { directory = root; name = t.prefix ++ codes "type" })

  -- The temperature of the last trip point of a type, or what was there before.
  abbrev pub last_of : Str → List (Trip Temperature) → Option Temperature → Option Temperature
  last_of kind [] before = before
  last_of kind (t ∷ ts) before =
      last_of kind ts (if str_eq t.content kind then some t.temp else before)

  abbrev pub after :
      List (Trip Temperature) → TemperatureSensor Temperature → TemperatureSensor Temperature
  after ts acc = record acc {
    high = last_of (codes "high\n") ts acc.high;
    critical = last_of (codes "critical\n") ts acc.critical;
  }

  assign_trip-after :
      (t : Trip Temperature) (acc : TemperatureSensor Temperature)
      → read_temperature parse files (join root (t.prefix ++ codes "temp")) ≡ ok t.temp
      → assign_trip parse files t.content (join root (t.prefix ++ codes "temp")) acc
        ≡ ok (after (t ∷ []) acc)
  unfolding assign_trip
  assign_trip-after t acc temp = elim (Bool-cases (str_eq t.content (codes "critical\n"))) [
    | inl critical ↦
        let same : t.content ≡ codes "critical\n" =
          (str_eq_iff t.content (codes "critical\n")).0 critical in
        let not_high : str_eq t.content (codes "high\n") ≡ false =
          rw same (unfold str_eq in refl) in
        rw critical (rw not_high (rw temp))
    | inr other ↦ elim (Bool-cases (str_eq t.content (codes "high\n"))) [
      | inl high ↦ rw other (rw high (rw temp))
      | inr neither ↦ rw other (rw neither)
    ]
  ]

  fold_trip-after :
      (t : Trip Temperature) (acc : TemperatureSensor Temperature)
      → IsTrip t
      → fold_trip parse files acc (record { directory = root; name = t.prefix ++ codes "type" })
        ≡ ok (after (t ∷ []) acc)
  unfolding fold_trip
  fold_trip-after t acc (content, temp) =
      rw (prefix_of-append t.prefix (codes "type")) (rw content (assign_trip-after t acc temp))

  -- The critical and the high temperature of a thermal zone are those of its last trip point of
  -- that type, and stay what they were if it has none, if the type and the temperature of each trip
  -- point can be read. Points of other types are passed over.
  fold_trips-file_of :
      (ts : List (Trip Temperature)) (acc : TemperatureSensor Temperature)
      → All IsTrip ts
      → fold_trips parse files acc (map file_of ts) ≡ ok (after ts acc)
  unfolding fold_trips
  fold_trips-file_of [] acc h = refl
  fold_trips-file_of (t ∷ ts) acc h =
      rw (fold_trip-after t acc h.0) (fold_trips-file_of ts (after (t ∷ []) acc) h.1)
