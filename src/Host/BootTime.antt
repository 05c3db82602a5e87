-- ===== src/Host/BootTime.antt =====
-- heim-host/src/sys/linux/boot_time.rs and uptime.rs. The parse of a floating-point number is a
-- parameter.
use heim.Prelude.{List, [], ◌∷◌, ◌++◌, if◌then◌else◌}
use heim.Outcome.{Outcome, err, map_err}
use heim.Text.{Str, codes, starts_with}
use heim.Text.Split.{lines, splitn}
use heim.Common.Errors.{Result, IoResult, ParseFloatError, from_io, from_parse_float, missing_key}
use heim.Runtime.Fs.{FilePath, join}
use heim.Runtime.Task.{Task, ready, await, ◌>>=◌}

module _ {Time : Type 0} (parse : Str → Outcome ParseFloatError Time) (procfs_root : FilePath) where
  no_btime : Result Time
  no_btime = err (missing_key (codes "btime") (procfs_root ++ codes "/stat"))

  -- The second call of `parts.next`, and what is returned for it.
  abbrev btime_of : List Str → Result Time
  unfolding no_btime
  btime_of [] = no_btime
  btime_of (key ∷ []) = no_btime
  btime_of (key ∷ raw_value ∷ rest) = map_err from_parse_float (parse raw_value)

  -- The loop over the lines.
  unfoldable pub find_btime : List Str → Result Time
  unfolding no_btime
  find_btime [] = no_btime
  find_btime (line ∷ lines) =
      let rest = find_btime lines in
      if starts_with line (codes "btime ") then btime_of (splitn 2 b' ' line) else rest

  abbrev first_part : List Str → Result Time
  first_part [] = err (missing_key (codes "uptime") (procfs_root ++ codes "/uptime"))
  first_part (raw_value ∷ rest) = map_err from_parse_float (parse raw_value)

  module _ {S : Type 0} (read_to_string : FilePath → Task S (IoResult Str)) where
    -- `boot_time`
    unfoldable pub boot_time : Task S (Result Time)
    unfolding find_btime
    boot_time = do
      contents ←
          await (read_to_string (join procfs_root (codes "stat"))) (λ r. ready (map_err from_io r))
      ready (find_btime (lines contents))

    -- `uptime`
    unfoldable pub uptime : Task S (Result Time)
    unfolding splitn
    uptime = do
      contents ←
          await (read_to_string (join procfs_root (codes "uptime")))
            (λ r. ready (map_err from_io r))
      ready (first_part (splitn 2 b' ' contents))
