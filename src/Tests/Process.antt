-- ===== src/Tests/Process.antt =====
-- heim-process at concrete inputs.
use heim.Prelude.{◌≡◌, refl, some, List, [], ◌∷◌, ◌++◌, arith, inr}
use heim.Outcome.{ok}
use heim.Common.Errors.{pos}
use heim.Process.Stat.{sleeping, from_str}
use heim.Process.Stat.Layout.{stat_line}
use heim.Process.Stat.RoundTrip.{stat_of, from_str-stat_line}
use heim.Text.{Bytes, codes}
use heim.Tests.Fields.{fields_at, fields_at-IsFields}
use heim.Memchr.{linear}
use heim.Process.Env.{Environment, from_bytes}
use heim.Process.Env.RoundTrip.{block, from_bytes_total, from_bytes-block}
use heim.Process.Command.{null, from, into_iter, collect, to_os_string, into_os_string}
use heim.Process.Command.Arguments.{terminated, collect-terminated, collect_unterminated}
use heim.Process.Command.Join.{joined, to_os_string-terminated}

abbrev variables : List (Bytes × Bytes)
variables = (codes "HOME", codes "/home/user") ∷ (codes "PROFILEHOME", []) ∷ []

from_bytes_runs : from_bytes linear (block variables) ≡ some (record { pairs = variables })
unfolding from_bytes linear
from_bytes_runs = refl

from_bytes-block_example :
    from_bytes linear (block variables ++ 0 ∷ 0 ∷ []) ≡ some (record { pairs = variables })
unfolding linear
from_bytes-block_example = from_bytes-block linear variables (0 ∷ 0 ∷ []) (omega arith) (inr refl)

from_bytes_total_example : (e : Environment) × (from_bytes linear (codes "A=1") ≡ some e)
from_bytes_total_example = from_bytes_total linear (codes "A=1")

abbrev ntpd : List Bytes
ntpd = codes "/usr/bin/ntpd" ∷ codes "-g" ∷ codes "ntp:ntp" ∷ []

collect-terminated_example : collect linear 4 (into_iter (from (terminated 0 ntpd))) ≡ some ntpd
collect-terminated_example = collect-terminated linear null ntpd 4 (omega arith) (omega arith)

collect_unterminated_example : collect linear 1 (into_iter (from (codes "nginx: master"))) ≡ some []
collect_unterminated_example =
    collect_unterminated linear [] (codes "nginx: maste") b'r' 1 tt (omega arith) (omega arith)
      (omega arith) (omega arith)

to_os_string-terminated_example :
    (to_os_string (from (terminated 0 ntpd)) ≡ joined ntpd)
    × (into_os_string (from (terminated 0 ntpd)) ≡ joined ntpd)
to_os_string-terminated_example =
    to_os_string-terminated (codes "/usr/bin/ntpd") (codes "-g" ∷ codes "ntp:ntp" ∷ [])
      (omega arith)

from_str-stat_line_example :
    from_str
      (λ ticks. ticks)
      (stat_line (pos 7) (codes "a) b (c") sleeping (fields_at 900) (codes "0 0\n"))
    ≡ ok (stat_of (λ ticks. ticks) (pos 7) (codes "a) b (c") sleeping (fields_at 900))
from_str-stat_line_example =
    from_str-stat_line (λ ticks. ticks) (pos 7) (codes "a) b (c") sleeping (fields_at 900)
      (codes "0 0\n") (omega arith) (fields_at-IsFields 900 (omega arith)) (omega arith)
