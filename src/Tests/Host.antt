-- ===== src/Tests/Host.antt =====
-- heim-host at concrete inputs.
use heim.Prelude.{◌≡◌, refl, arith, some, [], ◌∷◌, ◌++◌}
use heim.Text.{codes}
use heim.Common.Errors.{pos}
use heim.Host.Users.{Utmpx, v4, from_ut_addr_v6, from}
use heim.Host.Users.Fields.{word, from-ut_id, from_ut_addr_v6-word}

abbrev login : Utmpx
login = record {
  ut_type = pos 7;
  ut_pid = pos 812;
  ut_line = codes "pts/0" ++ 0 ∷ 0 ∷ [];
  ut_id = codes "ts/0";
  ut_user = codes "root" ++ 0 ∷ 0 ∷ [];
  ut_host = codes "10.0.0.1" ++ 0 ∷ [];
  behind = [];
  ut_session = pos 0;
  ut_addr_v6 = record { w0 = word 192 168 0 1; w1 = 0; w2 = 0; w3 = 0 };
}

from-ut_id_example :
    ((from (λ s. s) login).id ≡ codes "ts/0root") × ((from (λ s. s) login).username ≡ codes "root")
from-ut_id_example =
    from-ut_id (λ s. s) login (codes "root") (0 ∷ []) (omega arith) (omega arith) refl

from_ut_addr_v6-word_example :
    from_ut_addr_v6 (record { w0 = word 192 168 0 1; w1 = 0; w2 = 0; w3 = 0 })
    ≡ some (v4 (1 ∷ 0 ∷ 168 ∷ 192 ∷ []))
from_ut_addr_v6-word_example =
    from_ut_addr_v6-word 192 168 0 1 (omega arith) (omega arith) (omega arith) (omega arith)
      (omega arith)
