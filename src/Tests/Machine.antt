-- ===== src/Tests/Machine.antt =====
-- A file system that is a list of paths and texts.
use heim.Prelude.{false, List, [], ◌∷◌, map, if◌then◌else◌}
use heim.Outcome.{ok, err, map_ok}
use heim.Text.{Str, as_bytes, str_eq}
use heim.Text.Split.{lines}
use heim.Common.Errors.{IoResult, simple, not_found}
use heim.Runtime.Fs.{FilePath, Files}

abbrev pub Texts : Type 0
Texts = List (FilePath × Str)

unfoldable pub lookup : Texts → FilePath → IoResult Str
lookup [] path = err (simple not_found)
lookup (t ∷ ts) path = if str_eq t.0 path then ok t.1 else lookup ts path

abbrev pub files_of : Texts → Files
files_of ts = record {
  read_to_string = lookup ts;
  read = λ path. map_ok as_bytes (lookup ts path);
  open_file = λ path. map_ok (λ s. map ok (lines s)) (lookup ts path);
  read_dir = λ path. err (simple not_found);
  read_link = λ path. err (simple not_found);
  exists = λ path. false;
}
