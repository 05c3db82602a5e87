-- ===== src/Runtime/Fs.antt =====
-- heim-runtime/src/fs.rs. What the system answers is a parameter, one answer for each path; an
-- opened file is the list of what its line reader yields.
use heim.Prelude.{List, [], ◌∷◌, map, Bool, Option, ◌++◌, if◌then◌else◌}
use heim.Outcome.{Outcome, err, ◌>>=◌, map_err, map_ok}
use heim.Text.{Str, Bytes, codes, starts_with}
use heim.Common.Errors.{IoError, IoResult, simple, invalid_data}

abbrev pub FilePath : Type 0
FilePath = Str

abbrev ends_with_slash : Str → Bool
ends_with_slash [] = Bool.true
ends_with_slash (c ∷ []) = starts_with (c ∷ []) (codes "/")
ends_with_slash (c ∷ d ∷ s) = ends_with_slash (d ∷ s)

-- `Path::join`: an absolute path replaces what is before it.
unfoldable pub join : FilePath → FilePath → FilePath
unfolding starts_with
join p q =
    if starts_with q (codes "/")
    then q
    else if ends_with_slash p
    then p ++ q
    else p ++ (codes "/" ++ q)

-- The name of a directory's entry, as bytes and as a text if it is one.
pub record DirEntry : Type 0 where
  pub file_name : Bytes
  pub name_text : Option Str

-- What the file system answers.
pub record Files : Type 0 where
  pub read_to_string : FilePath → IoResult Str
  pub read : FilePath → IoResult Bytes
  pub open_file : FilePath → IoResult (List (IoResult Str))
  pub read_dir : FilePath → IoResult (List (IoResult DirEntry))
  pub read_link : FilePath → IoResult FilePath
  pub exists : FilePath → Bool

-- The futures are their results here: each makes one request of the system.
module _ {R E F : Type 0} (files : Files) (from_io : IoError → E) (into : F → E)
    (from_str : Str → Outcome F R) where
  -- `read_into`
  abbrev pub read_into : FilePath → Outcome E R
  read_into path = do
    contents ← map_err from_io (files.read_to_string path)
    map_err into (from_str contents)

  parse_line : IoResult Str → Outcome E R
  parse_line try_line = do line ← map_err from_io try_line; map_err into (from_str line)

  -- `read_lines_into`
  pub read_lines_into : FilePath → IoResult (List (Outcome E R))
  unfolding parse_line
  read_lines_into path = map_ok (map parse_line) (files.open_file path)

-- `read_lines`
abbrev pub read_lines : Files → FilePath → IoResult (List (IoResult Str))
read_lines files path = files.open_file path

first_of : List (IoResult Str) → IoResult Str
first_of [] = err (simple invalid_data)
first_of (line ∷ rest) = line

-- `read_first_line`
unfoldable pub read_first_line : Files → FilePath → IoResult Str
unfolding first_of
read_first_line files path = do opened ← read_lines files path; first_of opened
