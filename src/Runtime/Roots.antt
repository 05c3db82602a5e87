-- ===== src/Runtime/Roots.antt =====
-- heim-runtime/src/linux.rs: the mount points of procfs and sysfs, each in a cell that is written
-- once. The functions that read or set a root take the state of the two cells and return it.
use heim.Prelude.{Option, none, some, List, [], ◌∷◌, ◌≡◌, refl, arith}
use heim.Text.{codes}
use heim.Runtime.Fs.{FilePath}

pub record Roots : Type 0 where
  pub procfs_cell : Option FilePath
  pub sysfs_cell : Option FilePath

abbrev pub unset : Roots
unset = record { procfs_cell = none; sysfs_cell = none }

-- `OnceCell::get_or_init`
abbrev get_or_init : Option FilePath → FilePath → FilePath
get_or_init none init = init
get_or_init (some p) init = p

unfoldable pub set_procfs_root : FilePath → Roots → Roots
set_procfs_root root r = record r { procfs_cell = some (get_or_init r.procfs_cell root) }

unfoldable pub procfs_root : Roots → FilePath × Roots
procfs_root r =
    let path = get_or_init r.procfs_cell (codes "/proc") in
    (path, record r { procfs_cell = some path })

unfoldable pub set_sysfs_root : FilePath → Roots → Roots
set_sysfs_root root r = record r { sysfs_cell = some (get_or_init r.sysfs_cell root) }

unfoldable pub sysfs_root : Roots → FilePath × Roots
sysfs_root r =
    let path = get_or_init r.sysfs_cell (codes "/sys") in
    (path, record r { sysfs_cell = some path })

-- A call of the module's interface, and a run of such calls.
pub data Call : Type 0 where
  set_procfs : FilePath → Call
  get_procfs : Call
  set_sysfs : FilePath → Call
  get_sysfs : Call

unfoldable pub make_call : Call → Roots → Roots
unfolding set_procfs_root procfs_root set_sysfs_root sysfs_root
make_call (set_procfs root) r = set_procfs_root root r
make_call get_procfs r = (procfs_root r).1
make_call (set_sysfs root) r = set_sysfs_root root r
make_call get_sysfs r = (sysfs_root r).1

unfoldable pub make_calls : List Call → Roots → Roots
unfolding make_call
make_calls [] r = r
make_calls (c ∷ cs) r = make_calls cs (make_call c r)

-- The root of procfs that a list of calls decides on: that of the first call about procfs.
abbrev pub first_procfs : List Call → FilePath
first_procfs [] = codes "/proc"
first_procfs (set_procfs root ∷ cs) = root
first_procfs (get_procfs ∷ cs) = codes "/proc"
first_procfs (set_sysfs _ ∷ cs) = first_procfs cs
first_procfs (get_sysfs ∷ cs) = first_procfs cs

make_calls_set :
    (cs : List Call) (r : Roots) (p : FilePath)
    → r.procfs_cell ≡ some p
    → (procfs_root (make_calls cs r)).0 ≡ p
unfolding make_calls procfs_root
make_calls_set [] r p h = ground arith
make_calls_set (set_procfs root ∷ cs) r p h = make_calls_set cs _ p (ground arith)
make_calls_set (get_procfs ∷ cs) r p h = make_calls_set cs _ p (ground arith)
make_calls_set (set_sysfs root ∷ cs) r p h = make_calls_set cs _ p h
make_calls_set (get_sysfs ∷ cs) r p h = make_calls_set cs _ p h

make_calls_unset :
    (cs : List Call) (r : Roots)
    → r.procfs_cell ≡ none
    → (procfs_root (make_calls cs r)).0 ≡ first_procfs cs
unfolding make_calls procfs_root
make_calls_unset [] r h = ground arith
make_calls_unset (set_procfs root ∷ cs) r h = make_calls_set cs _ root (ground arith)
make_calls_unset (get_procfs ∷ cs) r h = make_calls_set cs _ (codes "/proc") (ground arith)
make_calls_unset (set_sysfs root ∷ cs) r h = make_calls_unset cs _ h
make_calls_unset (get_sysfs ∷ cs) r h = make_calls_unset cs _ h

-- After any calls from the unset state, `procfs_root` returns what the first call about procfs
-- decided: the path that it set, or `/proc` if it was a read or if there was none.
pub procfs_root-make_calls :
    (cs : List Call) → (procfs_root (make_calls cs unset)).0 ≡ first_procfs cs
procfs_root-make_calls cs = make_calls_unset cs unset refl
