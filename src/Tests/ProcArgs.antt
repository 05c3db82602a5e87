-- ===== src/Tests/ProcArgs.antt =====
-- A block of memory of the kernel of macOS at a concrete input: the example of the tests in
-- heim-process/src/sys/macos/wrappers/proc_args.rs, with fewer variables.
use heim.Prelude.{◌≡◌, refl, arith, some, List, [], ◌∷◌, ◌++◌}
use heim.Outcome.{ok, ◌>>=◌}
use heim.Text.{Bytes, codes}
use heim.Memchr.{linear, linear_iter}
use heim.Process.Command.Arguments.{terminated}
use heim.Process.Env.{from_bytes}
use heim.Process.ProcArgs
use heim.Process.ProcArgs.{argc, arguments_range, arguments, environment, collect, to_command}
use heim.Process.ProcArgs.Block.{block, arguments-block, environment-block}

abbrev path : Bytes
path = codes "./process_current"

abbrev options : List Bytes
options = codes "-a" ∷ codes "-b" ∷ codes "--co=2" ∷ []

abbrev variables : Bytes
variables = terminated 0 (codes "TERM=xterm-256color" ∷ codes "PWD=/" ∷ []) ++ 0 ∷ []

abbrev example : Bytes
example = block 4 0 0 0 path 6 path options variables

example_range : arguments_range linear linear_iter example ≡ ok (28, 58)
unfolding arguments_range ProcArgs.arguments_start ProcArgs.arguments_end linear linear_iter
example_range = refl

example_command :
    to_command linear linear_iter example ≡ ok (codes "./process_current -a -b --co=2")
unfolding to_command linear linear_iter
example_command = refl

arguments-block_example :
    (arguments linear linear_iter example >>= (λ it. ok (collect linear linear_iter 5 it)))
    ≡ ok (some (path ∷ options))
arguments-block_example =
    arguments-block linear linear_iter 4 0 0 0 path 6 b'.' (codes "/process_current") options
      variables (omega arith) (omega arith) (omega arith) 4 5 refl refl (omega arith) (omega arith)

environment-block_example :
    (environment linear linear_iter example ≡ ok (from_bytes linear variables))
    × (ProcArgs.exe linear linear_iter example ≡ ok path)
environment-block_example =
    environment-block linear linear_iter 4 0 0 0 path 6 b'.' (codes "/process_current") options
      variables (omega arith) (omega arith) (omega arith) 4 refl refl (omega arith)
