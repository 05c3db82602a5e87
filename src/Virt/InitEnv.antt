-- ===== src/Virt/InitEnv.antt =====
-- The container probe that reads the environment of the first process.
use heim.Prelude.{
  false, Option, none, some, List, [], ◌∷◌, ◌++◌, ◌≡◌, ◌≢◌, refl, arith, ◌∙◌, ap, sym, append_assoc,
  All, All-append, Lacks,
}
use heim.Outcome.{ok, err, panic}
use heim.Text.{Str, codes, str_eq}
use heim.Text.Split.{split}
use heim.Text.Laws.{split-append, split_whole}
use heim.Runtime.Fs.{FilePath, Files}
use heim.Virt.Kinds.{Virtualization, Probe}
use heim.Virt.Containers.{try_guess_container, container_of, first_container, detect_init_env}

-- Variables as they stand in /proc/1/environ, each with a NUL behind it, and what follows them.
abbrev pub variables : List (Str × Str) → Str → Str
variables [] rest = rest
variables ((name, value) ∷ vars) rest = name ++ b'=' ∷ (value ++ 0 ∷ variables vars rest)

-- Another variable than `container`.
abbrev pub IsOther : Str × Str → Type 0
IsOther (name, value) =
    Lacks b'=' name × Lacks 0 name × Lacks 0 value × (str_eq name (codes "container") ≡ false)

succeeds : (r : Probe) → r ≢ err tt → r ≢ panic → (v : Virtualization) × (r ≡ ok v)
succeeds (ok v) e p = (v, refl)
succeeds (err e) ne p = absurd (ne refl)
succeeds panic e np = absurd (np refl)

try_guess_container-ne-err : (s : Str) → try_guess_container s ≢ err tt
unfolding try_guess_container
try_guess_container-ne-err s = ground arith

try_guess_container-ne-panic : (s : Str) → try_guess_container s ≢ panic
unfolding try_guess_container
try_guess_container-ne-panic s = ground arith

pub try_guess_container_total : (s : Str) → (v : Virtualization) × (try_guess_container s ≡ ok v)
try_guess_container_total s =
    succeeds (try_guess_container s) (try_guess_container-ne-err s) (try_guess_container-ne-panic s)

container_of-other :
    (name : Str) (parts : List Str)
    → str_eq name (codes "container") ≡ false
    → container_of (name ∷ parts) ≡ none
unfolding container_of
container_of-other name [] other = refl
container_of-other name (value ∷ parts) other = rw other

abbrev or_rest : List Str → Option Virtualization → Probe
or_rest vars o = elim o [ some v ↦ ok v | none ↦ first_container vars ]

first_container_step :
    (var : Str) (vars : List Str)
    → first_container (var ∷ vars) ≡ or_rest vars (container_of (split b'=' var))
unfolding first_container
first_container_step var vars = refl

first_container-other :
    (name value : Str) (vars : List Str)
    → Lacks b'=' name
    → str_eq name (codes "container") ≡ false
    → first_container ((name ++ b'=' ∷ value) ∷ vars) ≡ first_container vars
first_container-other name value vars h other =
    let none_named : container_of (split b'=' (name ++ b'=' ∷ value)) ≡ none =
      ap container_of (split-append b'=' name value h)
      ∙ container_of-other name (split b'=' value) other in
    first_container_step (name ++ b'=' ∷ value) vars ∙ ap (or_rest vars) none_named

first_container-named :
    (value : Str) (vars : List Str)
    → Lacks b'=' value
    → first_container ((codes "container=" ++ value) ∷ vars) ≡ try_guess_container value
first_container-named value vars h =
    let (v, guessed) = try_guess_container_total value in
    let named : container_of (split b'=' (codes "container=" ++ value)) ≡ some v =
      ap container_of (
        split-append b'=' (codes "container") value (omega arith)
        ∙ ap (λ t. codes "container" ∷ t) (split_whole b'=' value h))
      ∙ unfold container_of str_eq in rw guessed in
    first_container_step (codes "container=" ++ value) vars ∙ ap (or_rest vars) named ∙ sym guessed

first_container-variables :
    (vars : List (Str × Str)) (value rest : Str)
    → All IsOther vars
    → Lacks 0 value
    → Lacks b'=' value
    → first_container (split 0 (variables vars (codes "container=" ++ (value ++ 0 ∷ rest))))
      ≡ try_guess_container value
first_container-variables [] value rest h k l =
    ap (λ t. first_container (split 0 t)) (sym (append_assoc (codes "container=") value (0 ∷ rest)))
    ∙ ap first_container (
        split-append 0 (codes "container=" ++ value) rest
          (All-append _ (codes "container=") value (omega arith) k))
    ∙ first_container-named value (split 0 rest) l
first_container-variables ((name, v) ∷ vars) value rest ((eq_free, name_ok, value_ok, other), h) k
      l =
    let tail = variables vars (codes "container=" ++ (value ++ 0 ∷ rest)) in
    ap (λ t. first_container (split 0 t)) (sym (append_assoc name (b'=' ∷ v) (0 ∷ tail)))
    ∙ ap first_container (
        split-append 0 (name ++ b'=' ∷ v) tail
          (All-append _ name (b'=' ∷ v) name_ok (cc, value_ok)))
    ∙ first_container-other name v (split 0 tail) eq_free other
    ∙ first_container-variables vars value rest h k l

-- The value of the first variable named `container` in an environment decides, whatever follows
-- it: the probe returns the kind that the value names, or `unknown`, and no error.
detect_init_env-variables :
    (files : Files) (path : FilePath) (vars : List (Str × Str)) (value rest : Str)
    → All IsOther vars
    → Lacks 0 value
    → Lacks b'=' value
    → files.read_to_string path ≡ ok (variables vars (codes "container=" ++ (value ++ 0 ∷ rest)))
    → (v : Virtualization) × (try_guess_container value ≡ ok v)
      × (detect_init_env files path ≡ ok v)
unfolding detect_init_env
detect_init_env-variables files path vars value rest h k l readable =
    let (v, guessed) = try_guess_container_total value in
    (v, guessed, rw readable (first_container-variables vars value rest h k l ∙ guessed))
