-- ===== src/Process/ProcArgs/Block.antt =====
-- The arguments are read back from a block in the layout of the kernel.
use mathlib.Core.Path.{ap₂}
use heim.Prelude.{
  ℕ, zero, suc, ◌+◌, ◌-◌, ◌%◌, ◌^◌, ◌<◌, ◌≡◌, ◌≢◌, refl, ap, ◌∙◌, arith, some, List, ◌∷◌, ◌++◌, All,
  Lacks, length, length-append, take, drop, drop_left, drop_past, take_left, drop-add, leb,
  if◌then◌else◌, true,
}
use heim.Outcome.{ok, panic, ◌>>=◌}
use heim.Text.{Bytes}
use heim.Memchr.{Memchr, MemchrIter}
use heim.Process.Env.{from_bytes}
use heim.Process.Command.Arguments.{terminated}
use heim.Process.ProcArgs.Arguments.{joined, terminated-joined, nth-terminated, collect-joined}
use heim.Process.ProcArgs
use heim.Process.ProcArgs.{
  ProcArgsArguments, or_zero, argc, first_nonzero, nth, slice, exe_end, arguments_start,
  arguments_end, arguments_range, arguments, environment, next, collect,
}

abbrev zeros_before : ℕ → Bytes → Bytes
zeros_before zero s = s
zeros_before (suc k) s = 0 ∷ zeros_before k s

first_nonzero-zeros :
    (k x : ℕ) (s : Bytes) → x ≢ 0 → first_nonzero (zeros_before k (x ∷ s)) ≡ some k
unfolding first_nonzero
first_nonzero-zeros zero x s h = ground arith
first_nonzero-zeros (suc k) x s h = rw (first_nonzero-zeros k x s h) refl

drop-zeros : (k : ℕ) (s : Bytes) → drop k (zeros_before k s) ≡ s
drop-zeros zero s = refl
drop-zeros (suc k) s = drop-zeros k s

length-zeros_before : (n : ℕ) (s : Bytes) → length (zeros_before n s) ≡ n + length s
length-zeros_before zero s = omega arith
length-zeros_before (suc n) s = let rest = length-zeros_before n s in omega arith

-- A block in the layout of the kernel: the count in four bytes, the path, the zero bytes behind it,
-- the arguments, and what follows them.
abbrev pub block : ℕ → ℕ → ℕ → ℕ → Bytes → ℕ → Bytes → List Bytes → Bytes → Bytes
block c0 c1 c2 c3 exe k a args rest =
    c0 ∷ c1 ∷ c2 ∷ c3 ∷ exe ++ 0 ∷ zeros_before k (terminated 0 (a ∷ args) ++ rest)

module _ (m : Memchr) (iter : MemchrIter) (c0 c1 c2 c3 : ℕ) (exe : Bytes) (k x : ℕ) (a : Bytes)
    (args : List Bytes) (rest : Bytes) (path : Lacks 0 exe) (shown : x ≢ 0)
    (whole : All (Lacks 0) ((x ∷ a) ∷ args)) where
  open m use {present}

  whole_block : Bytes
  whole_block = block c0 c1 c2 c3 exe k (x ∷ a) args rest

  behind : Bytes
  behind = terminated 0 ((x ∷ a) ∷ args) ++ rest

  exe_end-block : exe_end m iter whole_block ≡ length exe + 4
  unfolding whole_block behind
  exe_end-block = ap (λ n. or_zero n + 4) (present 0 exe (zeros_before k behind) path)

  drop-block : (n : ℕ) → n ≡ length exe + 4 → drop n whole_block ≡ zeros_before (suc k) behind
  unfolding whole_block behind
  drop-block n e =
      drop-add 4 (length exe) n whole_block (omega arith)
      ∙ drop_left exe (zeros_before (suc k) behind)

  start-block : arguments_start m iter whole_block ≡ suc k + (length exe + 4)
  unfolding arguments_start behind
  start-block =
      ap₂ (λ m n. m + n)
        (ap or_zero (
          ap first_nonzero (drop-block (exe_end m iter whole_block) exe_end-block)
          ∙ first_nonzero-zeros (suc k) x (a ++ 0 ∷ terminated 0 args ++ rest) shown))
        exe_end-block

  drop_start-block : (n : ℕ) → n ≡ suc k + (length exe + 4) → drop n whole_block ≡ behind
  drop_start-block n e =
      drop-add (length exe + 4) (suc k) n whole_block (omega arith)
      ∙ ap (drop (suc k)) (drop-block (length exe + 4) refl)
      ∙ drop-zeros (suc k) behind

  behind-joined : behind ≡ joined (x ∷ a) args ++ 0 ∷ rest
  unfolding behind
  behind-joined = terminated-joined (x ∷ a) args rest

  end-block :
      (count : ℕ)
      → count ≡ suc (length args)
      → count < 2 ^ 32
      → arguments_end m iter count whole_block
        ≡ length (joined (x ∷ a) args) + (suc k + (length exe + 4))
  unfolding arguments_end behind
  end-block count e small =
      let before : (count + (2 ^ 64 - 1)) % 2 ^ 64 ≡ length args = omega arith in
      ap₂ (λ m n. m + n)
        (ap or_zero (
          ap₂ (λ n s. nth n (iter.memchr_iter 0 s)) before
            (drop_start-block (arguments_start m iter whole_block) start-block)
          ∙ nth-terminated m iter (x ∷ a) args rest whole))
        start-block

  range-block :
      (count : ℕ)
      → argc whole_block ≡ ok count
      → count ≡ suc (length args)
      → count < 2 ^ 32
      → arguments_range m iter whole_block
        ≡ ok (suc k + (length exe + 4), length (joined (x ∷ a) args) + (suc k + (length exe + 4)))
  unfolding arguments_range
  range-block count c e small =
      ap
        (λ r.
          r >>= (λ n. ok (arguments_start m iter whole_block, arguments_end m iter n whole_block)))
        c
      ∙ ap₂ (λ start end. ok (start, end)) start-block (end-block count e small)

  slice-block :
      slice
        (suc k + (length exe + 4), length (joined (x ∷ a) args) + (suc k + (length exe + 4)))
        whole_block
      ≡ joined (x ∷ a) args
  slice-block =
      ap₂ take (omega arith) (drop_start-block (suc k + (length exe + 4)) refl ∙ behind-joined)
      ∙ take_left (joined (x ∷ a) args) (0 ∷ rest)

  room-block :
      length whole_block
      ≡ 4 + (length exe + (suc k + (length (joined (x ∷ a) args) + suc (length rest))))
  unfolding whole_block behind
  room-block =
      ap (λ n. suc (suc (suc (suc n))))
        (length-append exe (zeros_before (suc k) behind)
          ∙ ap (λ n. length exe + n)
              (length-zeros_before (suc k) behind
                ∙ ap (λ n. suc k + n)
                    (ap length behind-joined ∙ length-append (joined (x ∷ a) args) (0 ∷ rest))))
      ∙ omega arith

  -- The arguments of a block in the layout of the kernel are read back, whatever the path, the zero
  -- bytes behind it and what follows the arguments, if the four bytes hold the number of the
  -- arguments, neither the path nor an argument has a zero byte, the first argument is not empty,
  -- and the iterator is asked often enough.
  pub arguments-block :
      (count fuel : ℕ)
      → argc (block c0 c1 c2 c3 exe k (x ∷ a) args rest) ≡ ok count
      → count ≡ suc (length args)
      → count < 2 ^ 32
      → count < fuel
      → (arguments m iter (block c0 c1 c2 c3 exe k (x ∷ a) args rest)
          >>= (λ it. ok (collect m iter fuel it)))
        ≡ ok (some ((x ∷ a) ∷ args))
  unfolding arguments whole_block
  arguments-block count fuel c e small enough =
      ap
        (λ r. r >>= (λ range. argc whole_block >>= (λ n.
          ok (collect m iter fuel (record { left = n; bytes = slice range whole_block })))))
        (range-block count c e small)
      ∙ ap
          (λ r. r >>= (λ n. ok (
            collect m iter fuel (record {
              left = n;
              bytes =
                  slice
                    (
                      suc k + (length exe + 4),
                      length (joined (x ∷ a) args) + (suc k + (length exe + 4)),
                    )
                    whole_block;
            }))))
          c
      ∙ ap₂ (λ n s. ok (collect m iter fuel (record { left = n; bytes = s }))) e slice-block
      ∙ ap ok (collect-joined m iter (x ∷ a) args fuel whole (omega arith))

  drop_end-block :
      drop (length (joined (x ∷ a) args) + (suc k + (length exe + 4)) + 1) whole_block ≡ rest
  drop_end-block =
      drop-add (suc k + (length exe + 4)) (suc (length (joined (x ∷ a) args))) _ whole_block
        (omega arith)
      ∙ ap (drop (suc (length (joined (x ∷ a) args))))
          (drop_start-block (suc k + (length exe + 4)) refl ∙ behind-joined)
      ∙ drop_past (joined (x ∷ a) args) 0 rest

  room_left :
      leb (length (joined (x ∷ a) args) + (suc k + (length exe + 4)) + 1) (length whole_block)
      ≡ true
  room_left = let total = room-block in ground arith

  exe-block : ProcArgs.exe m iter whole_block ≡ ok exe
  unfolding whole_block behind
  exe-block =
      ap (λ n. ok (take (n - 4) (exe ++ 0 ∷ zeros_before k behind))) exe_end-block
      ∙ ap (λ n. ok (take n (exe ++ 0 ∷ zeros_before k behind))) (omega arith)
      ∙ ap ok (take_left exe (zeros_before (suc k) behind))

  -- Of a block in the layout of the kernel, the path is read back, and the environment is read from
  -- what follows the arguments, if the four bytes hold the number of the arguments, neither the path
  -- nor an argument has a zero byte, and the first argument is not empty.
  pub environment-block :
      (count : ℕ)
      → argc (block c0 c1 c2 c3 exe k (x ∷ a) args rest) ≡ ok count
      → count ≡ suc (length args)
      → count < 2 ^ 32
      → (environment m iter (block c0 c1 c2 c3 exe k (x ∷ a) args rest) ≡ ok (from_bytes m rest))
        × (ProcArgs.exe m iter (block c0 c1 c2 c3 exe k (x ∷ a) args rest) ≡ ok exe)
  unfolding environment whole_block
  environment-block count c e small = (
    ap
          (λ r. r >>= (λ p.
            if leb (p.1 + 1) (length whole_block)
            then ok (from_bytes m (drop (p.1 + 1) whole_block))
            else panic))
          (range-block count c e small)
        ∙ ap₂ (λ t s. if t then ok (from_bytes m s) else panic) room_left drop_end-block,
    exe-block,
  )
