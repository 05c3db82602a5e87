-- ===== src/Process/ProcArgs/Arguments.antt =====
-- The iterator over the arguments on arguments with a zero byte between each two.
use mathlib.Core.Option
use heim.Prelude.{
  ℕ, zero, suc, ◌+◌, ◌-◌, ◌<◌, ◌≡◌, refl, sym, ap, ◌∙◌, arith, none, some, List, [], ◌∷◌, ◌++◌,
  append_assoc, All, Lacks, length, length-append, drop_past, take_left, ◌==◌, false,
}
use heim.Text.{Bytes}
use heim.Memchr.{Memchr, MemchrIter, shift}
use heim.Process.Command.Arguments.{terminated}
use heim.Process.ProcArgs.{ProcArgsArguments, nth, next, collect}

-- The arguments with a zero byte between each two.
abbrev pub joined : Bytes → List Bytes → Bytes
joined a [] = a
joined a (b ∷ args) = a ++ 0 ∷ joined b args

pub terminated-joined :
    (a : Bytes) (args : List Bytes) (rest : Bytes)
    → terminated 0 (a ∷ args) ++ rest ≡ joined a args ++ 0 ∷ rest
terminated-joined a [] rest = append_assoc a (0 ∷ []) rest
terminated-joined a (b ∷ args) rest =
    append_assoc a (0 ∷ terminated 0 (b ∷ args)) rest
    ∙ ap (λ t. a ++ 0 ∷ t) (terminated-joined b args rest)
    ∙ sym (append_assoc a (0 ∷ joined b args) (0 ∷ rest))

nth-shift : (d k : ℕ) (ns : List ℕ) → nth k (shift d ns) ≡ Option.map (λ n. n + d) (nth k ns)
nth-shift d k [] = refl
nth-shift d zero (n ∷ ns) = refl
nth-shift d (suc k) (n ∷ ns) = nth-shift d k ns

module _ (m : Memchr) (iter : MemchrIter) where
  open m use {memchr, absent, present}
  open iter use {memchr_iter, present_iter}

  -- The last of the zero bytes that end the arguments stands behind them.
  pub nth-terminated :
      (a : Bytes) (args : List Bytes) (rest : Bytes)
      → All (Lacks 0) (a ∷ args)
      → nth (length args) (memchr_iter 0 (terminated 0 (a ∷ args) ++ rest))
        ≡ some (length (joined a args))
  nth-terminated a [] rest h =
      ap (λ t. nth 0 (memchr_iter 0 t)) (append_assoc a (0 ∷ []) rest)
      ∙ ap (nth 0) (present_iter 0 a rest h.0)
  nth-terminated a (b ∷ args) rest h =
      ap (λ t. nth (suc (length args)) (memchr_iter 0 t))
        (append_assoc a (0 ∷ terminated 0 (b ∷ args)) rest)
      ∙ ap (nth (suc (length args))) (present_iter 0 a (terminated 0 (b ∷ args) ++ rest) h.0)
      ∙ nth-shift (suc (length a)) (length args) (memchr_iter 0 (terminated 0 (b ∷ args) ++ rest))
      ∙ ap (Option.map (λ n. n + suc (length a))) (nth-terminated b args rest h.1)
      ∙ ap some (let total = length-append a (0 ∷ joined b args) in omega arith)

  next-last :
      (n : ℕ) (a : Bytes)
      → Lacks 0 a
      → next m iter (record { left = suc n; bytes = a }) ≡ (some a, record { left = n; bytes = a })
  unfolding next
  next-last n a h =
      let less : suc n - 1 ≡ n = omega arith in
      let some_left : (suc n == 0) ≡ false = ground arith in rw (some_left, absent 0 a h, less) refl

  next-item :
      (n : ℕ) (a s : Bytes)
      → Lacks 0 a
      → next m iter (record { left = suc n; bytes = a ++ 0 ∷ s })
        ≡ (some a, record { left = n; bytes = s })
  unfolding next
  next-item n a s h =
      let less : suc n - 1 ≡ n = omega arith in
      let some_left : (suc n == 0) ≡ false = ground arith in
      rw (some_left, present 0 a s h, less, take_left a (0 ∷ s), drop_past a 0 s) refl

  collect-next :
      (fuel : ℕ) (it it' : ProcArgsArguments) (item : Bytes)
      → next m iter it ≡ (some item, it')
      → collect m iter (suc fuel) it ≡ Option.map (λ items. item ∷ items) (collect m iter fuel it')
  unfolding collect
  collect-next fuel it it' item e =
      ap
        (λ p. elim p.0 [
          | none ↦ some []
          | some x ↦ Option.map (λ items. x ∷ items) (collect m iter fuel p.1)
        ])
        e

  collect-done :
      (fuel : ℕ) (s : Bytes) → collect m iter (suc fuel) (record { left = 0; bytes = s }) ≡ some []
  unfolding collect next
  collect-done fuel s = refl

  -- The iterator on the arguments, with as many left as there are.
  pub collect-joined :
      (a : Bytes) (args : List Bytes) (fuel : ℕ)
      → All (Lacks 0) (a ∷ args)
      → suc (length args) < fuel
      → collect m iter fuel (record { left = suc (length args); bytes = joined a args })
        ≡ some (a ∷ args)
  collect-joined a args zero h lt = absurd (omega arith)
  collect-joined a [] (suc zero) h lt = absurd (omega arith)
  collect-joined a [] (suc (suc fuel)) h lt =
      collect-next (suc fuel) _ _ a (next-last 0 a h.0)
      ∙ ap (Option.map (λ items. a ∷ items)) (collect-done fuel a)
  collect-joined a (b ∷ args) (suc fuel) h lt =
      collect-next fuel _ _ a (next-item (suc (length args)) a (joined b args) h.0)
      ∙ ap (Option.map (λ items. a ∷ items)) (collect-joined b args fuel h.1 (omega arith))
