-- ===== src/Common/ChooseChain/Drain.antt =====
-- What a consumer receives from a chain of two streams, each given by the answers to its polls.
use heim.Prelude.{
  ℕ, zero, suc, ◌+◌, ◌<◌, true, false, Option, none, some, List, [], ◌∷◌, ◌≡◌, refl, arith, length,
}
use mathlib.Core.Option
use heim.Common.ChooseChain.{Poll, pending, ready, ChooseChain, new, poll_next}

-- The answers still to come: an item, or that none is ready yet.
abbrev pub Script : Type 0 → Type 0
Script A = List (Option A)

module _ {A : Type 0} where
  abbrev pub poll_script : Script A → Poll (Option A) × Script A
  poll_script [] = (ready none, [])
  poll_script (none ∷ s) = (pending, s)
  poll_script (some a ∷ s) = (ready (some a), s)

  abbrev pub items : Script A → List A
  items [] = []
  items (none ∷ s) = items s
  items (some a ∷ s) = a ∷ items s

  -- Polls until the end of the stream; `none` means that the fuel ran out.
  pub drain : ℕ → ChooseChain (Script A) (Script A) → Option (List A)
  drain zero c = none
  drain (suc n) c =
      let polled = poll_next poll_script poll_script c in
      elim polled.0 [
        | pending ↦ drain n polled.1
        | ready none ↦ some []
        | ready (some a) ↦ Option.map (λ xs. a ∷ xs) (drain n polled.1)
      ]

  -- The first list, or the second one if the first is empty.
  abbrev pub first_filled : List A → List A → List A
  first_filled [] ys = ys
  first_filled (x ∷ xs) ys = x ∷ xs

  drain_second :
      (n : ℕ) (t : Script A)
      → length t < n
      → drain n (record { first = none; first_yielded = false; second = t }) ≡ some (items t)
  unfolding drain poll_next
  drain_second zero t h = elim h [ ]
  drain_second (suc n) [] h = refl
  drain_second (suc n) (none ∷ t) h = drain_second n t (omega arith)
  drain_second (suc n) (some a ∷ t) h = rw (drain_second n t (omega arith))

  drain_yielded :
      (n : ℕ) (s t : Script A)
      → length s < n
      → drain n (record { first = some s; first_yielded = true; second = t }) ≡ some (items s)
  unfolding drain poll_next
  drain_yielded zero s t h = elim h [ ]
  drain_yielded (suc n) [] t h = refl
  drain_yielded (suc n) (none ∷ s) t h = drain_yielded n s t (omega arith)
  drain_yielded (suc n) (some a ∷ s) t h = rw (drain_yielded n s t (omega arith))

  -- With more polls than the two streams have answers, the consumer of a new chain gets all items
  -- of the first stream, or all of the second one if the first has no item, and the stream ends.
  pub drain-new :
      (n : ℕ) (s t : Script A)
      → length s + length t < n
      → drain n (new s t) ≡ some (first_filled (items s) (items t))
  unfolding drain poll_next
  drain-new zero s t h = elim h [ ]
  drain-new (suc n) [] [] h = refl
  drain-new (suc n) [] (none ∷ t) h = drain_second n t (omega arith)
  drain-new (suc n) [] (some a ∷ t) h = rw (drain_second n t (omega arith))
  drain-new (suc n) (none ∷ s) t h = drain-new n s t (omega arith)
  drain-new (suc n) (some a ∷ s) t h = rw (drain_yielded n s t (omega arith))
