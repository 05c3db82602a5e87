-- ===== src/Cpu/Processors/Growth.antt =====
-- A second round for a greater number of bytes.
use heim.Prelude.{
  ℕ, suc, ◌+◌, ◌-◌, ◌≤◌, ◌<◌, ◌≡◌, ap, ◌∙◌, arith, Option, some, ltb, if_true, if_false,
}
use heim.Outcome.{panic}
use heim.Common.Errors.{Result, os}
use heim.Common.Int.{int_eq_refl}
use heim.Common.Memory.{IsReserve}
use heim.Cpu.Processors.{Query, LogicalProcessors, Answer, failed, fill, react, get}

module _ {S : Type 0} (sys : Query S) where
  fill_round :
      (fuel capacity size c : ℕ) (s t : S) (answer : Answer)
      → capacity ≤ size
      → sys.reserve capacity 0 (size - capacity) ≡ c
      → size ≤ c
      → sys.query size s ≡ (answer, t)
      → fill sys (suc fuel) capacity size s ≡ react sys (fill sys fuel c) answer t
  unfolding fill
  fill_round fuel capacity size c s t answer h e room q =
      rw (e, q)
        (if_false {c = ltb size capacity} _ _ (ground arith)
          ∙ if_false {c = ltb c size} _ _ (ground arith))

  fill_overrun :
      (fuel capacity size : ℕ) (s : S)
      → capacity < size
      → sys.reserve capacity 0 (size - capacity) ≡ capacity
      → fill sys (suc fuel) capacity size s ≡ (some panic, s)
  unfolding fill
  fill_overrun fuel capacity size s h e = rw e (
      if_false {c = ltb size capacity} _ _ (ground arith)
      ∙ if_true {c = ltb capacity size} _ _ (ground arith))

  -- If the system needs more bytes in the second round than the vector has, but no more than twice
  -- as many, then `reserve` leaves the vector as it is, since it has room for so many items as the
  -- argument says beyond its length, which is zero, and the call is told of more bytes than the
  -- vector has.
  pub get_overrun :
      (fuel size capacity size' : ℕ) (s t u : S)
      → IsReserve sys.reserve
      → sys.needed s ≡ (size, t)
      → sys.reserve 0 0 (size - 0) ≡ capacity
      → sys.query size t ≡ (failed (os sys.insufficient_buffer) size', u)
      → capacity < size'
      → size' ≤ capacity + capacity
      → (get sys (suc (suc fuel)) s).0 ≡ some panic
  unfolding get
  get_overrun fuel size capacity size' s t u law needed first query more twice =
      let room = (law 0 0 (size - 0)).0 in
      let kept = (law capacity 0 (size' - capacity)).1 (omega arith) in
      let overrun : fill sys (suc (suc fuel)) 0 size t ≡ (some panic, u) =
        fill_round (suc fuel) 0 size capacity t u (failed (os sys.insufficient_buffer) size')
          (omega arith) first (omega arith) query
        ∙ if_true _ _ (int_eq_refl sys.insufficient_buffer)
        ∙ fill_overrun fuel capacity size' u more kept in
      rw needed (ap (λ (r : Option (Result LogicalProcessors) × S). r.0) overrun)
