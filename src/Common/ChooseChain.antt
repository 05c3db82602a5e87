-- ===== src/Common/ChooseChain.antt =====
-- heim-common/src/utils/stream.rs and stream/choose_chain.rs: the second stream is used only if
-- the first one yielded nothing. A stream is a state with a poll function.
pub mod Drain
use heim.Prelude.{Bool, true, false, ◌&&◌, Option, none, some, ◌≡◌, refl, arith, if◌then◌else◌}

pub data Poll (A : Type 0) : Type 0 where
  pending : Poll A
  ready : A → Poll A

pub record ChooseChain (S T : Type 0) : Type 0 where
  pub first : Option S
  pub first_yielded : Bool
  pub second : T

module _ {S T : Type 0} where
  -- `ChooseChain::new`, which `HeimStreamExt::choose_chain` calls
  abbrev pub new : S → T → ChooseChain S T
  new s t = record { first = some s; first_yielded = false; second = t }

  -- `FusedStream::is_terminated`, over that of the second stream
  unfoldable pub is_terminated : (T → Bool) → ChooseChain S T → Bool
  is_terminated second_is_terminated c = elim c.first [
    | none ↦ second_is_terminated c.second
    | some s ↦ false
  ]

module _ {S T A : Type 0} (poll_first : S → Poll (Option A) × S)
    (poll_second : T → Poll (Option A) × T) where
  -- The statements behind the first `if`.
  poll_rest : ChooseChain S T → Poll (Option A) × ChooseChain S T
  poll_rest c =
      if c.first_yielded
      then (ready none, record c { first = none })
      else let (p, t) = poll_second c.second in (p, record c { first = none; second = t })

  -- What the poll of the first stream returned, and its state.
  after_first : Poll (Option A) → S → ChooseChain S T → Poll (Option A) × ChooseChain S T
  after_first pending s c = (pending, record c { first = some s })
  after_first (ready (some item)) s c =
      (ready (some item), record c { first = some s; first_yielded = true })
  after_first (ready none) s c = poll_rest c

  unfoldable pub poll_next : ChooseChain S T → Poll (Option A) × ChooseChain S T
  unfolding poll_rest after_first
  poll_next c = elim c.first [
    | none ↦ poll_rest c
    | some s ↦ let (p, s') = poll_first s in after_first p s' c
  ]

  -- Once the first stream has yielded an item, no poll touches the second stream, and the chain
  -- does not forget it.
  poll_next_exclusive :
      (c : ChooseChain S T)
      → c.first_yielded ≡ true
      → ((poll_next c).1.second ≡ c.second) × ((poll_next c).1.first_yielded ≡ true)
  unfolding poll_next
  poll_next_exclusive c h = ground arith

  -- If a terminated second stream is fused, then a terminated chain is too: its poll returns the
  -- end of the stream, and it stays terminated.
  poll_next-is_terminated :
      (second_is_terminated : T → Bool)
      → ((t : T)
          → second_is_terminated t ≡ true
          → ((poll_second t).0 ≡ ready none) × (second_is_terminated (poll_second t).1 ≡ true))
      → (c : ChooseChain S T) → is_terminated second_is_terminated c ≡ true
      → ((poll_next c).0 ≡ ready none) × (is_terminated second_is_terminated (poll_next c).1 ≡ true)
  unfolding poll_next is_terminated
  poll_next-is_terminated ended fused c h = ground (arith, fused c.second)
