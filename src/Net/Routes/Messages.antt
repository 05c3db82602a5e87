-- ===== src/Net/Routes/Messages.antt =====
-- What the iterator yields on messages that stand one behind the other.
use mathlib.Core.Option
use mathlib.Core.Path.{ap₂}
use heim.Prelude.{
  ℕ, zero, suc, ◌+◌, ◌/◌, ◌%◌, ◌^◌, ◌≤◌, ◌<◌, ◌≡◌, ◌≢◌, refl, sym, ap, ◌∙◌, inl, inr, arith,
  Bool-cases, if_true, if_false, ==_iff, true, false, none, some, List, [], ◌∷◌, ◌++◌, map,
  append_assoc, append-nil, All, length, length-append, take, drop, drop_left, leb, ltb, ◌==◌,
  if◌then◌else◌,
}
use heim.Outcome.{ok, map_ok}
use heim.Text.{Str, Bytes}
use heim.Common.Errors.{ℤ, IoResult}
use heim.Common.Memory.{take-append_le}
use heim.Net.Routes.{
  IfMsghdr2, Routes, partial_size, hdr2_size, hdr2_of, partial_at, advance, found, next, react,
  collect, counters_of, io_counters, net_pf_route,
}

pub record Message : Type 0 where
  pub ifm_version : ℕ
  pub ifm_type : ℕ
  pub body : Bytes

-- The bytes of a message, with its length in the first two.
abbrev pub frame : Message → Bytes
frame m = let n = length m.body + 4 in n % 256 ∷ n / 256 ∷ m.ifm_version ∷ m.ifm_type ∷ m.body

abbrev pub frames : List Message → Bytes
frames [] = []
frames (m ∷ ms) = frame m ++ frames ms

module _ (rtm_ifinfo2 : ℕ) where
  -- A message has a body and a length that fits 16 bits; one on an interface has the whole struct.
  abbrev pub IsMessage : Message → Type 0
  IsMessage m =
      (0 < length m.body)
      × (length m.body + 4 < 2 ^ 16)
      × (m.ifm_type ≡ rtm_ifinfo2 → hdr2_size ≤ length m.body + 4)

  -- The headers of the messages on interfaces.
  abbrev pub headers : List Message → List IfMsghdr2
  headers [] = []
  headers (m ∷ ms) =
      let rest = headers ms in
      if m.ifm_type == rtm_ifinfo2 then hdr2_of (take hdr2_size (frame m)) ∷ rest else rest

  abbrev at_messages : Bytes → List Message → Routes
  at_messages before ms = record { position = length before; bytes = before ++ frames ms }

  partial_at-messages :
      (before : Bytes) (m : Message) (ms : List Message)
      → IsMessage m
      → ((partial_at (at_messages before (m ∷ ms))).ifm_type ≡ m.ifm_type)
        × ((partial_at (at_messages before (m ∷ ms))).ifm_msglen ≡ length (frame m))
  partial_at-messages before m ms h =
      rw (drop_left before (frames (m ∷ ms))) (omega arith, omega arith)

  advance-messages :
      (before : Bytes) (m : Message) (ms : List Message)
      → IsMessage m
      → advance (at_messages before (m ∷ ms)) ≡ at_messages (before ++ frame m) ms
  advance-messages before m ms h =
      ap₂ (λ position bytes. record { position = position; bytes = bytes })
        (let shift = partial_at-messages before m ms h in
          let total = length-append before (frame m) in omega (arith, shift.1, total))
        (sym (append_assoc before (frame m) (frames ms)))

  inside :
      (before : Bytes) (m : Message) (ms : List Message)
      → length (at_messages before (m ∷ ms)).bytes
        ≡ length before + (length (frame m) + length (frames ms))
  inside before m ms =
      length-append before (frames (m ∷ ms))
      ∙ ap (λ n. length before + n) (length-append (frame m) (frames ms))

  found-messages :
      (before : Bytes) (m : Message) (ms : List Message)
      → IsMessage m
      → m.ifm_type ≡ rtm_ifinfo2
      → found (at_messages before (m ∷ ms))
        ≡ ok (some (hdr2_of (take hdr2_size (frame m)), at_messages (before ++ frame m) ms))
  found-messages before m ms h e =
      let room : leb (length before + hdr2_size) (length (at_messages before (m ∷ ms)).bytes)
          ≡ true =
        ground (arith, inside before m ms, h.2 e) in
      let copy : take hdr2_size (drop (length before) (before ++ frames (m ∷ ms)))
          ≡ take hdr2_size (frame m) =
        ap (take hdr2_size) (drop_left before (frames (m ∷ ms)))
        ∙ take-append_le hdr2_size (frame m) (frames ms) (let whole = h.2 e in omega arith) in
      rw room (
        ap (λ t. ok (some t))
          (ap₂ (λ c self. (hdr2_of c, self)) copy (advance-messages before m ms h)))

  Inside : Routes → Type 0
  Inside self =
      ((self.position == length self.bytes) ≡ false)
      × (ltb (self.position + partial_size) (length self.bytes) ≡ true)

  next-Inside :
      (fuel : ℕ) (self : Routes)
      → Inside self
      → next rtm_ifinfo2 (suc fuel) self ≡ (
          if (partial_at self).ifm_type == rtm_ifinfo2
          then some (found self)
          else next rtm_ifinfo2 fuel (advance self))
  unfolding next Inside
  next-Inside fuel self h = rw (h.0, h.1) refl

  messages-Inside :
      (before : Bytes) (m : Message) (ms : List Message)
      → IsMessage m
      → Inside (at_messages before (m ∷ ms))
  unfolding Inside
  messages-Inside before m ms h = let total = inside before m ms in (ground arith, ground arith)

  next_messages :
      (fuel : ℕ) (before : Bytes) (m : Message) (ms : List Message)
      → IsMessage m
      → next rtm_ifinfo2 (suc fuel) (at_messages before (m ∷ ms)) ≡ (
          if m.ifm_type == rtm_ifinfo2
          then some (found (at_messages before (m ∷ ms)))
          else next rtm_ifinfo2 fuel (at_messages (before ++ frame m) ms))
  next_messages fuel before m ms h =
      next-Inside fuel (at_messages before (m ∷ ms)) (messages-Inside before m ms h)
      ∙ ap₂
          (λ kind self.
            if kind == rtm_ifinfo2
            then some (found (at_messages before (m ∷ ms)))
            else next rtm_ifinfo2 fuel self)
          (partial_at-messages before m ms h).0 (advance-messages before m ms h)

  next_end :
      (fuel : ℕ) (before : Bytes)
      → next rtm_ifinfo2 (suc fuel) (at_messages before []) ≡ some (ok none)
  unfolding next
  next_end fuel before =
      let total = ap length (append-nil before) in
      let done : (length before == length (before ++ [])) ≡ true = ground arith in rw done refl

  -- The rounds that are left over do not matter.
  next_enough :
      (f g : ℕ) (before : Bytes) (ms : List Message)
      → All IsMessage ms
      → length ms < f
      → length ms < g
      → next rtm_ifinfo2 f (at_messages before ms) ≡ next rtm_ifinfo2 g (at_messages before ms)
  next_enough zero g before ms h lf lg = absurd (omega arith)
  next_enough (suc f) zero before ms h lf lg = absurd (omega arith)
  next_enough (suc f) (suc g) before [] h lf lg = next_end f before ∙ sym (next_end g before)
  next_enough (suc f) (suc g) before (m ∷ ms) h lf lg =
      next_messages f before m ms h.0
      ∙ ap
          (λ rest.
            if m.ifm_type == rtm_ifinfo2 then some (found (at_messages before (m ∷ ms))) else rest)
          (next_enough f g (before ++ frame m) ms h.1 (omega arith) (omega arith))
      ∙ sym (next_messages g before m ms h.0)

  collect-next :
      (fuel calls : ℕ) (self other : Routes)
      → next rtm_ifinfo2 fuel self ≡ next rtm_ifinfo2 fuel other
      → collect rtm_ifinfo2 fuel (suc calls) self ≡ collect rtm_ifinfo2 fuel (suc calls) other
  unfolding collect
  collect-next fuel calls self other e = ap (react rtm_ifinfo2 (collect rtm_ifinfo2 fuel calls)) e

  collect-at_messages :
      (fuel calls : ℕ) (before : Bytes) (ms : List Message)
      → All IsMessage ms
      → length ms < fuel
      → length ms < calls
      → collect rtm_ifinfo2 fuel calls (at_messages before ms) ≡ some (ok (headers ms))
  unfolding collect
  collect-at_messages fuel zero before ms h lf lc = absurd (omega arith)
  collect-at_messages zero (suc calls) before ms h lf lc = absurd (omega arith)
  collect-at_messages (suc fuel) (suc calls) before [] h lf lc =
      ap (react rtm_ifinfo2 (collect rtm_ifinfo2 (suc fuel) calls)) (next_end fuel before)
  collect-at_messages (suc fuel) (suc calls) before (m ∷ ms) h lf lc =
      elim (Bool-cases (m.ifm_type == rtm_ifinfo2)) [
        | inl same ↦
            ap (react rtm_ifinfo2 (collect rtm_ifinfo2 (suc fuel) calls)) (
              next_messages fuel before m ms h.0
              ∙ if_true _ _ same
              ∙ ap some (found-messages before m ms h.0 ((==_iff m.ifm_type rtm_ifinfo2).0 same)))
            ∙ ap (Option.map (map_ok (λ hdrs. hdr2_of (take hdr2_size (frame m)) ∷ hdrs))) (
                collect-at_messages (suc fuel) calls (before ++ frame m) ms h.1 (omega arith)
                  (omega arith))
            ∙ sym (ap (λ t. some (ok t)) (if_true _ _ same))
        | inr differs ↦
            collect-next (suc fuel) calls (at_messages before (m ∷ ms))
              (at_messages (before ++ frame m) ms)
              (next_messages fuel before m ms h.0
                ∙ if_false _ _ differs
                ∙ (next_enough fuel (suc fuel) (before ++ frame m) ms h.1 (omega arith)
                    (omega arith)))
            ∙ collect-at_messages (suc fuel) (suc calls) (before ++ frame m) ms h.1 (omega arith)
                (omega arith)
            ∙ sym (ap (λ t. some (ok t)) (if_false _ _ differs))
      ]

  -- If the kernel answers with messages one behind the other, each of them with a body and a length
  -- that fits 16 bits, and those on interfaces with the whole struct, then the counters are those of
  -- the messages on interfaces in their order, with enough rounds and calls.
  pub io_counters-frames :
      (fuel calls length_answer : ℕ) (if_indextoname : ℕ → IoResult Bytes) (lossy : Bytes → Str)
      (name : List ℤ) (ms : List Message)
      → All IsMessage ms
      → length ms < fuel
      → length ms < calls
      → io_counters rtm_ifinfo2 fuel calls if_indextoname lossy
          (net_pf_route name (ok length_answer) (λ _. ok (frames ms)))
        ≡ some (ok (map (counters_of if_indextoname lossy) (headers ms)))
  unfolding io_counters net_pf_route
  io_counters-frames fuel calls length_answer if_indextoname lossy name ms h lf lc =
      ap (Option.map (map_ok (map (counters_of if_indextoname lossy))))
        (collect-at_messages fuel calls [] ms h lf lc)

  -- The iterator never returns from a message of another type that gives its length as zero.
  next_zero_length :
      (fuel : ℕ) (self : Routes)
      → self.position + partial_size < length self.bytes
      → (partial_at self).ifm_type ≢ rtm_ifinfo2
      → (partial_at self).ifm_msglen ≡ 0
      → next rtm_ifinfo2 fuel self ≡ none
  unfolding next
  next_zero_length zero self room other empty = refl
  next_zero_length (suc fuel) self room other empty =
      next-Inside fuel self (unfold Inside in (ground arith, ground arith))
      ∙ if_false {c = (partial_at self).ifm_type == rtm_ifinfo2} _ _
          (let differs = ==_iff (partial_at self).ifm_type rtm_ifinfo2 in ground arith)
      ∙ ap (λ p. next rtm_ifinfo2 fuel (record self { position = p }))
          (let same : self.position + (partial_at self).ifm_msglen ≡ self.position = omega arith in
            same)
      ∙ next_zero_length fuel self room other empty
