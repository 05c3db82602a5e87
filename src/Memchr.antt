-- ===== src/Memchr.antt =====
-- What heim-process uses of the crate memchr: a search for the first place of a byte.
use heim.Prelude.{
  true, false, inl, inr, Bool-cases, ◌∙◌, ℕ, suc, ◌≡◌, refl, Option, none, some, List, ◌+◌, [], ◌∷◌,
  ◌++◌, arith, Lacks, length, ◌==◌, if◌then◌else◌,
}
use mathlib.Core.Option
use mathlib.Core.Path.{ap₂}
use heim.Text.{Bytes}

pub record Memchr : Type 0 where
  pub memchr : ℕ → Bytes → Option ℕ
  -- There is no place if the byte does not occur.
  pub absent : (b : ℕ) (s : Bytes) → Lacks b s → memchr b s ≡ none
  -- The place found is the first one.
  pub present : (b : ℕ) (s r : Bytes) → Lacks b s → memchr b (s ++ b ∷ r) ≡ some (length s)

-- A search that meets both laws.
find : ℕ → Bytes → Option ℕ
find b [] = none
find b (c ∷ s) = if c == b then some 0 else Option.map suc (find b s)

find_absent : (b : ℕ) (s : Bytes) → Lacks b s → find b s ≡ none
unfolding find
find_absent b [] h = refl
find_absent b (c ∷ s) h = ground (arith, find_absent b s h.1)

find_present : (b : ℕ) (s r : Bytes) → Lacks b s → find b (s ++ b ∷ r) ≡ some (length s)
unfolding find
find_present b [] r h = ground arith
find_present b (c ∷ s) r h = ground (arith, find_present b s r h.1)

unfoldable pub linear : Memchr
unfolding find find_absent find_present
linear = record { memchr = find; absent = find_absent; present = find_present }

-- The places in a text that stands behind so many bytes.
abbrev pub shift : ℕ → List ℕ → List ℕ
shift d [] = []
shift d (n ∷ ns) = (n + d) ∷ shift d ns

-- The iterator over all places of a byte, as what it yields.
pub record MemchrIter : Type 0 where
  pub memchr_iter : ℕ → Bytes → List ℕ
  -- The first place, and then those behind it, as places in the whole text.
  pub present_iter :
      (b : ℕ) (s r : Bytes)
      → Lacks b s
      → memchr_iter b (s ++ b ∷ r) ≡ length s ∷ shift (suc (length s)) (memchr_iter b r)

find_from : ℕ → ℕ → Bytes → List ℕ
find_from i b [] = []
find_from i b (c ∷ s) = let rest = find_from (suc i) b s in if c == b then i ∷ rest else rest

find_from-shift :
    (d i j b : ℕ) (s : Bytes) → j ≡ i + d → find_from j b s ≡ shift d (find_from i b s)
unfolding find_from
find_from-shift d i j b [] e = refl
find_from-shift d i j b (c ∷ s) e =
    let rest = find_from-shift d (suc i) (suc j) b s (omega arith) in
    elim (Bool-cases (c == b)) [
      | inl same ↦ rw same (ap₂ (λ n ns. n ∷ ns) e rest)
      | inr other ↦ rw other rest
    ]

find_from_present :
    (i b : ℕ) (s r : Bytes)
    → Lacks b s
    → find_from i b (s ++ b ∷ r) ≡ (i + length s) ∷ find_from (i + suc (length s)) b r
unfolding find_from
find_from_present i b [] r h =
    let same : (b == b) ≡ true = ground arith in
    rw same (ap₂ (λ m n. m ∷ find_from n b r) (omega arith) (omega arith))
find_from_present i b (c ∷ s) r h =
    let other : (c == b) ≡ false = ground arith in
    rw other (
      find_from_present (suc i) b s r h.1
      ∙ ap₂ (λ m n. m ∷ find_from n b r) (omega arith) (omega arith))

find_from_zero :
    (b : ℕ) (s r : Bytes)
    → Lacks b s
    → find_from 0 b (s ++ b ∷ r) ≡ length s ∷ shift (suc (length s)) (find_from 0 b r)
find_from_zero b s r h =
    find_from_present 0 b s r h
    ∙ ap₂ (λ m ns. m ∷ ns) (omega arith)
        (find_from-shift (suc (length s)) 0 (0 + suc (length s)) b r refl)

unfoldable pub linear_iter : MemchrIter
unfolding find_from find_from_zero find_from_present find_from-shift
linear_iter = record { memchr_iter = find_from 0; present_iter = find_from_zero }
