-- ===== src/Process/Command/Arguments.antt =====
-- The iterator yields the arguments that the delimiter ends.
use mathlib.Core.Option
use heim.Prelude.{
  ℕ, zero, suc, ◌+◌, ◌<◌, ◌≡◌, ◌≢◌, refl, sym, ap, ◌∙◌, false, Option, none, some, List, [], ◌∷◌,
  ◌++◌, append_assoc, append-nil, arith, All, Lacks, length, drop, drop_past, take_left, drop-add,
  drop_le, append_cons-ne-nil, leb, inl, inr, Bool-cases,
}
use heim.Text.{Bytes}
use heim.Memchr.{Memchr}
use heim.Process.Command.{
  Delimiter, null, space, as_char, from_raw, last, from, CommandIter, into_iter, next, collect,
}

-- How arguments stand in `cmdline`: the delimiter behind each.
abbrev pub terminated : ℕ → List Bytes → Bytes
terminated d [] = []
terminated d (a ∷ rest) = a ++ d ∷ terminated d rest

before_end :
    (line : Bytes) (position : ℕ) → drop position line ≢ [] → leb (length line) position ≡ false
before_end line position ne = elim (Bool-cases (leb (length line) position)) [
  | inl out ↦ absurd (ne (drop_le position line (ground arith)))
  | inr inside ↦ inside
]

module _ (m : Memchr) where
  open m use {memchr, absent, present}

  next_argument :
      (line a rest : Bytes) (delimiter : Delimiter) (position : ℕ)
      → drop position line ≡ a ++ as_char delimiter ∷ rest
      → Lacks (as_char delimiter) a
      → next m (record { line = line; delimiter = delimiter; position = position }) ≡ (
        some a,
        record { line = line; delimiter = delimiter; position = position + (length a + 1) },
      )
  unfolding next
  next_argument line a rest delimiter position e h =
      let d = as_char delimiter in
      let inside : leb (length line) position ≡ false =
        before_end line position (λ z. append_cons-ne-nil a d rest (sym e ∙ z)) in
      let found : memchr d (drop position line) ≡ some (length a) =
        ap (memchr d) e ∙ present d a rest h in
      rw (inside, next) (rw found (rw (e, take_left)))

  next_end :
      (line rest : Bytes) (delimiter : Delimiter) (position : ℕ)
      → drop position line ≡ rest
      → Lacks (as_char delimiter) rest
      → (next m (record { line = line; delimiter = delimiter; position = position })).0 ≡ none
  unfolding next
  next_end line rest delimiter position e h = elim (Bool-cases (leb (length line) position)) [
    | inl out ↦ rw (out, next)
    | inr inside ↦
        rw (inside, next)
          (rw (ap (memchr (as_char delimiter)) e ∙ absent (as_char delimiter) rest h))
  ]

  collect_step :
      (fuel : ℕ) (it after : CommandIter) (item : Bytes)
      → next m it ≡ (some item, after)
      → collect m (suc fuel) it ≡ Option.map (λ items. item ∷ items) (collect m fuel after)
  collect_step fuel it after item e =
      unfold collect in
      rw (ap (λ (r : Option Bytes × CommandIter). r.0) e, collect)
        (rw (ap (λ (r : Option Bytes × CommandIter). r.1) e))

  collect_end :
      (fuel : ℕ) (it : CommandIter) → (next m it).0 ≡ none → collect m (suc fuel) it ≡ some []
  collect_end fuel it e = unfold collect in rw (e, collect)

  collect_arguments :
      (args : List Bytes) (fuel : ℕ) (line rest : Bytes) (delimiter : Delimiter) (position : ℕ)
      → drop position line ≡ terminated (as_char delimiter) args ++ rest
      → All (Lacks (as_char delimiter)) args
      → Lacks (as_char delimiter) rest
      → length args < fuel
      → collect m fuel (record { line = line; delimiter = delimiter; position = position })
        ≡ some args
  collect_arguments args zero line rest delimiter position e h k lt = elim lt [ ]
  collect_arguments [] (suc fuel) line rest delimiter position e h k lt =
      collect_end fuel _ (next_end line rest delimiter position e k)
  collect_arguments (a ∷ args) (suc fuel) line rest delimiter position e (ha, h) k lt =
      let d = as_char delimiter in
      let here : drop position line ≡ a ++ d ∷ (terminated d args ++ rest) =
        e ∙ append_assoc a (d ∷ terminated d args) rest in
      let moved : drop (position + (length a + 1)) line ≡ terminated d args ++ rest =
        drop-add position (suc (length a)) (position + (length a + 1)) line (omega arith)
        ∙ ap (drop (suc (length a))) here
        ∙ drop_past a d (terminated d args ++ rest) in
      collect_step fuel _ _ a
        (next_argument line a (terminated d args ++ rest) delimiter position here ha)
      ∙ rw (
          collect_arguments args fuel line rest delimiter (position + (length a + 1)) moved h k
            (omega arith))

from_raw-as_char : (d : Delimiter) → from_raw (as_char d) ≡ d
unfolding from_raw
from_raw-as_char null = refl
from_raw-as_char space = refl

pub from_raw_other : (b : ℕ) → b ≢ 0 → b ≢ b' ' → from_raw b ≡ null
unfolding from_raw
from_raw_other b nul blank = ground arith

pub last-concat : (s : Bytes) (b : ℕ) → last (s ++ b ∷ []) ≡ some b
unfolding last
last-concat [] b = refl
last-concat (c ∷ []) b = refl
last-concat (c ∷ d ∷ s) b = last-concat (d ∷ s) b

last-append : (s : Bytes) (b : ℕ) (t : Bytes) → last (s ++ b ∷ t) ≡ last (b ∷ t)
unfolding last
last-append [] b t = refl
last-append (c ∷ []) b t = refl
last-append (c ∷ e ∷ s) b t = last-append (e ∷ s) b t

last-cons : (c : ℕ) (t : Bytes) {b : ℕ} → last t ≡ some b → last (c ∷ t) ≡ some b
unfolding last
last-cons c [] e = cc
last-cons c (d ∷ t) e = e

pub last-terminated :
    (d : ℕ) (a : Bytes) (args : List Bytes) → last (terminated d (a ∷ args)) ≡ some d
last-terminated d a [] = last-concat a d
last-terminated d a (b ∷ args) =
    last-append a d (terminated d (b ∷ args))
    ∙ last-cons d (terminated d (b ∷ args)) (last-terminated d b args)

-- A command line in which one delimiter ends each argument is taken apart into those arguments, if
-- none of them holds the delimiter and the consumer may ask once more than there are arguments.
pub collect-terminated :
    (m : Memchr) (d : Delimiter) (args : List Bytes) (fuel : ℕ)
    → All (Lacks (as_char d)) args
    → length args < fuel
    → collect m fuel (into_iter (from (terminated (as_char d) args))) ≡ some args
unfolding from
collect-terminated m d [] fuel h lt = collect_arguments m [] fuel [] [] null 0 refl tt tt lt
collect-terminated m d (a ∷ args) fuel h lt =
    rw (last-terminated (as_char d) a args, from_raw-as_char)
      (collect_arguments m (a ∷ args) fuel _ [] d 0 (sym (append-nil _)) h tt lt)

-- Let a command line be arguments without a NUL, a NUL behind each, and then a text without a NUL
-- that is not empty and does not end in a space. The iterator yields the arguments and ends: it
-- never yields the text behind the last NUL.
pub collect_unterminated :
    (m : Memchr) (args : List Bytes) (rest : Bytes) (b fuel : ℕ)
    → All (Lacks 0) args
    → Lacks 0 (rest ++ b ∷ [])
    → b ≢ 0
    → b ≢ b' '
    → length args < fuel
    → collect m fuel (into_iter (from (terminated 0 args ++ (rest ++ b ∷ [])))) ≡ some args
unfolding from
collect_unterminated m args rest b fuel h k nul blank lt =
    rw (← append_assoc (terminated 0 args) rest (b ∷ [])) (
      rw (last-concat (terminated 0 args ++ rest) b) (
        rw (from_raw_other b nul blank) (
          collect_arguments m args fuel _ (rest ++ b ∷ []) null 0
            (append_assoc (terminated 0 args) rest (b ∷ [])) h k lt)))

-- `next` on a fresh iterator
pub first_argument :
    (m : Memchr) (a : Bytes) (args : List Bytes)
    → Lacks 0 a
    → (next m (into_iter (from (terminated 0 (a ∷ args))))).0 ≡ some a
unfolding from
first_argument m a args h = rw (last-terminated 0 a args) (
    ap (λ r. r.0)
      (next_argument m (a ++ 0 ∷ terminated 0 args) a (terminated 0 args) null 0 refl h))
