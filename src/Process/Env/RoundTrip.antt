-- ===== src/Process/Env/RoundTrip.antt =====
-- The loop ends on all input, and reads back what an environment looks like in memory.
use heim.Prelude.{
  ℕ, zero, suc, ◌≤◌, ◌<◌, ◌≡◌, ◌⊎◌, inl, inr, ap, ◌∙◌, none, some, List, [], ◌∷◌, ◌++◌,
  append_assoc, append-nil, arith, All, All-append, Lacks, length, length-append, take, drop,
  drop_past, take_left, length-drop_le, false, ◌==◌, Bool-cases, Option-cases,
}
use heim.Text.{Bytes}
use heim.Memchr.{Memchr}
use heim.Process.Env.{Environment, split_pair, push_pair, parse, from_bytes}

-- How an entry stands in memory.
abbrev pub entry : Bytes × Bytes → Bytes
entry (key, value) = key ++ (b'=' ∷ (value ++ 0 ∷ []))

abbrev pub block : List (Bytes × Bytes) → Bytes
block [] = []
block (p ∷ ps) = entry p ++ block ps

-- A pair that the format can hold: the key has a first byte, and no `=` behind it.
abbrev pub IsPair : Bytes × Bytes → Type 0
IsPair ([], value) = ⊥
IsPair (c ∷ key, value) = Lacks b'=' key × Lacks 0 (c ∷ key) × Lacks 0 value

module _ (m : Memchr) where
  open m use {memchr, absent, present}

  parse_total :
      (fuel : ℕ) (bytes : Bytes) (result : List (Bytes × Bytes))
      → length bytes < fuel
      → (e : Environment) × (parse m fuel bytes result ≡ some e)
  unfolding parse
  parse_total zero bytes result h = elim h [ ]
  parse_total (suc fuel) [] result h = (record { pairs = result }, rw (absent 0 [] tt, parse))
  parse_total (suc fuel) (c ∷ s) result h = elim (Option-cases (memchr 0 (c ∷ s))) [
    | inl e ↦ (record { pairs = result }, rw (e, parse))
    | inr (offset, e) ↦ elim (Bool-cases (offset == 0)) [
      | inl z ↦ (record { pairs = result }, rw (e, parse) (rw z))
      | inr nz ↦
          rw (e, parse)
            (rw nz
              (parse_total fuel (drop offset s) _ (omega (arith, length-drop_le {0} offset s))))
    ]
  ]

  -- The loop ends on every input: `from_bytes` returns an environment.
  pub from_bytes_total : (bytes : Bytes) → (e : Environment) × (from_bytes m bytes ≡ some e)
  unfolding from_bytes
  from_bytes_total bytes = parse_total (suc (length bytes)) bytes [] (omega arith)

  split_pair-IsPair :
      (c : ℕ) (key value : Bytes)
      → Lacks b'=' key
      → split_pair m (c ∷ (key ++ b'=' ∷ value)) ≡ some (c ∷ key, value)
  unfolding split_pair
  split_pair-IsPair c key value h = rw (present b'=' key value h) (ap some pair)
    where
      pair :
          ◌≡◌ {A = Bytes × Bytes}
            (
              c ∷ take (length key) (key ++ b'=' ∷ value),
              drop (suc (length key)) (key ++ b'=' ∷ value),
            )
            (c ∷ key, value)
      pair = rw (take_left, drop_past)

  parse_step :
      (fuel c : ℕ) (kv rest : Bytes) (result : List (Bytes × Bytes))
      → Lacks 0 (c ∷ kv)
      → parse m (suc fuel) (c ∷ (kv ++ 0 ∷ rest)) result
        ≡ parse m fuel rest (push_pair m (split_pair m (c ∷ kv)) result)
  unfolding parse
  parse_step fuel c kv rest result h =
      let positive : (suc (length kv) == 0) ≡ false = ground arith in
      rw (present 0 (c ∷ kv) rest h, parse)
        (rw (drop_past kv 0 rest, take_left kv (0 ∷ rest), positive))

  parse-entry :
      (fuel c : ℕ) (key value rest : Bytes) (result : List (Bytes × Bytes))
      → IsPair (c ∷ key, value)
      → parse m (suc fuel) (entry (c ∷ key, value) ++ rest) result
        ≡ parse m fuel rest (result ++ (c ∷ key, value) ∷ [])
  parse-entry fuel c key value rest result (eq_free, key_ok, value_ok) =
      ap (λ t. parse m (suc fuel) (c ∷ t) result) (simp append_assoc)
      ∙ parse_step fuel c (key ++ b'=' ∷ value) rest result
          (key_ok.0, All-append _ key (b'=' ∷ value) key_ok.1 (cc, value_ok))
      ∙ rw (split_pair-IsPair c key value eq_free)

  -- Where the loop stops: at the end of the input, at an empty entry, or at an entry that is cut off.
  abbrev pub Stops : Bytes → Type 0
  Stops rest = (memchr 0 rest ≡ none) ⊎ (memchr 0 rest ≡ some 0)

  parse-block :
      (ps : List (Bytes × Bytes)) (fuel : ℕ) (rest : Bytes) (result : List (Bytes × Bytes))
      → All IsPair ps
      → Stops rest
      → length ps < fuel
      → parse m fuel (block ps ++ rest) result ≡ some (record { pairs = result ++ ps })
  parse-block ps zero rest result h stops lt = elim lt [ ]
  parse-block [] (suc fuel) rest result h (inl e) lt = rw append-nil (unfold parse in rw (e, parse))
  parse-block [] (suc fuel) rest result h (inr e) lt = rw append-nil (unfold parse in rw (e, parse))
  parse-block (([], value) ∷ ps) (suc fuel) rest result h stops lt = absurd h.0
  parse-block ((c ∷ key, value) ∷ ps) (suc fuel) rest result h stops lt =
      ap (λ t. parse m (suc fuel) t result) (append_assoc (entry (c ∷ key, value)) (block ps) rest)
      ∙ parse-entry fuel c key value (block ps ++ rest) result h.0
      ∙ parse-block ps fuel rest (result ++ (c ∷ key, value) ∷ []) h.1 stops (omega arith)
      ∙ ap (λ t. some (record { pairs = t })) (append_assoc result ((c ∷ key, value) ∷ []) ps)

  length-le-block : (ps : List (Bytes × Bytes)) → length ps ≤ length (block ps)
  length-le-block [] = omega arith
  length-le-block ((key, value) ∷ ps) = omega (
    arith,
    length-le-block ps,
    length-append {0} (entry (key, value)) (block ps),
    length-append {0} key (b'=' ∷ (value ++ 0 ∷ [])),
  )

  -- The variables of an environment block are read back in order, whatever bytes but NUL their
  -- values hold, if no key is empty or has a `=` behind its first byte, and none holds a NUL.
  -- Behind the block may stand nothing, an empty entry and more, or an entry with no NUL. The
  -- search for a byte is any that finds its first place.
  pub from_bytes-block :
      (ps : List (Bytes × Bytes)) (rest : Bytes)
      → All IsPair ps
      → Stops rest
      → from_bytes m (block ps ++ rest) ≡ some (record { pairs = ps })
  unfolding from_bytes
  from_bytes-block ps rest h stops =
      parse-block ps (suc (length (block ps ++ rest))) rest [] h stops
        (omega (arith, length-le-block ps, length-append {0} (block ps) rest))
