-- ===== src/Disk/Volumes/Found.antt =====
-- The streams over the volumes that the system finds.
use mathlib.Core.Option
use heim.Prelude.{
  true, Bool, ◌*◌, false, inl, inr, Bool-cases, ℕ, zero, suc, ◌<◌, ◌≡◌, refl, ap, ◌∙◌, arith, some,
  none, Option, List, [], ◌∷◌, ◌++◌, All, Lacks, length,
}
use heim.Outcome.{ok, err, panic}
use heim.Common.Errors.{Error, Result, os}
use heim.Common.Int.{int_eq_refl}
use heim.Common.Memory.{before_zero-append}
use heim.Disk.Volumes.{
  Search, Device, Volumes, IoCounters, next, find_first_volume, find_next_volume, counters_for,
  measured, disk_performance, DiskPerformance, push, react, inner_stream,
}

-- The searches go through the volumes that remain, with one handle; a buffer holds the path, a zero,
-- and what was there before.
pub record Finds {S H : Type 0} (sys : Search S H) (handle : H) (remaining : S → List (List ℕ))
    : Type 0 where
  pub first :
      (s : S) (v : List ℕ) (vs : List (List ℕ))
      → remaining s ≡ v ∷ vs
      → (junk : List ℕ) × (t : S) × (sys.find_first s ≡ (ok (handle, v ++ 0 ∷ junk), t))
        × (remaining t ≡ vs)
  pub further :
      (s : S) (v : List ℕ) (vs : List (List ℕ))
      → remaining s ≡ v ∷ vs
      → (junk : List ℕ) × (t : S) × (sys.find_next handle s ≡ (ok (v ++ 0 ∷ junk), t))
        × (remaining t ≡ vs)
  pub finished :
      (s : S)
      → remaining s ≡ []
      → (t : S) × (sys.find_next handle s ≡ (err (os sys.no_more_files), t))

-- What is to be yielded for the volumes: nothing for one that does not pass the filter, or whose
-- device has no counters; otherwise its counters, or why they could not be read.
pub data Yields {Time : Type 0} (dev : Device) (microseconds : ℕ → Time) (filter : List ℕ → Bool)
    : List (List ℕ) → List (Result (IoCounters Time)) → Type 0 where
  no_more : Yields dev microseconds filter [] []
  left_out :
      {v : List ℕ} {vs : List (List ℕ)} {items : List (Result (IoCounters Time))}
      → filter v ≡ false
      → Yields dev microseconds filter vs items
      → Yields dev microseconds filter (v ∷ vs) items
  without_counters :
      {v : List ℕ} {vs : List (List ℕ)} {items : List (Result (IoCounters Time))}
      → filter v ≡ true
      → disk_performance dev v ≡ ok none
      → Yields dev microseconds filter vs items
      → Yields dev microseconds filter (v ∷ vs) items
  counted :
      {v : List ℕ} {vs : List (List ℕ)} {items : List (Result (IoCounters Time))}
      {perf : DiskPerformance}
      → filter v ≡ true
      → disk_performance dev v ≡ ok (some perf)
      → Yields dev microseconds filter vs items
      → Yields dev microseconds filter (v ∷ vs) (
          ok (record {
            volume_path = v;
            read_count = perf.read_count;
            write_count = perf.write_count;
            read_bytes = perf.bytes_read;
            write_bytes = perf.bytes_written;
            read_time = microseconds (perf.read_time * 10);
            write_time = microseconds (perf.write_time * 10);
          })
          ∷ items)
  unread :
      {v : List ℕ} {vs : List (List ℕ)} {items : List (Result (IoCounters Time))} {e : Error}
      → filter v ≡ true
      → disk_performance dev v ≡ err e
      → Yields dev microseconds filter vs items
      → Yields dev microseconds filter (v ∷ vs) (err e ∷ items)
  panicked :
      {v : List ℕ} {vs : List (List ℕ)} {items : List (Result (IoCounters Time))}
      → filter v ≡ true
      → disk_performance dev v ≡ panic
      → Yields dev microseconds filter vs items
      → Yields dev microseconds filter (v ∷ vs) (panic ∷ items)

module _ {S H Time : Type 0} (sys : Search S H) (handle : H) (remaining : S → List (List ℕ))
    (finds : Finds sys handle remaining) (dev : Device) (microseconds : ℕ → Time)
    (filter : List ℕ → Bool) where
  abbrev counters : List (List ℕ) → List (Result (IoCounters Time))
  counters [] = []
  counters (v ∷ vs) =
      push sys dev microseconds filter (counters_for sys dev microseconds filter (ok v))
        (counters vs)

  measured-Yields :
      (v : List ℕ) (vs : List (List ℕ)) (items : List (Result (IoCounters Time)))
      (r : Result (Option DiskPerformance))
      → filter v ≡ true
      → disk_performance dev v ≡ r
      → Yields dev microseconds filter vs items
      → Yields dev microseconds filter
          (v ∷ vs)
          (push sys dev microseconds filter (measured sys dev microseconds filter v r) items)
  measured-Yields v vs items (ok (some perf)) kept e rest = counted kept e rest
  measured-Yields v vs items (ok none) kept e rest = without_counters kept e rest
  measured-Yields v vs items (err x) kept e rest = unread kept e rest
  measured-Yields v vs items panic kept e rest = panicked kept e rest

  counters-Yields : (vs : List (List ℕ)) → Yields dev microseconds filter vs (counters vs)
  unfolding counters_for
  counters-Yields [] = no_more
  counters-Yields (v ∷ vs) = elim (Bool-cases (filter v)) [
    | inl kept ↦
        rw kept (
          measured-Yields v vs (counters vs) (disk_performance dev v) kept refl
            (counters-Yields vs))
    | inr dropped ↦ rw dropped (left_out dropped (counters-Yields vs))
  ]

  stream : ℕ → Volumes H → S → Option (List (Result (IoCounters Time)))
  stream n self s = (inner_stream sys dev microseconds filter n self s).0

  stream_item :
      (n : ℕ) (self after : Volumes H) (s t : S) (v : List ℕ)
      → next sys self s ≡ ((some (ok v), after), t)
      → stream (suc n) self s
        ≡ Option.map
            (push sys dev microseconds filter (counters_for sys dev microseconds filter (ok v)))
            (stream n after t)
  unfolding stream inner_stream react
  stream_item n self after s t v e =
      ap
        (λ r.
          (react sys dev microseconds filter (inner_stream sys dev microseconds filter n) r.0.0
            r.0.1 r.1).0)
        e

  stream_end :
      (n : ℕ) (self after : Volumes H) (s t : S)
      → next sys self s ≡ ((none, after), t)
      → stream (suc n) self s ≡ some []
  unfolding stream inner_stream react
  stream_end n self after s t e =
      ap
        (λ r.
          (react sys dev microseconds filter (inner_stream sys dev microseconds filter n) r.0.0
            r.0.1 r.1).0)
        e

  next_first :
      (s t : S) (v junk : List ℕ)
      → Lacks 0 v
      → sys.find_first s ≡ (ok (handle, v ++ 0 ∷ junk), t)
      → next sys (record { handle = none }) s ≡ ((some (ok v), record { handle = some handle }), t)
  unfolding next find_first_volume
  next_first s t v junk h e =
      rw e (
        ap (λ p. ((some (ok p), record { handle = some handle }), t)) (before_zero-append v junk h))

  next_further :
      (s t : S) (v junk : List ℕ)
      → Lacks 0 v
      → sys.find_next handle s ≡ (ok (v ++ 0 ∷ junk), t)
      → next sys (record { handle = some handle }) s
        ≡ ((some (ok v), record { handle = some handle }), t)
  unfolding next find_next_volume
  next_further s t v junk h e =
      rw e (
        ap (λ p. ((some (ok p), record { handle = some handle }), t)) (before_zero-append v junk h))

  next_finished :
      (s t : S)
      → sys.find_next handle s ≡ (err (os sys.no_more_files), t)
      → next sys (record { handle = some handle }) s ≡ ((none, record { handle = some handle }), t)
  unfolding next find_next_volume
  next_finished s t e = rw (e, int_eq_refl sys.no_more_files) refl

  stream-further :
      (n : ℕ) (s : S) (vs : List (List ℕ))
      → remaining s ≡ vs
      → All (Lacks 0) vs
      → length vs < n
      → stream n (record { handle = some handle }) s ≡ some (counters vs)
  stream-further zero s vs e h lt = absurd (omega arith)
  stream-further (suc n) s [] e h lt =
      let (t, found) = finds.finished s e in stream_end n _ _ s t (next_finished s t found)
  stream-further (suc n) s (v ∷ vs) e h lt =
      let (junk, t, found, rest) = finds.further s v vs e in
      stream_item n _ (record { handle = some handle }) s t v (next_further s t v junk h.0 found)
      ∙ ap
          (Option.map
            (push sys dev microseconds filter (counters_for sys dev microseconds filter (ok v))))
          (stream-further n t vs rest h.1 (omega arith))

  stream_volumes :
      (n : ℕ) (s : S) (v : List ℕ) (vs : List (List ℕ))
      → remaining s ≡ v ∷ vs
      → All (Lacks 0) (v ∷ vs)
      → suc (length vs) < n
      → stream n (record { handle = none }) s ≡ some (counters (v ∷ vs))
  stream_volumes zero s v vs e h lt = absurd (omega arith)
  stream_volumes (suc n) s v vs e h lt =
      let (junk, t, found, rest) = finds.first s v vs e in
      stream_item n _ _ s t v (next_first s t v junk h.0 found)
      ∙ ap
          (Option.map
            (push sys dev microseconds filter (counters_for sys dev microseconds filter (ok v))))
          (stream-further n t vs rest h.1 (omega arith))

  -- If the searches of the system go through its volumes, with a text that a zero ends for each,
  -- then the stream ends, and it yields, in the order of the volumes, the counters of each that
  -- passes the filter, or the error of reading them, and nothing where the device has none or the
  -- volume does not pass.
  pub inner_stream-volumes :
      (n : ℕ) (s : S) (v : List ℕ) (vs : List (List ℕ))
      → remaining s ≡ v ∷ vs
      → All (Lacks 0) (v ∷ vs)
      → suc (length vs) < n
      → (items : List (Result (IoCounters Time))) × ((inner_stream sys dev microseconds filter n
            (record { handle = none })
            s).0
          ≡ some items)
        × Yields dev microseconds filter (v ∷ vs) items
  unfolding stream
  inner_stream-volumes n s v vs e h lt =
      (counters (v ∷ vs), stream_volumes n s v vs e h lt, counters-Yields (v ∷ vs))
