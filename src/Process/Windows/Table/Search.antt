-- ===== src/Process/Windows/Table/Search.antt =====
-- The search in the table of processes.
use heim.Prelude.{
  ==_iff, Bool, true, false, ◌↔◌, ℕ, zero, suc, ◌≤◌, ◌≡◌, ◌≢◌, refl, sym, not, ap, ◌∙◌, inl, inr,
  arith, Bool-cases, if_true, if_false, Option, none, some, List, [], ◌∷◌, All, length, drop, ◌==◌,
  if◌then◌else◌,
}
use heim.Outcome.{ok}
use heim.Text.{Bytes}
use heim.Process.Windows.{Kernel}
use heim.Process.Windows.Table.{
  any, is_awake, Thread, Entry, next, step, find, load_table, suspended_of, is_suspended,
  with_table,
}

-- The thread waits, and because it is suspended.
abbrev pub IsSuspended : ℕ → ℕ → Thread → Type 0
IsSuspended waiting suspended thread =
    (thread.thread_state ≡ waiting) × (thread.wait_reason ≡ suspended)

module _ {FileTime : Type 0} (entry_at : Bytes → Entry FileTime) where
  -- The bytes hold the entries in a chain: each says how far the next one is, and the last one says
  -- zero.
  abbrev pub Laid : Bytes → List (Entry FileTime) → Type 0
  Laid bytes [] = ⊥
  Laid bytes (e ∷ []) = (entry_at bytes ≡ e) × (e.next_entry_offset ≡ 0)
  Laid bytes (e ∷ e' ∷ es) = (entry_at bytes ≡ e) × Laid (drop e.next_entry_offset bytes) (e' ∷ es)

  -- The first entry of a process.
  abbrev pub entry_of : ℕ → List (Entry FileTime) → Option (Entry FileTime)
  entry_of pid [] = none
  entry_of pid (e ∷ es) =
      let rest = entry_of pid es in if e.unique_process_id == pid then some e else rest

  find_step :
      (fuel pid : ℕ) (bytes : Bytes) (e : Entry FileTime)
      → entry_at bytes ≡ e
      → find entry_at (suc fuel) pid bytes ≡ (
          if e.unique_process_id == pid
          then some (some e)
          else find entry_at fuel pid (drop e.next_entry_offset bytes))
  unfolding find next
  find_step fuel pid bytes e h =
      ap
        (λ x. step entry_at (find entry_at fuel pid) pid (some (x, drop x.next_entry_offset bytes)))
        h

  -- The last entry is found again and again.
  find_last :
      (fuel pid : ℕ) (bytes : Bytes) (e : Entry FileTime)
      → entry_at bytes ≡ e
      → e.next_entry_offset ≡ 0
      → e.unique_process_id ≢ pid
      → find entry_at fuel pid bytes ≡ none
  unfolding find
  find_last zero pid bytes e h last other = refl
  find_last (suc fuel) pid bytes e h last other =
      find_step fuel pid bytes e h
      ∙ if_false {c = e.unique_process_id == pid} _ _ (ground arith)
      ∙ ap (λ n. find entry_at fuel pid (drop n bytes)) last
      ∙ find_last fuel pid bytes e h last other

  find_absent :
      (fuel pid : ℕ) (bytes : Bytes) (es : List (Entry FileTime))
      → Laid bytes es
      → All (λ e. e.unique_process_id ≢ pid) es
      → find entry_at fuel pid bytes ≡ none
  unfolding find
  find_absent fuel pid bytes [] laid others = elim laid [ ]
  find_absent fuel pid bytes (e ∷ []) laid others =
      find_last fuel pid bytes e laid.0 laid.1 others.0
  find_absent zero pid bytes (e ∷ e' ∷ es) laid others = refl
  find_absent (suc fuel) pid bytes (e ∷ e' ∷ es) laid others =
      find_step fuel pid bytes e laid.0
      ∙ if_false {c = e.unique_process_id == pid} _ _ (let differs = others.0 in ground arith)
      ∙ find_absent fuel pid (drop e.next_entry_offset bytes) (e' ∷ es) laid.1 others.1

  find_present :
      (fuel pid : ℕ) (bytes : Bytes) (es : List (Entry FileTime)) (e : Entry FileTime)
      → Laid bytes es
      → length es ≤ fuel
      → entry_of pid es ≡ some e
      → find entry_at fuel pid bytes ≡ some (some e)
  find_present fuel pid bytes [] e laid lt h = elim laid [ ]
  find_present zero pid bytes (x ∷ es) e laid lt h = absurd (omega arith)
  find_present (suc fuel) pid bytes (x ∷ []) e laid lt h =
      find_step fuel pid bytes x laid.0 ∙ (elim (Bool-cases (x.unique_process_id == pid)) [
        | inl same ↦ if_true _ _ same ∙ ap some (rw same at h)
        | inr other ↦ cc (rw other at h)
      ])
  find_present (suc fuel) pid bytes (x ∷ x' ∷ es) e laid lt h =
      find_step fuel pid bytes x laid.0 ∙ (elim (Bool-cases (x.unique_process_id == pid)) [
        | inl same ↦ if_true _ _ same ∙ ap some (sym (if_true _ _ same) ∙ h)
        | inr other ↦
            if_false _ _ other
            ∙ find_present fuel pid (drop x.next_entry_offset bytes) (x' ∷ es) e laid.1
                (omega arith) (sym (if_false _ _ other) ∙ h)
      ])

  not_is_awake_iff :
      (waiting suspended : ℕ) (thread : Thread)
      → (is_awake entry_at waiting suspended thread ≡ false) ↔ IsSuspended waiting suspended thread
  not_is_awake_iff waiting suspended thread =
      let state = ==_iff thread.thread_state waiting in
      let reason = ==_iff thread.wait_reason suspended in ground (arith, state, reason)

  not-any_iff :
      (waiting suspended : ℕ) (threads : List Thread)
      → (not (any entry_at (is_awake entry_at waiting suspended) threads) ≡ true)
        ↔ All (IsSuspended waiting suspended) threads
  not-any_iff waiting suspended [] = (λ e. tt, λ h. refl)
  not-any_iff waiting suspended (thread ∷ threads) =
      let here = not_is_awake_iff waiting suspended thread in
      let later = not-any_iff waiting suspended threads in
      elim (Bool-cases (is_awake entry_at waiting suspended thread)) [
        | inl awake ↦ rw awake (λ e. cc, λ h. let asleep = here.1 h.0 in cc)
        | inr asleep ↦ rw asleep (λ e. (here.0 asleep, later.0 e), λ h. later.1 h.1)
      ]

  -- For a process that has an entry in the chain that the system answers, `is_suspended` says that
  -- it is suspended exactly if all threads of its first entry wait, and for the reason that they are
  -- suspended.
  pub is_suspended-entry_of :
      {S : Type 0} (sys : Kernel S FileTime) (waiting suspended fuel pid : ℕ) (s t : S)
      (bytes : Bytes) (es : List (Entry FileTime)) (e : Entry FileTime)
      → load_table sys fuel s ≡ (some (ok bytes), t)
      → Laid bytes es
      → length es ≤ fuel
      → entry_of pid es ≡ some e
      → (answer : Bool) × (is_suspended entry_at sys waiting suspended fuel pid s
          ≡ (some (ok answer), t))
        × ((answer ≡ true) ↔ All (IsSuspended waiting suspended) e.threads)
  unfolding is_suspended
  is_suspended-entry_of sys waiting suspended fuel pid s t bytes es e loaded laid lt h = (
    not (any entry_at (is_awake entry_at waiting suspended) e.threads),
    ap
          (λ r. (
            with_table entry_at
                (λ bytes.
                  suspended_of entry_at waiting suspended pid (find entry_at fuel pid bytes))
                r.0,
            r.1,
          ))
          loaded
        ∙ ap (λ o. (suspended_of entry_at waiting suspended pid o, t))
            (find_present fuel pid bytes es e laid lt h),
    not-any_iff waiting suspended e.threads,
  )

  -- If no entry of the chain that the system answers is of the process, then `is_suspended` never
  -- returns: the iterator yields the last entry again and again.
  pub is_suspended_never_returns :
      {S : Type 0} (sys : Kernel S FileTime) (waiting suspended fuel pid : ℕ) (s t : S)
      (bytes : Bytes) (es : List (Entry FileTime))
      → load_table sys fuel s ≡ (some (ok bytes), t)
      → Laid bytes es
      → All (λ e. e.unique_process_id ≢ pid) es
      → (is_suspended entry_at sys waiting suspended fuel pid s).0 ≡ none
  unfolding is_suspended
  is_suspended_never_returns sys waiting suspended fuel pid s t bytes es loaded laid others =
      ap
        (λ r.
          with_table entry_at
            (λ bytes. suspended_of entry_at waiting suspended pid (find entry_at fuel pid bytes))
            r.0)
        loaded
      ∙ ap (suspended_of entry_at waiting suspended pid) (find_absent fuel pid bytes es laid others)
