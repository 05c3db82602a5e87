-- ===== src/Disk/Drives/Listed.antt =====
-- What the iterator yields on the text that the system documents: four characters for each drive,
-- and one zero more.
use mathlib.Core.Path.{ap₂}
use heim.Prelude.{
  ℕ, zero, suc, ◌+◌, ◌<◌, ◌≡◌, ◌≢◌, sym, ap, ◌∙◌, arith, some, none, List, [], ◌∷◌, ◌++◌,
  append_assoc, map, All, length, length-append, take, drop_left,
}
use heim.Outcome.{ok, map_ok}
use heim.Common.Memory.{first_zero, first_zero-append}
use heim.Disk.Drives.{Drives, drive_from, next_drive, next, new, react, collect}

-- A letter, `:`, `\` and a zero
abbrev pub path_of : ℕ → List ℕ
path_of letter = letter ∷ b':' ∷ 0x5c ∷ 0 ∷ []

abbrev pub strings : List ℕ → List ℕ
strings [] = 0 ∷ []
strings (letter ∷ letters) = path_of letter ++ strings letters

abbrev at_drives : List ℕ → List ℕ → Drives
at_drives before letters = record { buffer = before ++ strings letters; position = length before }

next_listed :
    (before : List ℕ) (letter : ℕ) (letters : List ℕ)
    → letter ≢ 0
    → next (at_drives before (letter ∷ letters))
      ≡ ok (some (record { chars = path_of letter }, at_drives (before ++ path_of letter) letters))
unfolding next
next_listed before letter letters h =
    let buffer = drop_left before (strings (letter ∷ letters)) in
    ap (next_drive (at_drives before (letter ∷ letters))) (
      ap first_zero buffer
      ∙ first_zero-append (letter ∷ b':' ∷ 0x5c ∷ []) (strings letters) (omega arith))
    ∙ ap
        (λ chars.
          map_ok
            (λ drive. some (
              drive,
              record (at_drives before (letter ∷ letters)) { position = length before + 3 + 1 },
            ))
            (drive_from chars))
        (ap₂ take {y = 4} (omega arith) buffer)
    ∙ ap₂
        (λ position buffer. ok (
          some
            (record { chars = path_of letter }, record { position = position; buffer = buffer })))
        (let total = length-append before (path_of letter) in omega arith)
        (sym (append_assoc before (path_of letter) (strings letters)))

next_last : (before : List ℕ) → next (at_drives before []) ≡ ok none
unfolding next first_zero
next_last before =
    ap (λ s. next_drive (at_drives before []) (first_zero s)) (drop_left before (strings []))

collect-at_drives :
    (n : ℕ) (before letters : List ℕ)
    → All (λ letter. letter ≢ 0) letters
    → length letters < n
    → collect n (at_drives before letters)
      ≡ some (ok (map (λ letter. record { chars = path_of letter }) letters))
unfolding collect
collect-at_drives zero before letters h lt = absurd (omega arith)
collect-at_drives (suc n) before [] h lt = ap (react (collect n)) (next_last before)
collect-at_drives (suc n) before (letter ∷ letters) h lt =
    ap (react (collect n)) (next_listed before letter letters h.0)
    ∙ ap
        (λ o. elim o [
          | none ↦ none
          | some drives ↦ some (map_ok (λ ds. record { chars = path_of letter } ∷ ds) drives)
        ])
        (collect-at_drives n (before ++ path_of letter) letters h.1 (omega arith))

-- If the system lists the drives as it documents, the iterator yields each of them in turn and then
-- ends.
pub collect-strings :
    (n size : ℕ) (letters : List ℕ)
    → All (λ letter. letter ≢ 0) letters
    → length letters < n
    → map_ok (collect n) (new (ok size) (λ _. ok (strings letters)))
      ≡ ok (some (ok (map (λ letter. record { chars = path_of letter }) letters)))
unfolding new
collect-strings n size letters h lt = ap ok (collect-at_drives n [] letters h lt)
