-- ===== src/Cpu/Freq/Mean.antt =====
-- The frequency of the whole system as a mean.
use heim.Prelude.{
  true, ltb, ℕ, ◌+◌, ◌/◌, ◌^◌, ◌%◌, ◌<◌, ◌≡◌, refl, sym, ap, ◌∙◌, subst, arith, Option, none, some,
  List, [], ◌∷◌, map, length,
}
use mathlib.Core.Option
use mathlib.Core.Path.{ap₂}
use heim.Outcome.{ok}
use heim.Text.{Str}
use heim.Common.Errors.{IoResult}
use heim.Runtime.Fs.{FilePath, Files}
use heim.Cpu.Freq.{CpuFrequency, default, add_bounds, add, sum_items, mean, frequencies, frequency}

abbrev pub bound : Option ℕ → ℕ
bound none = 0
bound (some n) = n

-- The sum of two bounds: one that is missing adds nothing, and two that are missing have none.
abbrev pub plus_bounds : Option ℕ → Option ℕ → Option ℕ
plus_bounds none b = b
plus_bounds (some m) none = some m
plus_bounds (some m) (some n) = some (m + n)

abbrev pub total : List CpuFrequency → ℕ
total [] = 0
total (f ∷ fs) = f.current + total fs

-- The sum of the bounds that the processors have, if any has one.
abbrev pub total_bound : (CpuFrequency → Option ℕ) → List CpuFrequency → Option ℕ
total_bound field [] = none
total_bound field (f ∷ fs) = plus_bounds (field f) (total_bound field fs)

abbrev pub mins : List CpuFrequency → Option ℕ
mins = total_bound (λ f. f.min)

abbrev pub maxes : List CpuFrequency → Option ℕ
maxes = total_bound (λ f. f.max)

add_bounds-plus_bounds :
    (a b : Option ℕ) → bound a + bound b < 2 ^ 64 → add_bounds a b ≡ plus_bounds a b
unfolding add_bounds
add_bounds-plus_bounds none none h = refl
add_bounds-plus_bounds none (some n) h = refl
add_bounds-plus_bounds (some m) none h = refl
add_bounds-plus_bounds (some m) (some n) h = ap some (omega arith)

plus_bounds_assoc :
    (a b c : Option ℕ) → plus_bounds (plus_bounds a b) c ≡ plus_bounds a (plus_bounds b c)
plus_bounds_assoc none b c = refl
plus_bounds_assoc (some m) none c = refl
plus_bounds_assoc (some m) (some n) none = refl
plus_bounds_assoc (some m) (some n) (some k) = ap some (omega arith)

plus_bounds-none : (a : Option ℕ) → plus_bounds a none ≡ a
plus_bounds-none none = refl
plus_bounds-none (some m) = refl

bound-plus_bounds : (a b : Option ℕ) → bound (plus_bounds a b) ≡ bound a + bound b
bound-plus_bounds none b = omega arith
bound-plus_bounds (some m) none = omega arith
bound-plus_bounds (some m) (some n) = refl

abbrev sums : CpuFrequency → List CpuFrequency → CpuFrequency
sums acc fs = record {
  current = acc.current + total fs;
  min = plus_bounds acc.min (mins fs);
  max = plus_bounds acc.max (maxes fs);
}

-- No sum leaves 64 bits.
abbrev pub Fits : CpuFrequency → Type 0
Fits f = (f.current < 2 ^ 64) × (bound f.min < 2 ^ 64) × (bound f.max < 2 ^ 64)

-- The first two of three bounds fit if all do.
fits_front :
    (a b c : Option ℕ)
    → bound (plus_bounds a (plus_bounds b c)) < 2 ^ 64
    → bound a + bound b < 2 ^ 64
fits_front a b c h =
    let outer = bound-plus_bounds a (plus_bounds b c) in
    let inner = bound-plus_bounds b c in omega arith

sums-add :
    (acc f : CpuFrequency) (fs : List CpuFrequency)
    → Fits (sums acc (f ∷ fs))
    → sums (add acc f) fs ≡ sums acc (f ∷ fs)
unfolding add
sums-add acc f fs (hc, hl, hh) =
    let least : bound acc.min + bound f.min < 2 ^ 64 = fits_front acc.min f.min (mins fs) hl in
    let most : bound acc.max + bound f.max < 2 ^ 64 = fits_front acc.max f.max (maxes fs) hh in
    let current : (acc.current + f.current) % 2 ^ 64 + total fs
        ≡ acc.current + (f.current + total fs) =
      omega arith in
    rw (add_bounds-plus_bounds acc.min f.min least) (
      rw (add_bounds-plus_bounds acc.max f.max most) (
        rw (plus_bounds_assoc acc.min f.min (mins fs)) (
          rw (plus_bounds_assoc acc.max f.max (maxes fs)) (
            ap
              (λ n. record {
                current = n;
                min = plus_bounds acc.min (plus_bounds f.min (mins fs));
                max = plus_bounds acc.max (plus_bounds f.max (maxes fs));
              })
              current))))

sum_items-sums :
    (fs : List CpuFrequency) (acc : CpuFrequency) (amount : ℕ)
    → Fits (sums acc fs)
    → sum_items (map ok fs) acc amount ≡ ok (sums acc fs, amount + length fs)
unfolding sum_items
sum_items-sums [] acc amount h = rw (plus_bounds-none acc.min) (
    rw (plus_bounds-none acc.max)
      (ap₂ (λ m n. ok (record acc { current = m }, n)) (omega arith) (omega arith)))
sum_items-sums (f ∷ fs) acc amount h =
    let rest =
      sum_items-sums fs (add acc f) (amount + 1) (subst Fits (sym (sums-add acc f fs h)) h) in
    rest ∙ ap₂ (λ x n. ok (x, n)) (sums-add acc f fs h) (omega arith)

mean_positive :
    (acc : CpuFrequency) (n m c : ℕ)
    → acc.current ≡ c
    → n ≡ m
    → 0 < m
    → mean (acc, n)
      ≡ ok (record {
        current = c / m;
        min = Option.map (λ value. value / m) acc.min;
        max = Option.map (λ value. value / m) acc.max;
      })
unfolding mean
mean_positive acc n m c e h lt =
    let positive : ltb 0 m ≡ true = ground arith in rw h (rw positive (rw e))

-- The frequency of the system is the sum of the current ones by the number of processors, if each of
-- them could be read, there is one, and no sum leaves 64 bits. The bounds are divided by the same
-- number, though only the processors that have one are summed.
pub frequency-mean :
    (files : Files) (glob : Str → Option (List (IoResult FilePath))) (sysfs_root : FilePath)
    (f : CpuFrequency) (fs : List CpuFrequency)
    → frequencies files glob sysfs_root ≡ ok (map ok (f ∷ fs))
    → Fits (sums default (f ∷ fs))
    → frequency files glob sysfs_root
      ≡ ok (record {
        current = total (f ∷ fs) / length (f ∷ fs);
        min = Option.map (λ value. value / length (f ∷ fs)) (mins (f ∷ fs));
        max = Option.map (λ value. value / length (f ∷ fs)) (maxes (f ∷ fs));
      })
unfolding frequency mean
frequency-mean files glob sysfs_root f fs read h = rw read (
    rw (sum_items-sums (f ∷ fs) default 0 h) (
      mean_positive (sums default (f ∷ fs)) (0 + length (f ∷ fs)) (length (f ∷ fs)) (total (f ∷ fs))
        (omega arith) (omega arith) (omega arith)))
