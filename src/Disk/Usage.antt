-- ===== src/Disk/Usage.antt =====
-- heim-disk/src/sys/unix/usage.rs. The counts of `statvfs` are 64 bits wide, products and differences
-- wrap, as in a release build, and a size is its number of bytes.
use native.Mathlib.Nat.{add-mul, mul-le-mul_right}
use heim.Prelude.{ℕ, ◌+◌, ◌-◌, ◌*◌, ◌%◌, ◌^◌, ◌≤◌, ◌<◌, ◌≡◌, arith, ap, ◌∙◌, Option}
use heim.Outcome.{◌>>=◌, map_err, ok_or}
use heim.Text.{Str, Bytes, codes, as_bytes}
use heim.Common.Errors.{
  Result, IoResult, simple, invalid_input, from_io, with_message, with_ffi, last_os_error,
}
use heim.Common.CString.{c_string}

pub record Statvfs : Type 0 where
  pub f_frsize : ℕ
  pub f_blocks : ℕ
  pub f_bfree : ℕ
  pub f_bavail : ℕ

abbrev pub wrap : ℕ → ℕ
wrap n = n % 2 ^ 64

-- `Usage::total`
unfoldable pub total : Statvfs → ℕ
total v = wrap (v.f_blocks * v.f_frsize)

-- `Usage::used`
unfoldable pub used : Statvfs → ℕ
unfolding total
used v = wrap (total v + 2 ^ 64 - wrap (v.f_bfree * v.f_frsize))

-- `Usage::free`
unfoldable pub free : Statvfs → ℕ
free v = wrap (v.f_bavail * v.f_frsize)

-- `Usage::ratio`, with the operations of `f32` that it uses
unfoldable pub ratio : {F : Type 0} → (ℕ → F) → (F → F → F) → (F → F → F) → Statvfs → F
unfolding used
ratio as_f32 plus div v =
    div (as_f32 (used v)) (plus (as_f32 (used v)) (as_f32 (wrap (v.f_bavail * v.f_frsize))))

-- `usage`, on the text of the path if it is one; `statvfs` is the call of libc, with the system's
-- error if it failed.
unfoldable pub usage : (Bytes → IoResult Statvfs) → Option Str → Result Statvfs
usage statvfs path = do
  path ←
      map_err (λ e. with_message (from_io e) (codes "Invalid path"))
        (do
          string ← ok_or (simple invalid_input) path
          map_err (λ _. simple invalid_input) (c_string (as_bytes string)))
  map_err (λ e. with_ffi (last_os_error e) (codes "statvfs")) (statvfs path)

used_of_products :
    (a b c d : ℕ)
    → a ≡ d + b
    → c ≤ b
    → a < 2 ^ 64
    → ((wrap a + 2 ^ 64 - wrap b) % 2 ^ 64 ≡ d)
      × ((wrap a + 2 ^ 64 - wrap b) % 2 ^ 64 + wrap c ≤ wrap a)
used_of_products a b c d e h fits = omega arith

-- If the free blocks are blocks of the file system, those for users are among the free ones, and
-- the size fits 64 bits, then the used size is that of the blocks that are not free, and with what
-- is free for users it is at most the whole size.
used-free :
    (v : Statvfs)
    → v.f_bavail ≤ v.f_bfree
    → v.f_bfree ≤ v.f_blocks
    → v.f_blocks * v.f_frsize < 2 ^ 64
    → (used v ≡ (v.f_blocks - v.f_bfree) * v.f_frsize) × (used v + free v ≤ total v)
unfolding used total free
used-free v avail blocks fits =
    used_of_products (v.f_blocks * v.f_frsize) (v.f_bfree * v.f_frsize) (v.f_bavail * v.f_frsize)
      ((v.f_blocks - v.f_bfree) * v.f_frsize)
      (let split : v.f_blocks ≡ v.f_blocks - v.f_bfree + v.f_bfree = omega arith in
        ap (λ n. n * v.f_frsize) split ∙ add-mul (v.f_blocks - v.f_bfree) v.f_bfree v.f_frsize)
      (mul-le-mul_right v.f_frsize avail) fits
