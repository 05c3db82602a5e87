-- ===== src/Memory/Status.antt =====
-- heim-memory/src/sys/windows/mod.rs. The numbers of `MEMORYSTATUSEX` are 64 bits wide, differences
-- wrap, as in a release build, and a size is its number of bytes.
use Prim.Native.Nat.{min}
use heim.Prelude.{◌-◌, ℕ, ◌+◌, ◌%◌, ◌^◌, ◌≤◌, ◌<◌, ◌≡◌, arith}
use heim.Outcome.{map_err, map_ok}
use heim.Common.Errors.{Result, IoResult, last_os_error}

-- What the code reads of `MEMORYSTATUSEX`.
pub record MemoryStatus : Type 0 where
  pub total_phys : ℕ
  pub avail_phys : ℕ
  pub total_page_file : ℕ
  pub avail_page_file : ℕ

pub record Memory : Type 0 where
  pub status : MemoryStatus

pub record Swap : Type 0 where
  pub status : MemoryStatus

-- `memory_status`, with the answer of `GlobalMemoryStatusEx`
unfoldable pub memory_status : IoResult MemoryStatus → Result MemoryStatus
memory_status answer = map_err last_os_error answer

unfoldable pub memory : IoResult MemoryStatus → Result Memory
unfolding memory_status
memory answer = map_ok (λ s. record { status = s }) (memory_status answer)

unfoldable pub swap : IoResult MemoryStatus → Result Swap
unfolding memory_status
swap answer = map_ok (λ s. record { status = s }) (memory_status answer)

-- `Memory::total`, `Memory::available` and `Memory::free`
abbrev pub memory_total : Memory → ℕ
memory_total self = self.status.total_phys

abbrev pub memory_available : Memory → ℕ
memory_available self = self.status.avail_phys

abbrev pub memory_free : Memory → ℕ
memory_free self = memory_available self

-- The difference of two numbers of 64 bits.
abbrev sub : ℕ → ℕ → ℕ
sub a b = (a + 2 ^ 64 - b) % 2 ^ 64

-- `Swap::total`
unfoldable pub total : Swap → ℕ
total self = sub self.status.total_page_file self.status.total_phys

-- `Swap::free`
unfoldable pub free : Swap → ℕ
unfolding total
free self = min (sub self.status.avail_page_file self.status.avail_phys) (total self)

-- `Swap::used`
unfoldable pub used : Swap → ℕ
unfolding total free
used self = sub (total self) (free self)

-- If the limit of committed memory is at least the physical memory and fits 64 bits, then the total
-- swap is what the limit adds, and the used and the free swap make up the total, also if more
-- physical memory is available than memory that can be committed.
used-free_total :
    (self : Swap)
    → self.status.total_phys ≤ self.status.total_page_file
    → self.status.total_page_file < 2 ^ 64
    → (self.status.total_phys + total self ≡ self.status.total_page_file)
      × (used self + free self ≡ total self)
unfolding total free used
used-free_total self below fits =
    let whole : total self ≡ self.status.total_page_file - self.status.total_phys = omega arith in
    let bound : free self ≤ total self = omega arith in (omega arith, omega arith)
