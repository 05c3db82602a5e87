-- ===== src/Memory/Pages.antt =====
-- heim-memory/src/sys/macos/memory.rs and swap.rs. The counts of pages are 32 bits wide, and sums
-- and differences of them wrap, as in a release build; a size is its number of bytes.
use native.Mathlib.Nat.{add-mul}
use heim.Prelude.{ℕ, ◌+◌, ◌-◌, ◌*◌, ◌%◌, ◌^◌, ◌≤◌, ◌<◌, ◌≡◌, ap, ◌∙◌, arith}
use heim.Outcome.{ok, ◌>>=◌}
use heim.Common.Errors.{Result}

-- What the code reads of `vm_statistics64`.
pub record VmStatistics : Type 0 where
  pub free_count : ℕ
  pub active_count : ℕ
  pub inactive_count : ℕ
  pub wire_count : ℕ
  pub speculative_count : ℕ
  pub pageins : ℕ
  pub pageouts : ℕ

-- What the code reads of `xsw_usage`.
pub record XswUsage : Type 0 where
  pub xsu_total : ℕ
  pub xsu_avail : ℕ
  pub xsu_used : ℕ

pub record Memory : Type 0 where
  pub total : ℕ
  pub available : ℕ
  pub used : ℕ
  pub free : ℕ
  pub active : ℕ
  pub inactive : ℕ
  pub wire : ℕ

pub record Swap : Type 0 where
  pub total : ℕ
  pub used : ℕ
  pub free : ℕ
  pub sin : ℕ
  pub sout : ℕ

-- A number of pages in bytes.
abbrev bytes : ℕ → ℕ → ℕ
bytes page_size n = (n * page_size) % 2 ^ 64

abbrev pub memory_of : ℕ → ℕ → VmStatistics → Memory
memory_of page_size total s = record {
  total = total;
  available = bytes page_size ((s.active_count + s.free_count) % 2 ^ 32);
  used = bytes page_size ((s.active_count + s.wire_count) % 2 ^ 32);
  free = bytes page_size ((s.free_count + 2 ^ 32 - s.speculative_count) % 2 ^ 32);
  active = bytes page_size s.active_count;
  inactive = bytes page_size s.inactive_count;
  wire = bytes page_size s.wire_count;
}

-- `memory`, with the answers of `hw_memsize` and `host_vm_info`
unfoldable pub memory : ℕ → Result ℕ → Result VmStatistics → Result Memory
memory page_size memsize vm_info = do
  total ← memsize
  vm_stats ← vm_info
  ok (memory_of page_size total vm_stats)

-- `swap`, with the answers of `vm_swapusage` and `host_vm_info`
unfoldable pub swap : ℕ → Result XswUsage → Result VmStatistics → Result Swap
swap page_size usage vm_info = do
  xsw_usage ← usage
  vm_stats ← vm_info
  ok (record {
    total = xsw_usage.xsu_total;
    used = xsw_usage.xsu_used;
    free = xsw_usage.xsu_avail;
    sin = bytes page_size vm_stats.pageins;
    sout = bytes page_size vm_stats.pageouts;
  })

-- The speculative pages are free ones, and the pages that are active, wired or free fit the widths.
abbrev Fits : ℕ → VmStatistics → Type 0
Fits page_size s =
    (s.speculative_count ≤ s.free_count)
    × (s.active_count + s.free_count + s.wire_count < 2 ^ 32)
    × ((s.active_count + s.free_count + s.wire_count) * page_size < 2 ^ 64)

-- If the speculative pages are among the free ones, and the pages that are active, wired or free
-- fit the widths, then the used memory is the active and the wired, the available memory is the
-- active and the free with the speculative pages, and so the available and the wired memory are the
-- used, the free and the speculative.
memory_of-Fits :
    (page_size total : ℕ) (s : VmStatistics)
    → Fits page_size s
    → let m = memory_of page_size total s in
      (m.used ≡ m.active + m.wire)
      × (m.available ≡ m.active + m.free + s.speculative_count * page_size)
      × (m.available + m.wire ≡ m.used + m.free + s.speculative_count * page_size)
memory_of-Fits page_size total s h =
    let split : s.free_count ≡ (s.free_count - s.speculative_count) + s.speculative_count =
      omega arith in
    let all_parts = add-mul (s.active_count + s.free_count) s.wire_count page_size in
    let available = add-mul s.active_count s.free_count page_size in
    let used = add-mul s.active_count s.wire_count page_size in
    let free =
      ap (λ n. n * page_size) split
      ∙ add-mul (s.free_count - s.speculative_count) s.speculative_count page_size in
    let used_fits : (s.active_count + s.wire_count) % 2 ^ 32 ≡ s.active_count + s.wire_count =
      omega arith in
    let available_fits : (s.active_count + s.free_count) % 2 ^ 32 ≡ s.active_count + s.free_count =
      omega arith in
    let free_fits : (s.free_count + 2 ^ 32 - s.speculative_count) % 2 ^ 32
        ≡ s.free_count - s.speculative_count =
      omega arith in
    rw (used_fits, available_fits, free_fits) (omega arith, omega arith, omega arith)
