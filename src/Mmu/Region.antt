-- ===== src/Mmu/Region.antt =====
-- `PageAddress`, `MemoryRegion` and `MMIODescriptor` of src/memory/mmu/mod.rs.
-- A page address is the number inside, an `isize` is its 64-bit pattern.
pub mod Descriptors
pub mod Offsets
pub mod Overlap
pub mod Split
use rp4os.Base.{
  ℕ, ◌+◌, ◌-◌, ◌*◌, ◌/◌, ◌%◌, ◌^◌, ◌≤◌, ◌<◌, ◌≡◌, Bool, true, false, ◌&&◌, Option, none, some, ltb,
  leb, ◌==◌, if◌then◌else◌, u64_mod, wrapping_add, wrapping_sub, checked_add, checked_sub, and_then,
}
use rp4os.Base.Outcome.{Outcome, ok, err, assert, unwrap, ◌>>=◌, ◌>>◌}
use rp4os.Base.Exec.{Exec}
use rp4os.Memory.Address.{ms_kernel, granule_shift, is_page_aligned, align_down_page, align_up_page}
use rp4os.Memory.Align.{is_aligned}

-- `isize`: the patterns from 2 ^ 63 on are the negative numbers.
abbrev pub is_positive : ℕ → Bool
is_positive count = ltb 0 count && ltb count (2 ^ 63)

abbrev pub unsigned_abs : ℕ → ℕ
unsigned_abs count = if ltb count (2 ^ 63) then count else u64_mod - count

abbrev pub negate : ℕ → ℕ
negate count = (u64_mod - count) % u64_mod

abbrev pub checked_mul : ℕ → ℕ → Option ℕ
checked_mul a b = if ltb (a * b) u64_mod then some (a * b) else none

unfoldable pub checked_offset : ℕ → ℕ → Option ℕ
checked_offset page count =
    if count == 0
    then some page
    else and_then (checked_mul (unsigned_abs count) ms_kernel)
        λ delta. if is_positive count then checked_add page delta else checked_sub page delta

-- `From<usize>` and `From<Address>`.
unfoldable pub page_from_usize : ℕ → Outcome ℕ
page_from_usize addr = do
  aligned ← is_aligned addr ms_kernel
  assert aligned "Input usize not page aligned"
  ok addr

unfoldable pub page_from_address : ℕ → Outcome ℕ
page_from_address addr = do
  aligned ← is_page_aligned addr
  assert aligned "Input Address not page aligned"
  ok addr

-- `Step for PageAddress`.
unfoldable pub steps_between : ℕ → ℕ → Option ℕ
steps_between start end =
    if ltb end start then none else some (wrapping_sub end start / 2 ^ granule_shift ms_kernel)

unfoldable pub forward_checked : ℕ → ℕ → Option ℕ
forward_checked start count = checked_offset start count

unfoldable pub backward_checked : ℕ → ℕ → Option ℕ
backward_checked start count = checked_offset start (negate count)

pub record MemoryRegion : Type 0 where
  pub start_page : ℕ
  pub end_page_exclusive : ℕ

unfoldable pub new : ℕ → ℕ → Outcome MemoryRegion
new start_addr end_addr_exclusive = do
  assert (leb start_addr end_addr_exclusive) "assertion failed: start_addr <= end_addr_exclusive"
  ok (record { start_page = start_addr; end_page_exclusive = end_addr_exclusive })

-- `as_range().contains(&page)`.
unfoldable pub range_contains : MemoryRegion → ℕ → Bool
range_contains region page = leb region.start_page page && ltb page region.end_page_exclusive

unfoldable pub end_inclusive_page_addr : MemoryRegion → Outcome ℕ
end_inclusive_page_addr region =
    unwrap (checked_offset region.end_page_exclusive (negate 1))
      "called `Option::unwrap()` on a `None` value"

unfoldable pub contains : MemoryRegion → ℕ → Outcome Bool
contains region addr = do
  down ← align_down_page addr
  page_addr ← page_from_address down
  ok (range_contains region page_addr)

-- `||` does not look at the last page when the first one already lies in the range.
unfoldable pub overlaps : MemoryRegion → MemoryRegion → Outcome Bool
overlaps region other =
    if range_contains region other.start_page
    then ok true
    else do last ← end_inclusive_page_addr other; ok (range_contains region last)

unfoldable pub num_pages : MemoryRegion → Outcome ℕ
num_pages region =
    unwrap (steps_between region.start_page region.end_page_exclusive)
      "called `Option::unwrap()` on a `None` value"

unfoldable pub size : MemoryRegion → ℕ
size region = wrapping_sub region.end_page_exclusive region.start_page

-- The left part is handed out and the region keeps the right one.
unfoldable pub take_first_n_pages : ℕ → Exec MemoryRegion MemoryRegion
take_first_n_pages count region = elim (checked_offset region.start_page count) [
  | none ↦ (err "Overflow while calculating left_end_exclusive", region)
  | some left_end_exclusive ↦
      if ltb region.end_page_exclusive left_end_exclusive
      then (err "Not enough free pages", region)
      else (
        ok (record region { end_page_exclusive = left_end_exclusive }),
        record region { start_page = left_end_exclusive },
      )
]

pub record MmioDescriptor : Type 0 where
  pub start_addr : ℕ
  pub end_addr_exclusive : ℕ

unfoldable pub new_descriptor : ℕ → ℕ → Outcome MmioDescriptor
new_descriptor start_addr size = do
  assert (ltb 0 size) "assertion failed: size > 0"
  ok (record { start_addr = start_addr; end_addr_exclusive = wrapping_add start_addr size })

-- `From<MMIODescriptor> for MemoryRegion<Physical>`.
unfoldable pub region_from_descriptor : MmioDescriptor → Outcome MemoryRegion
region_from_descriptor desc = do
  down ← align_down_page desc.start_addr
  start ← page_from_address down
  up ← align_up_page desc.end_addr_exclusive
  end_exclusive ← page_from_address up
  ok (record { start_page = start; end_page_exclusive = end_exclusive })

-- What the constructors establish: both ends are page addresses, in order.
pub record IsRegion (region : MemoryRegion) : Type 0 where
  pub start_aligned : region.start_page % ms_kernel ≡ 0
  pub end_aligned : region.end_page_exclusive % ms_kernel ≡ 0
  pub ordered : region.start_page ≤ region.end_page_exclusive
  pub end_fits : region.end_page_exclusive < u64_mod

-- The number of pages, as a number.
abbrev pub pages : MemoryRegion → ℕ
pages region = (region.end_page_exclusive - region.start_page) / ms_kernel
