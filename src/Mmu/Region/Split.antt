-- ===== src/Mmu/Region/Split.antt =====
-- `take_first_n_pages`: the region is cut in two, or left as it is.
use rp4os.Base.{ℕ, ◌+◌, ◌-◌, ◌*◌, ◌^◌, ◌≤◌, ◌<◌, ◌≡◌, ltb, if◌then◌else◌, u64_mod, arith}
use rp4os.Base.Outcome.{ok, err}
use rp4os.Memory.Address.{ms_kernel}
use rp4os.Mmu.Region.{
  MemoryRegion, IsRegion, pages, take_first_n_pages, size, num_pages, steps_between,
}
use rp4os.Mmu.Region.Offsets.{checked_offset_forward, checked_offset_negative}

pub num_pages_lem : (region : MemoryRegion) → IsRegion region → num_pages region ≡ ok (pages region)
unfolding num_pages steps_between
num_pages_lem region r = ground (arith, r.ordered, r.end_fits)

pub size_lem : (region : MemoryRegion) → IsRegion region → size region ≡ pages region * ms_kernel
unfolding size
size_lem region r = omega (arith, r.start_aligned, r.end_aligned, r.ordered, r.end_fits)

abbrev pub left_part : ℕ → MemoryRegion → MemoryRegion
left_part n region = record region { end_page_exclusive = region.start_page + n * ms_kernel }

abbrev pub right_part : ℕ → MemoryRegion → MemoryRegion
right_part n region = record region { start_page = region.start_page + n * ms_kernel }

module _ (region : MemoryRegion) (n : ℕ) (r : IsRegion region) where
  -- A number of pages below 2 ^ 63 that the region has is handed out from its front, and the
  -- region keeps the rest.
  pub take_first_success :
      n < 2 ^ 63
      → n ≤ pages region
      → take_first_n_pages n region ≡ (ok (left_part n region), right_part n region)
  unfolding take_first_n_pages
  take_first_success small room = ground (
    arith,
    checked_offset_forward region.start_page n,
    r.ordered,
    r.end_fits,
    r.start_aligned,
    r.end_aligned,
  )

  pub take_first_failure :
      n < 2 ^ 63
      → pages region < n
      → take_first_n_pages n region ≡ (
        err (
            if ltb (region.start_page + n * ms_kernel) u64_mod
            then "Not enough free pages"
            else "Overflow while calculating left_end_exclusive"),
        region,
      )
  unfolding take_first_n_pages
  take_first_failure small short = ground (
    arith,
    checked_offset_forward region.start_page n,
    r.ordered,
    r.end_fits,
    r.start_aligned,
    r.end_aligned,
  )

  pub parts-IsRegion :
      n ≤ pages region → IsRegion (left_part n region) × IsRegion (right_part n region)
  parts-IsRegion room = omega (arith, r.ordered, r.end_fits, r.start_aligned, r.end_aligned)

  -- A count from 2 ^ 63 on is cast to a negative `isize`: with room below the region, the call
  -- succeeds, hands out a region that ends before it starts, and grows the free region downwards.
  pub take_first_negative :
      (k : ℕ)
      → 0 < k
      → k * ms_kernel ≤ region.start_page
      → n ≡ u64_mod - k
      → take_first_n_pages n region ≡ (
        ok (record region { end_page_exclusive = region.start_page - k * ms_kernel }),
        record region { start_page = region.start_page - k * ms_kernel },
      )
  unfolding take_first_n_pages
  take_first_negative k pos room e =
      rw e (ground (arith, checked_offset_negative region.start_page k, r.ordered, r.end_fits))
