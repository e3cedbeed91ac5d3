-- ===== src/Bsp/Layout/Regions.antt =====
-- The region functions on a section whose ends are pages.
use rp4os.Base.{ℕ, ◌/◌, ◌-◌, ◌%◌, ◌<◌, ◌≡◌, arith, u64_mod}
use rp4os.Base.Outcome.{ok}
use rp4os.Memory.Align.Laws.{is_aligned-pow}
use rp4os.Memory.Address.{ms_kernel}
use rp4os.Mmu.Region.{MemoryRegion, IsRegion, page_from_usize, new}
use rp4os.Mmu.Region.Offsets.{checked_offset_forward}
use rp4os.Bsp.Layout.{region_between, kernel_virt_to_phys_region}

pub page_from_usize_lem : (addr : ℕ) → addr % ms_kernel ≡ 0 → page_from_usize addr ≡ ok addr
unfolding page_from_usize
page_from_usize_lem addr h = ground (arith, is_aligned-pow addr 16)

-- A non-empty section between two page addresses is its region.
pub region_between_lem :
    (start end : ℕ)
    → start % ms_kernel ≡ 0
    → end % ms_kernel ≡ 0
    → start < end
    → end < u64_mod
    → region_between start end ≡ ok (record { start_page = start; end_page_exclusive = end })
unfolding region_between new
region_between_lem start end a b full fits =
    ground
      (arith, page_from_usize_lem start a, checked_offset_forward start ((end - start) / ms_kernel))

pub kernel_virt_to_phys_region_lem :
    (region : MemoryRegion) → IsRegion region → kernel_virt_to_phys_region region ≡ ok region
unfolding kernel_virt_to_phys_region new
kernel_virt_to_phys_region_lem region r = ground (
  arith,
  page_from_usize_lem region.start_page r.start_aligned,
  page_from_usize_lem region.end_page_exclusive r.end_aligned,
)
