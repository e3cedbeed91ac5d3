-- ===== src/Examples/Regions.antt =====
-- Addresses, pages and regions.
use mathlib.Core.Logic.{◌↔◌}
use rp4os.Base.{ℕ, ◌+◌, ◌-◌, ◌*◌, ◌%◌, ◌^◌, ◌≤◌, ◌<◌, ◌≡◌, refl, true, arith, some, ◌==◌}
use rp4os.Base.Outcome.{ok}
use rp4os.Memory.Align.{is_aligned, align_down, align_up}
use rp4os.Memory.Align.Laws.{align_neighbours}
use rp4os.Memory.Address.{ms_kernel}
use rp4os.Mmu.Region.{checked_offset, forward_checked, overlaps, take_first_n_pages}
use rp4os.Mmu.Region.Overlap.{Shared, overlaps-Shared}
use rp4os.Mmu.Region.Split.{take_first_negative}
use rp4os.Examples.{region, mmio_region, mmio_region-IsRegion}

align_neighbours_example :
    (lo hi : ℕ) × (align_down 1000 (2 ^ 4) ≡ ok lo)
    × (align_up 1000 (2 ^ 4) ≡ ok hi)
    × (lo % 2 ^ 4 ≡ 0)
    × (hi % 2 ^ 4 ≡ 0)
    × (lo ≤ 1000)
    × (1000 < lo + 2 ^ 4)
    × (1000 ≤ hi)
    × (hi < 1000 + 2 ^ 4)
    × (is_aligned 1000 (2 ^ 4) ≡ ok (lo == hi))
align_neighbours_example = align_neighbours 1000 4 (omega arith) (omega arith)

four_forward : forward_checked (3 * ms_kernel) 4 ≡ some (7 * ms_kernel)
unfolding forward_checked checked_offset
four_forward = refl

-- Pages 10 to 20 share pages 16 to 20 with the MMIO region.
overlaps-Shared_example :
    (overlaps mmio_region (region 10 10) ≡ ok true) ↔ Shared mmio_region (region 10 10)
overlaps-Shared_example =
    overlaps-Shared mmio_region (region 10 10) mmio_region-IsRegion
      (record {
        start_aligned = refl;
        end_aligned = refl;
        ordered = omega arith;
        end_fits = omega arith;
      })
      (omega arith) (λ e. omega (arith, e.1))

-- The pattern of -2: the region handed out ends two pages before it starts.
take_first_negative_example : take_first_n_pages (2 ^ 64 - 2) mmio_region ≡ (
  ok (record { start_page = 16 * ms_kernel; end_page_exclusive = 14 * ms_kernel }),
  record { start_page = 14 * ms_kernel; end_page_exclusive = 144 * ms_kernel },
)
take_first_negative_example =
    take_first_negative mmio_region (2 ^ 64 - 2) mmio_region-IsRegion 2 (omega arith) (omega arith)
      refl
