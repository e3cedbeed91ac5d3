-- ===== src/Mmu/Region/Descriptors.antt =====
-- The pages of a device, from its descriptor.
use rp4os.Base.{ℕ, ◌+◌, ◌-◌, ◌%◌, ◌≤◌, ◌<◌, ◌≡◌, refl, arith, u64_mod}
use rp4os.Base.Outcome.{ok}
use rp4os.Memory.Align.Laws.{align_up-pow}
use rp4os.Memory.Address.{ms_kernel, align_up_page}
use rp4os.Mmu.Region.{MemoryRegion, MmioDescriptor, IsRegion, region_from_descriptor}
use rp4os.Mmu.Region.Overlap.{align_down_page_lem, page_from_address_lem}

abbrev pub down : ℕ → ℕ
down addr = addr - addr % ms_kernel

abbrev pub up : ℕ → ℕ
up addr = down (addr + (ms_kernel - 1))

pub align_up_page_lem :
    (addr : ℕ) → addr + (ms_kernel - 1) < u64_mod → align_up_page addr ≡ ok (up addr)
unfolding align_up_page
align_up_page_lem addr fits = align_up-pow addr 16 fits (omega arith)

pub region_from_descriptor_lem :
    (desc : MmioDescriptor)
    → desc.start_addr < u64_mod
    → desc.end_addr_exclusive + (ms_kernel - 1) < u64_mod
    → region_from_descriptor desc
      ≡ ok (record {
        start_page = down desc.start_addr;
        end_page_exclusive = up desc.end_addr_exclusive;
      })
unfolding region_from_descriptor
region_from_descriptor_lem desc low high =
    rw
      (
        align_down_page_lem desc.start_addr low,
        page_from_address_lem (down desc.start_addr) (omega arith),
        align_up_page_lem desc.end_addr_exclusive high,
        page_from_address_lem (up desc.end_addr_exclusive) (omega arith),
      )
      refl

-- A descriptor whose registers end at least one page below 2 ^ 64 becomes the smallest region of
-- whole pages that holds them.
pub region_from_descriptor-covers :
    (desc : MmioDescriptor)
    → desc.start_addr ≤ desc.end_addr_exclusive
    → desc.end_addr_exclusive + (ms_kernel - 1) < u64_mod
    → (region : MemoryRegion) × (region_from_descriptor desc ≡ ok region)
      × IsRegion region
      × (region.start_page ≤ desc.start_addr)
      × (desc.start_addr < region.start_page + ms_kernel)
      × (desc.end_addr_exclusive ≤ region.end_page_exclusive)
      × (region.end_page_exclusive < desc.end_addr_exclusive + ms_kernel)
region_from_descriptor-covers desc ordered high = (
  record { start_page = down desc.start_addr; end_page_exclusive = up desc.end_addr_exclusive },
  region_from_descriptor_lem desc (omega arith) high,
  record {
    start_aligned = omega arith;
    end_aligned = omega arith;
    ordered = omega arith;
    end_fits = omega arith;
  },
  omega arith,
  omega arith,
  omega arith,
  omega arith,
)
