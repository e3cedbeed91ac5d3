-- ===== src/Mmu/Kernel/MapAt.antt =====
-- The guard of `kernel_map_at` against manual mappings into the MMIO region.
use rp4os.Base.{◌<◌, ◌≡◌, refl, String}
use rp4os.Base.Outcome.{ok, err}
use rp4os.Registers.{Tock}
use rp4os.Sync.{Machine}
use rp4os.Bsp.Layout.{LinkerSymbols, virt_mmio_remap_region}
use rp4os.Mmu.Region.{MemoryRegion, IsRegion}
use rp4os.Mmu.Region.Overlap.{
  Shared, Encloses, overlaps-Shared, overlaps_misses_enclosing, overlaps_apart,
}
use rp4os.Mmu.Descriptor.{AttributeFields}
use rp4os.Mmu.Kernel.{KernelMmu, kernel_map_at, kernel_map_at_unchecked}

module _ (tock : Tock) (ld : LinkerSymbols) (remap : MemoryRegion) (r : IsRegion remap)
    (layout : virt_mmio_remap_region ld ≡ ok remap) (name : String)
    (virt_region phys_region : MemoryRegion) (v : IsRegion virt_region)
    (full : virt_region.start_page < virt_region.end_page_exclusive) (attr : AttributeFields)
    (m : Machine KernelMmu) where
  -- Whatever the state, a non-empty region that shares a page with the MMIO region, as the
  -- linker lays it out, and does not enclose it on both sides, is refused, and nothing changes.
  pub kernel_map_at_refuses :
      Shared remap virt_region
      → ¬ Encloses virt_region remap
      → kernel_map_at tock ld name virt_region phys_region attr m
        ≡ (err "Attempt to manually map into MMIO region", m)
  unfolding kernel_map_at
  kernel_map_at_refuses shared open_side =
      let hit = (overlaps-Shared remap virt_region r v full open_side).1 shared in
      rw (layout, hit) refl

  -- A region that shares no page with the MMIO region is mapped without further checks.
  pub kernel_map_at_passes :
      ¬ Shared remap virt_region
      → kernel_map_at tock ld name virt_region phys_region attr m
        ≡ kernel_map_at_unchecked tock name virt_region phys_region attr m
  unfolding kernel_map_at
  kernel_map_at_passes apart = rw (layout, overlaps_apart remap virt_region r v full apart) refl

  -- A region that encloses the MMIO region on both sides passes the guard, although it covers
  -- all of it, if the MMIO region is not empty.
  pub kernel_map_at_enclosing :
      remap.start_page < remap.end_page_exclusive
      → Encloses virt_region remap
      → (kernel_map_at tock ld name virt_region phys_region attr m
          ≡ kernel_map_at_unchecked tock name virt_region phys_region attr m)
        × Shared remap virt_region
  unfolding kernel_map_at
  kernel_map_at_enclosing full' e =
      let (miss, shared) = overlaps_misses_enclosing remap virt_region r v full full' e in
      (rw (layout, miss) refl, shared)
