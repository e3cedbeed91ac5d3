-- ===== src/Bsp/Layout.antt =====
-- The memory layout of src/bsp/memory/mod.rs and src/bsp/memory/mmu.rs. The linker's symbols are
-- a parameter.
pub mod Regions
use rp4os.Base.{ℕ, ◌-◌, ◌*◌, ◌/◌, ◌%◌, ◌^◌, Bool, ltb, ◌==◌, wrapping_sub}
use rp4os.Base.Outcome.{Outcome, ok, assert, unwrap, ◌>>=◌, ◌>>◌}
use rp4os.Memory.Address.{ms_kernel, granule_shift}
use rp4os.Mmu.Region.{MemoryRegion, page_from_usize, checked_offset, new}

pub record LinkerSymbols : Type 0 where
  pub code_start : ℕ
  pub code_end_exclusive : ℕ
  pub data_start : ℕ
  pub data_end_exclusive : ℕ
  pub heap_start : ℕ
  pub heap_end_exclusive : ℕ
  pub mmio_remap_start : ℕ
  pub mmio_remap_end_exclusive : ℕ
  pub boot_core_stack_start : ℕ
  pub boot_core_stack_end_exclusive : ℕ

unfoldable pub size_to_num_pages : ℕ → Outcome ℕ
size_to_num_pages size = do
  assert (ltb 0 size) "assertion failed: size > 0"
  assert (size % ms_kernel == 0) "assertion failed: size % MSKernel::SIZE == 0"
  ok (size / 2 ^ granule_shift ms_kernel)

-- The body that the five region functions share: the pages of the section, its start page, the
-- end page, and the region.
unfoldable pub region_between : ℕ → ℕ → Outcome MemoryRegion
unfolding size_to_num_pages
region_between start end_exclusive = do
  num_pages ← size_to_num_pages (wrapping_sub end_exclusive start)
  start_page_addr ← page_from_usize start
  end_exclusive_page_addr ←
      unwrap (checked_offset start_page_addr num_pages)
        "called `Option::unwrap()` on a `None` value"
  new start_page_addr end_exclusive_page_addr

module _ (ld : LinkerSymbols) where
  unfoldable pub virt_heap_region : Outcome MemoryRegion
  virt_heap_region = region_between ld.heap_start ld.heap_end_exclusive

  unfoldable pub virt_code_region : Outcome MemoryRegion
  virt_code_region = region_between ld.code_start ld.code_end_exclusive

  unfoldable pub virt_data_region : Outcome MemoryRegion
  virt_data_region = region_between ld.data_start ld.data_end_exclusive

  unfoldable pub virt_boot_core_stack_region : Outcome MemoryRegion
  virt_boot_core_stack_region =
      region_between ld.boot_core_stack_start ld.boot_core_stack_end_exclusive

  unfoldable pub virt_mmio_remap_region : Outcome MemoryRegion
  virt_mmio_remap_region = region_between ld.mmio_remap_start ld.mmio_remap_end_exclusive

-- The binary is identity mapped.
unfoldable pub kernel_virt_to_phys_region : MemoryRegion → Outcome MemoryRegion
kernel_virt_to_phys_region virt_region = do
  start ← page_from_usize virt_region.start_page
  end ← page_from_usize virt_region.end_page_exclusive
  new start end
