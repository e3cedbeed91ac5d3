-- ===== src/Mmu/Kernel/Sections.antt =====
-- The memory layout that src/bsp/kernel.ld lays out, within the kernel's address space.
use rp4os.Base.{ℕ, ◌*◌, ◌%◌, ◌≤◌, ◌<◌, ◌≡◌, arith}
use rp4os.Base.Outcome.{ok}
use rp4os.Memory.Address.{ms_kernel, ms_512_mib}
use rp4os.Bsp.Layout.{LinkerSymbols, region_between}
use rp4os.Bsp.Layout.Regions.{region_between_lem}
use rp4os.Mmu.Region.{MemoryRegion, IsRegion}
use rp4os.Mmu.Kernel.{num_tables}

abbrev pub section : ℕ → ℕ → MemoryRegion
section start end = record { start_page = start; end_page_exclusive = end }

-- The linker places a section on whole pages, and never an empty one.
pub record IsSection (start end : ℕ) : Type 0 where
  pub start_aligned : start % ms_kernel ≡ 0
  pub end_aligned : end % ms_kernel ≡ 0
  pub full : start < end

-- The sections in the order of the linker script, within the kernel's address space.
pub record IsLayout (ld : LinkerSymbols) : Type 0 where
  pub stack : IsSection ld.boot_core_stack_start ld.boot_core_stack_end_exclusive
  pub code : IsSection ld.code_start ld.code_end_exclusive
  pub data_section : IsSection ld.data_start ld.data_end_exclusive
  pub heap : IsSection ld.heap_start ld.heap_end_exclusive
  pub mmio_remap : IsSection ld.mmio_remap_start ld.mmio_remap_end_exclusive
  pub stack_code : ld.boot_core_stack_end_exclusive ≤ ld.code_start
  pub code_data : ld.code_end_exclusive ≤ ld.data_start
  pub data_heap : ld.data_end_exclusive ≤ ld.heap_start
  pub heap_mmio : ld.heap_end_exclusive ≤ ld.mmio_remap_start
  pub in_space : ld.mmio_remap_end_exclusive ≤ num_tables * ms_512_mib

pub section-IsRegion :
    (start end : ℕ)
    → IsSection start end
    → end ≤ num_tables * ms_512_mib
    → IsRegion (section start end)
section-IsRegion start end s low = record {
  start_aligned = s.start_aligned;
  end_aligned = s.end_aligned;
  ordered = omega (arith, s.full);
  end_fits = omega arith;
}

pub section_lem :
    (start end : ℕ)
    → IsSection start end
    → end ≤ num_tables * ms_512_mib
    → region_between start end ≡ ok (section start end)
section_lem start end s low =
    region_between_lem start end s.start_aligned s.end_aligned s.full (omega arith)

module _ (ld : LinkerSymbols) (laid : IsLayout ld) where
  pub stack_low : ld.boot_core_stack_end_exclusive ≤ num_tables * ms_512_mib
  stack_low = omega (
    arith, laid.stack_code, laid.code.full, laid.code_data, laid.data_section.full, laid.data_heap,
    laid.heap.full, laid.heap_mmio, laid.mmio_remap.full, laid.in_space,
  )

  pub code_low : ld.code_end_exclusive ≤ num_tables * ms_512_mib
  code_low = omega (
    arith, laid.code_data, laid.data_section.full, laid.data_heap, laid.heap.full, laid.heap_mmio,
    laid.mmio_remap.full, laid.in_space,
  )

  pub data_low : ld.data_end_exclusive ≤ num_tables * ms_512_mib
  data_low =
      omega
        (arith, laid.data_heap, laid.heap.full, laid.heap_mmio, laid.mmio_remap.full, laid.in_space)

  pub heap_low : ld.heap_end_exclusive ≤ num_tables * ms_512_mib
  heap_low = omega (arith, laid.heap_mmio, laid.mmio_remap.full, laid.in_space)
