-- ===== src/Main/Reaching.antt =====
-- The memory of `kernel_init` of kernel/main.rs: the allocator's pool, and what the tables translate
-- once the binary and the devices are mapped.
use rp4os.Base.{ℕ, ◌+◌, ◌-◌, ◌*◌, ◌%◌, ◌≤◌, ◌<◌, ◌≡◌, refl, ap, ◌∙◌, true, false, arith, some}
use rp4os.Base.Outcome.{ok}
use rp4os.Registers.{Tock}
use rp4os.Memory.Address.{ms_kernel, ms_512_mib}
use rp4os.Sync.{Machine}
use rp4os.Sync.Locks.{lock-ok}
use rp4os.Bsp.Layout.{LinkerSymbols, virt_mmio_remap_region}
use rp4os.Mmu.Region.{MemoryRegion, IsRegion, pages}
use rp4os.Mmu.PageAlloc.{PageAllocator}
use rp4os.Mmu.PageAlloc
use rp4os.Mmu.Table.{TranslationTable, phys_base_address}
use rp4os.Mmu.Table.Mapping.{within}
use rp4os.Mmu.Table.Walk.{Running, walk, walk_lem, target}
use rp4os.Mmu.Kernel.{KernelMmu, num_tables, on_allocator, kernel_init_mmio_va_allocator}
use rp4os.Mmu.Kernel.Mmio.{with_allocator}
use rp4os.Mmu.Kernel.Sections.{section, IsLayout, section-IsRegion, section_lem}
use rp4os.Mmu.Kernel.Section.{Free, Laying}
use rp4os.Mmu.Kernel.Binary.{binary_space, in_binary, binary-target}
use rp4os.Board.{Board}
use rp4os.Board.Init.{core_with}
use rp4os.Board.Mappings.{devices_space, devices-mapped, DevicesMapped}

abbrev pub with_pool : MemoryRegion → KernelMmu → KernelMmu
with_pool pool mmu = record mmu { mmio_va_allocator = record { pool = some pool } }

module _ (tock : Tock) (ld : LinkerSymbols) (laid : IsLayout ld) where
  abbrev pub remap_section : MemoryRegion
  remap_section = section ld.mmio_remap_start ld.mmio_remap_end_exclusive

  pub remap-IsRegion : IsRegion remap_section
  remap-IsRegion =
      section-IsRegion ld.mmio_remap_start ld.mmio_remap_end_exclusive laid.mmio_remap laid.in_space

  remap_lem : virt_mmio_remap_region ld ≡ ok remap_section
  unfolding virt_mmio_remap_region
  remap_lem =
      section_lem ld.mmio_remap_start ld.mmio_remap_end_exclusive laid.mmio_remap laid.in_space

  -- A new allocator gets the MMIO region as its pool.
  pub pool_given :
      (m : Machine KernelMmu)
      → m.shared.mmio_va_allocator ≡ PageAlloc.new
      → kernel_init_mmio_va_allocator ld m
        ≡ (ok tt, with_allocator m (record { pool = some remap_section }))
  unfolding kernel_init_mmio_va_allocator PageAlloc.init PageAlloc.new
  pool_given m fresh = rw remap_lem (
      lock-ok (on_allocator (λ allocator. (ok tt, PageAlloc.init remap_section allocator))) tt
        (record m.shared { mmio_va_allocator = record { pool = some remap_section } }) m
        (ap
          (λ (a : PageAllocator).
            (ok tt, record m.shared { mmio_va_allocator = PageAlloc.init remap_section a }))
          fresh))

  -- The MMIO region is not part of the binary.
  pub remap-Free : Free remap_section (binary_space ld)
  remap-Free page from to = ground (
    arith, laid.stack_code, laid.code.full, laid.code_data, laid.data_section.full, laid.data_heap,
    laid.heap.full, laid.heap_mmio,
  )

  below_remap : (va : ℕ) → in_binary ld va ≡ true → va < ld.mmio_remap_start
  below_remap va hit = ground (
    arith, laid.stack_code, laid.code.full, laid.code_data, laid.data_section.full, laid.data_heap,
    laid.heap.full, laid.heap_mmio,
  )

  binary-kept :
      (va : ℕ)
      → in_binary ld va ≡ true
      → target tock num_tables
          (devices_space (binary_space ld) remap_section (va - va % ms_kernel))
          va
        ≡ some va
  binary-kept va hit =
      let low : va < ld.mmio_remap_start = below_remap va hit in
      let in_space : va < num_tables * ms_512_mib =
        omega (arith, laid.in_space, laid.mmio_remap.full) in
      let miss : within ld.mmio_remap_start 1 (va - va % ms_kernel) ≡ false = ground arith in
      let miss' : within (ld.mmio_remap_start + ms_kernel) 1 (va - va % ms_kernel) ≡ false =
        ground arith in
      rw (miss', miss) (binary-target tock ld laid va in_space ∙ rw hit refl)

  -- Once the binary and the devices are mapped, the binary is still where it was.
  pub binary-reached :
      (base : ℕ) (table : TranslationTable)
      → Running tock num_tables base (devices_space (binary_space ld) remap_section) table
      → (va : ℕ) → in_binary ld va ≡ true
      → walk tock num_tables (phys_base_address num_tables base) base table va ≡ some va
  binary-reached base table run va hit =
      walk_lem tock num_tables base (devices_space (binary_space ld) remap_section) table run va
        (omega (arith, below_remap va hit, laid.in_space, laid.mmio_remap.full))
      ∙ binary-kept va hit

  -- With at least two pages of MMIO region, the devices can be mapped after the binary.
  pub devices-laid :
      (two_pages : 2 ≤ pages remap_section) (b : Machine Board) (mmu : KernelMmu) (base : ℕ)
      (m : Machine KernelMmu)
      → Laying tock base (binary_space ld) 16 m (core_with b mmu)
      → (k1 k2 k3 k4 : KernelMmu) × DevicesMapped tock b base 14
          (binary_space ld)
          remap_section
          remap-IsRegion
          two_pages
          laid.in_space
          remap-Free
          (with_pool remap_section mmu)
          k1
          k2
          k3
          k4
  devices-laid two_pages b mmu base m l =
      devices-mapped tock b base 14 (binary_space ld) remap_section remap-IsRegion two_pages
        laid.in_space remap-Free (core_with b (with_pool remap_section mmu))
        (with_pool remap_section mmu)
        (record {
          ready = record {
            init_phase = l.ready.init_phase;
            masked = l.ready.masked;
            initialized = l.ready.initialized;
            records = l.ready.records;
          };
          slots_left = l.slots_left;
          no_device = l.no_device;
          run = l.run;
          rest_same = refl;
        })
        refl
