-- ===== src/Mmu/Kernel/Binary.antt =====
-- `kernel_map_binary` of src/memory/mmu/mod.rs and src/bsp/memory/mmu.rs on the memory layout that
-- src/bsp/kernel.ld lays out.
use rp4os.Base.{
  ℕ, suc, [], ◌+◌, ◌-◌, ◌*◌, ◌/◌, ◌%◌, ◌^◌, ◌≤◌, ◌<◌, ◌≡◌, refl, ◌∙◌, Bool, true, false, arith, ltb,
  leb, ◌&&◌, ◌||◌, Bool-cases, inl, inr, if◌then◌else◌, some, none, String,
}
use rp4os.Base.Outcome.{ok}
use rp4os.Registers.{Tock}
use rp4os.Memory.Address.{ms_kernel, ms_512_mib}
use rp4os.Sync.{Machine}
use rp4os.Sync.Locks.{Starting}
use rp4os.Bsp.Layout.{
  LinkerSymbols, virt_heap_region, virt_code_region, virt_data_region, virt_boot_core_stack_region,
  virt_mmio_remap_region,
}
use rp4os.Bsp.Layout.Regions.{kernel_virt_to_phys_region_lem}
use rp4os.Mmu.Region.{MemoryRegion}
use rp4os.Mmu.Descriptor.{AttributeFields, cacheable_dram, read_only, read_write}
use rp4os.Mmu.Table.{init, new, phys_base_address}
use rp4os.Mmu.Table.Space.{Space}
use rp4os.Mmu.Table.Walk.{Running, init-Running, walk, walk_lem, target}
use rp4os.Mmu.Records.{empty, max_mappings}
use rp4os.Mmu.Records.Adding.{IsRecords}
use rp4os.Mmu.Kernel.{
  KernelMmu, num_tables, kernel_map_at, kernel_map_binary, bsp_kernel_map_binary, init_tables,
  on_tables,
}
use rp4os.Mmu.Kernel.Setup.{write_ready, with_tables}
use rp4os.Mmu.Kernel.Sections.{
  section, IsSection, IsLayout, section-IsRegion, section_lem, stack_low, code_low, data_low,
  heap_low,
}
use rp4os.Mmu.Kernel.Section.{identity, Free, Laying, kernel_map_at-Laying}

abbrev pub data_attributes : AttributeFields
data_attributes = record {
  mem_attributes = cacheable_dram;
  acc_perms = read_write;
  executable = false;
}

abbrev pub code_attributes : AttributeFields
code_attributes = record {
  mem_attributes = cacheable_dram;
  acc_perms = read_only;
  executable = true;
}

abbrev pub between : ℕ → ℕ → ℕ → Bool
between start end addr = leb start addr && ltb addr end

or-false : (b : Bool) → (b || false) ≡ b
or-false true = refl
or-false false = refl

module _ (ld : LinkerSymbols) where
  abbrev pub stack_section : MemoryRegion
  stack_section = section ld.boot_core_stack_start ld.boot_core_stack_end_exclusive

  abbrev pub heap_section : MemoryRegion
  heap_section = section ld.heap_start ld.heap_end_exclusive

  abbrev code_section : MemoryRegion
  code_section = section ld.code_start ld.code_end_exclusive

  abbrev data_section : MemoryRegion
  data_section = section ld.data_start ld.data_end_exclusive

  abbrev with_stack : Space
  with_stack = identity stack_section data_attributes (λ page. none)

  abbrev with_heap : Space
  with_heap = identity heap_section data_attributes with_stack

  abbrev with_code : Space
  with_code = identity code_section code_attributes with_heap

  -- The four sections, each page at its own address.
  abbrev pub binary_space : Space
  binary_space = identity data_section data_attributes with_code

  -- The addresses of the four sections.
  abbrev pub in_binary : ℕ → Bool
  in_binary addr =
      between ld.data_start ld.data_end_exclusive addr
      || (between ld.code_start ld.code_end_exclusive addr
          || (between ld.heap_start ld.heap_end_exclusive addr
              || between ld.boot_core_stack_start ld.boot_core_stack_end_exclusive addr))

module _ (tock : Tock) (ld : LinkerSymbols) (laid : IsLayout ld) where
  -- One of the four sections.
  map_section :
      (name : String) (start end : ℕ)
      → IsSection start end
      → end ≤ num_tables * ms_512_mib
      → end ≤ ld.mmio_remap_start
      → (attr : AttributeFields) → attr.mem_attributes ≡ cacheable_dram
      → (base : ℕ) (space : Space) (k : ℕ) (m now : Machine KernelMmu)
      → Laying tock base space (suc k) m now
      → Free (section start end) space
      → (after : Machine KernelMmu) × (kernel_map_at tock ld name
            (section start end)
            (section start end)
            attr
            now
          ≡ (ok tt, after))
        × Laying tock base (identity (section start end) attr space) k m after
  unfolding virt_mmio_remap_region
  map_section name start end s low below attr dram base space k m now l free =
      kernel_map_at-Laying tock ld (section ld.mmio_remap_start ld.mmio_remap_end_exclusive)
        (section-IsRegion ld.mmio_remap_start ld.mmio_remap_end_exclusive laid.mmio_remap
          laid.in_space)
        (section_lem ld.mmio_remap_start ld.mmio_remap_end_exclusive laid.mmio_remap laid.in_space)
        (omega (arith, laid.mmio_remap.full, laid.in_space)) name (section start end)
        (section-IsRegion start end s low) s.full below attr dram base space k m now l free

  heap_free : Free (heap_section ld) (with_stack ld)
  heap_free page from to = ground (
    arith, laid.stack_code, laid.code.full, laid.code_data, laid.data_section.full, laid.data_heap,
  )

  code_free : Free (code_section ld) (with_heap ld)
  code_free page from to =
      ground (arith, laid.stack_code, laid.code_data, laid.data_section.full, laid.data_heap)

  data_free : Free (data_section ld) (with_code ld)
  data_free page from to =
      ground (arith, laid.stack_code, laid.code.full, laid.code_data, laid.data_heap)

  bsp_kernel_map_binary-Laying :
      (base : ℕ) (m now : Machine KernelMmu)
      → Laying tock base (λ page. none) 20 m now
      → (after : Machine KernelMmu) × (bsp_kernel_map_binary tock ld now ≡ (ok tt, after))
        × Laying tock base (binary_space ld) 16 m after
  unfolding bsp_kernel_map_binary virt_heap_region virt_code_region virt_data_region
      virt_boot_core_stack_region
  bsp_kernel_map_binary-Laying base m now l =
      let below_stack : ld.boot_core_stack_end_exclusive ≤ ld.mmio_remap_start = omega (
        arith, laid.stack_code, laid.code.full, laid.code_data, laid.data_section.full,
        laid.data_heap, laid.heap.full, laid.heap_mmio,
      ) in
      let (m1, e1, l1) =
        map_section "Kernel boot-core stack" ld.boot_core_stack_start
          ld.boot_core_stack_end_exclusive laid.stack (stack_low ld laid) below_stack
          data_attributes refl base (λ page. none) 19 m now l (λ page from to. refl) in
      let (m2, e2, l2) =
        map_section "Kernel heap" ld.heap_start ld.heap_end_exclusive laid.heap (heap_low ld laid)
          laid.heap_mmio data_attributes refl base (with_stack ld) 18 m m1 l1 heap_free in
      let (m3, e3, l3) =
        map_section "Kernel code and RO data" ld.code_start ld.code_end_exclusive laid.code
          (code_low ld laid)
          (omega (
            arith, laid.code_data, laid.data_section.full, laid.data_heap, laid.heap.full,
            laid.heap_mmio,
          ))
          code_attributes refl base (with_heap ld) 17 m m2 l2 code_free in
      let (m4, e4, l4) =
        map_section "Kernel data and bss" ld.data_start ld.data_end_exclusive laid.data_section
          (data_low ld laid) (omega (arith, laid.data_heap, laid.heap.full, laid.heap_mmio))
          data_attributes refl base (with_code ld) 16 m m3 l3 data_free in
      (
        m4,
        rw
            (
              section_lem ld.boot_core_stack_start ld.boot_core_stack_end_exclusive laid.stack
                  (stack_low ld laid),
              kernel_virt_to_phys_region_lem (stack_section ld) (
                  section-IsRegion ld.boot_core_stack_start ld.boot_core_stack_end_exclusive
                    laid.stack (stack_low ld laid)),
              e1,
              section_lem ld.heap_start ld.heap_end_exclusive laid.heap (heap_low ld laid),
              kernel_virt_to_phys_region_lem (heap_section ld) (
                  section-IsRegion ld.heap_start ld.heap_end_exclusive laid.heap
                    (heap_low ld laid)),
              e2,
              section_lem ld.code_start ld.code_end_exclusive laid.code (code_low ld laid),
              kernel_virt_to_phys_region_lem (code_section ld) (
                  section-IsRegion ld.code_start ld.code_end_exclusive laid.code
                    (code_low ld laid)),
              e3,
              section_lem ld.data_start ld.data_end_exclusive laid.data_section (data_low ld laid),
              kernel_virt_to_phys_region_lem (data_section ld) (
                  section-IsRegion ld.data_start ld.data_end_exclusive laid.data_section
                    (data_low ld laid)),
            )
            e4,
        l4,
      )

  -- After `init` of the tables at the base.
  abbrev linked : ℕ → Machine KernelMmu → Machine KernelMmu
  linked base m = with_tables m (init tock base m.shared.tables)

  linked-Laying :
      (base : ℕ) (m : Machine KernelMmu)
      → Starting m
      → m.shared.tables ≡ new num_tables
      → m.shared.records ≡ empty
      → base % ms_kernel ≡ 0
      → base + num_tables * ms_kernel ≤ 2 ^ 48
      → Laying tock base (λ page. none) 20 m (linked base m)
  unfolding empty
  linked-Laying base m starting fresh records aligned fits =
      let run : Running tock num_tables base (λ page. none) (init tock base m.shared.tables) =
        rw fresh (init-Running tock num_tables base aligned fits) in
      let no_records : IsRecords m.shared.records = record {
        entries = [];
        free = max_mappings;
        shape = records;
        capacity = refl;
        sorted = tt;
      } in
      record {
        ready = record {
          init_phase = starting.0;
          masked = starting.1;
          initialized = run.ready;
          records = no_records;
        };
        slots_left = refl;
        no_device = λ q. tt;
        run = run;
        rest_same = refl;
      }

  -- An address lies in a section exactly when its page does.
  section_page :
      (start end va : ℕ)
      → IsSection start end
      → (leb start (va - va % ms_kernel) && ltb (va - va % ms_kernel) end) ≡ between start end va
  section_page start end va s = ground (arith, s.start_aligned, s.end_aligned)

  identity-target :
      (region : MemoryRegion) (attr : AttributeFields) (space : Space) (rest : Bool) (va : ℕ)
      → IsSection region.start_page region.end_page_exclusive
      → va < num_tables * ms_512_mib
      → target tock num_tables (space (va - va % ms_kernel)) va ≡ (if rest then some va else none)
      → target tock num_tables (identity region attr space (va - va % ms_kernel)) va
        ≡ (if between region.start_page region.end_page_exclusive va || rest then some va else none)
  identity-target region attr space rest va s low e =
      let same_page : (va - va % ms_kernel) / 2 ^ 16 % 2 ^ 32 * ms_kernel + va % ms_kernel ≡ va =
        omega arith in
      rw (section_page region.start_page region.end_page_exclusive va s)
        (elim (Bool-cases (between region.start_page region.end_page_exclusive va)) [
          | inl hit ↦ rw (hit, same_page) refl
          | inr miss ↦ rw miss e
        ])

  pub binary-target :
      (va : ℕ)
      → va < num_tables * ms_512_mib
      → target tock num_tables (binary_space ld (va - va % ms_kernel)) va
        ≡ (if in_binary ld va then some va else none)
  binary-target va low =
      let in_stack : target tock num_tables (with_stack ld (va - va % ms_kernel)) va ≡ (
          if between ld.boot_core_stack_start ld.boot_core_stack_end_exclusive va
          then some va
          else none) =
        rw (or-false (between ld.boot_core_stack_start ld.boot_core_stack_end_exclusive va)) at (
          identity-target (stack_section ld) data_attributes (λ page. none) false va laid.stack low
            refl) in
      identity-target (data_section ld) data_attributes (with_code ld) _ va laid.data_section low (
        identity-target (code_section ld) code_attributes (with_heap ld) _ va laid.code low (
          identity-target (heap_section ld) data_attributes (with_stack ld) _ va laid.heap low
            in_stack))

  -- With the linker's sections laid out as the script does, page by page, in the order stack, code,
  -- data, heap, MMIO region, within the kernel's address space; in the init phase with IRQs
  -- masked, fresh tables at an aligned base below 2 ^ 48, and no records: the call
  -- succeeds with the address of the level 2 table, and the tables hold exactly the pages of
  -- stack, heap, code and data, each at its own address, code alone read-only and executable.
  -- The hardware that walks them from that address translates each address of the binary to itself and
  -- faults on every other that they cover. State, interrupt mask and MMIO allocator are as
  -- before.
  pub kernel_map_binary_lem :
      (base : ℕ) (m : Machine KernelMmu)
      → Starting m
      → m.shared.tables ≡ new num_tables
      → m.shared.records ≡ empty
      → base % ms_kernel ≡ 0
      → base + num_tables * ms_kernel ≤ 2 ^ 48
      → (after : Machine KernelMmu) × (kernel_map_binary tock ld base m
          ≡ (ok (phys_base_address num_tables base), after))
        × Laying tock base (binary_space ld) 16 m after
        × ((va : ℕ)
            → va < num_tables * ms_512_mib
            → walk tock num_tables (phys_base_address num_tables base) base after.shared.tables va
              ≡ (if in_binary ld va then some va else none))
  unfolding kernel_map_binary init_tables
  kernel_map_binary_lem base m starting fresh records aligned fits =
      let (after, e, l) =
        bsp_kernel_map_binary-Laying base m (linked base m)
          (linked-Laying base m starting fresh records aligned fits) in
      (
        after,
        rw (write_ready (on_tables (init_tables tock base)) m starting.0 starting.1) (rw e refl),
        l,
        λ va low.
            walk_lem tock num_tables base (binary_space ld) after.shared.tables l.run va low
            ∙ binary-target va low,
      )
