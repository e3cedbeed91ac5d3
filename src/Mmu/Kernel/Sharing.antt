-- ===== src/Mmu/Kernel/Sharing.antt =====
-- Two drivers whose registers lie on the same pages: the first call of `kernel_map_mmio` maps the
-- pages, the second one shares the mapping.
use rp4os.Base.{
  ℕ, suc, ◌+◌, ◌*◌, ◌%◌, ◌≤◌, ◌<◌, ◌≡◌, refl, true, false, String, arith, map, some, ◌∙◌,
}
use rp4os.Base.Outcome.{ok}
use rp4os.Registers.{Tock}
use rp4os.Memory.Address.{ms_kernel, ms_512_mib}
use rp4os.Sync.{Machine}
use rp4os.Mmu.Region.{MemoryRegion, MmioDescriptor, IsRegion, pages, region_from_descriptor}
use rp4os.Mmu.Region.Split.{left_part, right_part, parts-IsRegion}
use rp4os.Mmu.Table.{TranslationTable, map_at, map_end}
use rp4os.Mmu.Table.Mapping.{Unmapped, Written, map_at_success}
use rp4os.Mmu.Records.{MappingRecordEntry}
use rp4os.Mmu.Records.Adding.{entry_of}
use rp4os.Mmu.Records.Kept.{added, added-NoneDescribes, used-NoneDescribes}
use rp4os.Mmu.Records.Users.{used, NoneDescribes, added-First, describes}
use rp4os.Mmu.Kernel.{KernelMmu, num_tables, kernel_map_mmio, device_attributes}
use rp4os.Mmu.Kernel.Setup.{Ready, with_tables, with_records, recorded}
use rp4os.Mmu.Kernel.Later.{Requests, OnPages, address_from, map_each, map_each-known}
use rp4os.Mmu.Kernel.Mmio.{
  with_allocator, address_add-offset, with_new_user, kernel_map_mmio_known, kernel_map_mmio_unknown,
  map_new_device_success,
}

module _ (tock : Tock) (name : String) (desc : MmioDescriptor) (phys pool : MemoryRegion)
    (p : IsRegion phys) (q : IsRegion pool) (from : region_from_descriptor desc ≡ ok phys)
    (m : Machine KernelMmu) (ready : Ready m)
    (has : m.shared.mmio_va_allocator ≡ record { pool = some pool }) (some_pages : 0 < pages phys)
    (room : pages phys ≤ pages pool) (low : phys.end_page_exclusive ≤ map_end)
    (inside : pool.end_page_exclusive ≤ num_tables * ms_512_mib)
    (free : Unmapped tock (pages phys) pool.start_page m.shared.tables)
    (unknown : NoneDescribes phys ready.records.entries) where
  -- The state after the pages were mapped.
  abbrev pub mapped : TranslationTable → Machine KernelMmu
  mapped tables =
      with_records
        (with_tables (with_allocator m (record { pool = some (right_part (pages phys) pool) }))
          tables)
        (recorded tock name (left_part (pages phys) pool) phys device_attributes m ready)

  same_pages : pages (left_part (pages phys) pool) ≡ pages phys
  same_pages = omega arith

  front_mapped :
      (tables : TranslationTable) × (map_at tock num_tables
          (left_part (pages phys) pool)
          phys
          device_attributes
          m.shared.tables
        ≡ (ok tt, tables))
      × Written tock num_tables device_attributes
          (pages phys)
          phys.start_page
          pool.start_page
          m.shared.tables
          tables
  front_mapped = rw same_pages at (
      map_at_success tock num_tables device_attributes (left_part (pages phys) pool) phys
        (parts-IsRegion pool (pages phys) q room).0 p m.shared.tables ready.initialized same_pages
        low (omega arith) (omega (arith, q.ordered, q.start_aligned, q.end_aligned))
        (rw same_pages free))

  -- In the init phase with IRQs masked and the tables initialized: a device of at least one
  -- page below the end of the physical address space, which no record describes, gets the front
  -- pages of the pool, mapped as device memory to its own pages, if the pool has as many, lies
  -- within the tables and these pages are unmapped. The answer is its address in the first of
  -- them. Nothing else is mapped, and the allocator keeps the rest of the pool.
  pub kernel_map_mmio_new :
      (tables : TranslationTable) × (kernel_map_mmio tock name desc m
        ≡ (ok (pool.start_page + desc.start_addr % ms_kernel), mapped tables))
      × Written tock num_tables device_attributes
          (pages phys)
          phys.start_page
          pool.start_page
          m.shared.tables
          tables
  kernel_map_mmio_new =
      let (tables, e, w) = front_mapped in
      (
        tables,
        kernel_map_mmio_unknown tock name desc phys p from m ready unknown pool.start_page
              (mapped tables)
              (map_new_device_success tock name desc phys p from m ready pool tables has q
                some_pages room e)
            ∙ rw
                (address_add-offset pool.start_page desc.start_addr q.start_aligned
                  (omega (arith, q.ordered, q.end_fits)))
                refl,
        w,
      )

  new : MappingRecordEntry
  new = entry_of name (left_part (pages phys) pool) phys device_attributes

  new-describes : describes phys new ≡ true
  unfolding new
  new-describes = ground arith

  -- The first call of a pair, with a record slot free, and the second.
  module _ (k : ℕ) (slot : ready.records.free ≡ suc k) (name' : String) (desc' : MmioDescriptor)
      (from' : region_from_descriptor desc' ≡ ok phys) where
    abbrev mapped-Ready :
        (tables : TranslationTable) → tables.initialized ≡ true → Ready (mapped tables)
    mapped-Ready tables still = record {
      init_phase = ready.init_phase;
      masked = ready.masked;
      initialized = still;
      records =
          added name (left_part (pages phys) pool) phys device_attributes m.shared.records
            ready.records k p slot;
    }

    -- What two calls for the same pages leave.
    pub record Shares (first second : Machine KernelMmu) : Type 0 where
      pub maps :
          kernel_map_mmio tock name desc m
          ≡ (ok (pool.start_page + desc.start_addr % ms_kernel), first)
      pub joins :
          kernel_map_mmio tock name' desc' first
          ≡ (ok (pool.start_page + desc'.start_addr % ms_kernel), second)
      pub tables_kept : second.shared.tables ≡ first.shared.tables
      pub rest_of_pool :
          second.shared.mmio_va_allocator ≡ record { pool = some (right_part (pages phys) pool) }
      pub pool_kept : second.shared.mmio_va_allocator ≡ first.shared.mmio_va_allocator
      pub written :
          Written tock num_tables device_attributes
            (pages phys)
            phys.start_page
            pool.start_page
            m.shared.tables
            second.shared.tables
      pub first_is : first ≡ record m { shared = first.shared }
      pub second_is : second ≡ record m { shared = second.shared }
      pub ready_after : Ready second
      pub one_slot_less : ready_after.records.free ≡ k
      pub others :
          (q : MemoryRegion)
          → ¬ q.start_page ≡ phys.start_page
          → NoneDescribes q ready.records.entries
          → NoneDescribes q ready_after.records.entries

    new_elsewhere : (q : MemoryRegion) → ¬ q.start_page ≡ phys.start_page → describes q new ≡ false
    unfolding new
    new_elsewhere q other = ground arith

    pub kernel_map_mmio-Shares : (first second : Machine KernelMmu) × Shares first second
    unfolding new
    kernel_map_mmio-Shares =
        let (tables, e, w) = kernel_map_mmio_new in
        let after : Ready (mapped tables) =
          mapped-Ready tables (w.initialized_same ∙ ready.initialized) in
        let (j, f) = added-First phys p ready.records.entries new unknown new-describes in
        (
          mapped tables,
          with_records (mapped tables)
              (with_new_user tock name' desc' phys p from' (mapped tables) after j new),
          record {
            maps = e;
            joins =
                kernel_map_mmio_known tock name' desc' phys p from' (mapped tables) after j new f
                ∙ rw
                    (address_add-offset pool.start_page desc'.start_addr q.start_aligned
                      (omega (arith, q.ordered, q.end_fits)))
                    refl;
            tables_kept = refl;
            rest_of_pool = refl;
            pool_kept = refl;
            written = w;
            first_is = refl;
            second_is = refl;
            ready_after = record {
              init_phase = ready.init_phase;
              masked = ready.masked;
              initialized = w.initialized_same ∙ ready.initialized;
              records = used phys p name' (mapped tables).shared.records after.records j new f;
            };
            one_slot_less = refl;
            others = λ r other none'.
                used-NoneDescribes r phys name' after.records.entries j new f
                  (added-NoneDescribes r ready.records.entries new none' (new_elsewhere r other));
          },
        )

  -- A device of at least one page, below the end of the physical address space and in no record, is
  -- mapped in the init phase with IRQs masked and the tables initialized, with a record slot
  -- free, a pool within the tables that has as many pages as the device, and the pages at its
  -- front unmapped. From then on its pages are shared: any number of calls made directly
  -- after it, each for some registers on exactly the same pages, give the address of these registers in that one
  -- mapping, and change neither the tables nor the allocator.
  pub kernel_map_mmio_shared :
      (k : ℕ) (later : Requests)
      → ready.records.free ≡ suc k
      → OnPages phys later
      → (first last : Machine KernelMmu) × (kernel_map_mmio tock name desc m
          ≡ (ok (pool.start_page + desc.start_addr % ms_kernel), first))
        × (map_each tock later first ≡ (ok (map (address_from pool.start_page) later), last))
        × (last.shared.tables ≡ first.shared.tables)
        × (last.shared.mmio_va_allocator ≡ first.shared.mmio_va_allocator)
  unfolding new
  kernel_map_mmio_shared k later slot on =
      let (tables, e, w) = kernel_map_mmio_new in
      let after : Ready (mapped tables) = record {
        init_phase = ready.init_phase;
        masked = ready.masked;
        initialized = w.initialized_same ∙ ready.initialized;
        records =
            added name (left_part (pages phys) pool) phys device_attributes m.shared.records
              ready.records k p slot;
      } in
      let (j, f) = added-First phys p ready.records.entries new unknown new-describes in
      let (last, answers, tables_same, allocator_same) =
        map_each-known tock phys p pool.start_page q.start_aligned
          (omega (arith, q.ordered, q.end_fits)) later (mapped tables) after j new on f refl in
      (mapped tables, last, e, answers, tables_same, allocator_same)
