-- ===== src/Board/Pairs.antt =====
-- Two devices of src/bsp/driver.rs whose registers lie on the same pages, mapped one after the other.
use rp4os.Base.{ℕ, suc, ◌+◌, ◌*◌, ◌%◌, ◌≤◌, ◌<◌, ◌≡◌, ap, sym, ◌∙◌, true, some, none, String}
use rp4os.Base.Outcome.{ok}
use rp4os.Registers.{Tock}
use rp4os.Memory.Address.{ms_kernel, ms_512_mib}
use rp4os.Sync.{Machine}
use rp4os.Mmu.Region.{MemoryRegion, IsRegion, pages, region_from_descriptor}
use rp4os.Mmu.Region.Split.{right_part}
use rp4os.Mmu.Table.{map_end}
use rp4os.Mmu.Table.Mapping.{within}
use rp4os.Mmu.Table.Space.{Space}
use rp4os.Mmu.Table.Walk.{Running}
use rp4os.Mmu.Table.Translation.{with_run, Written-Running, Running-Unmapped}
use rp4os.Mmu.Kernel.{KernelMmu, num_tables, device_attributes, kernel_map_mmio}
use rp4os.Mmu.Records.Users.{NoneDescribes}
use rp4os.Mmu.Kernel.Setup.{Ready}
use rp4os.Mmu.Kernel.Sharing.{kernel_map_mmio-Shares}
use rp4os.Board.{Board}
use rp4os.Board.Init.{core_with, Maps, range}

module _ (tock : Tock) (b : Machine Board) (base : ℕ) (space : Space) (name name' : String)
    (start size start' size' : ℕ) (page pool : MemoryRegion) (p : IsRegion page) (q : IsRegion pool)
    (from : region_from_descriptor (range start size) ≡ ok page)
    (from' : region_from_descriptor (range start' size') ≡ ok page) (some_pages : 0 < pages page)
    (room : pages page ≤ pages pool) (low : page.end_page_exclusive ≤ map_end)
    (inside : pool.end_page_exclusive ≤ num_tables * ms_512_mib) where
  pub record PairMapped (before : KernelMmu) (ready : Ready (core_with b before)) (k : ℕ)
      (k1 k2 : KernelMmu) : Type 0 where
    pub first_maps : Maps tock name start size b before (pool.start_page + start % ms_kernel) k1
    pub second_maps : Maps tock name' start' size' b k1 (pool.start_page + start' % ms_kernel) k2
    pub ready_after : Ready (core_with b k2)
    pub one_slot_less : ready_after.records.free ≡ k
    pub others :
        (r : MemoryRegion)
        → ¬ r.start_page ≡ page.start_page
        → NoneDescribes r ready.records.entries
        → NoneDescribes r ready_after.records.entries
    pub rest_of_pool : k2.mmio_va_allocator ≡ record { pool = some (right_part (pages page) pool) }
    pub run :
        Running tock num_tables base
          (with_run (pages page) page.start_page pool.start_page device_attributes space)
          k2.tables

  pub pair-mapped :
      (before : KernelMmu) (ready : Ready (core_with b before)) (k : ℕ)
      → ready.records.free ≡ suc k
      → before.mmio_va_allocator ≡ record { pool = some pool }
      → Running tock num_tables base space before.tables
      → ((page' : ℕ) → within pool.start_page (pages page) page' ≡ true → space page' ≡ none)
      → NoneDescribes page ready.records.entries
      → (k1 k2 : KernelMmu) × PairMapped before ready k k1 k2
  pair-mapped before ready k slot has run free unknown =
      let (first, second, s) =
        kernel_map_mmio-Shares tock name (range start size) page pool p q from (core_with b before)
          ready has some_pages room low inside
          (Running-Unmapped tock num_tables base (pages page) pool.start_page space before.tables
            run free)
          unknown k slot name' (range start' size') from' in
      (
        first.shared,
        second.shared,
        record {
          first_maps =
              s.maps
              ∙ ap (λ (t : Machine KernelMmu). (ok (pool.start_page + start % ms_kernel), t))
                  s.first_is;
          second_maps =
              ap (kernel_map_mmio tock name' (range start' size')) (sym s.first_is)
              ∙ s.joins
              ∙ ap (λ (t : Machine KernelMmu). (ok (pool.start_page + start' % ms_kernel), t))
                  s.second_is;
          ready_after = record {
            init_phase = ready.init_phase;
            masked = ready.masked;
            initialized = s.ready_after.initialized;
            records = s.ready_after.records;
          };
          one_slot_less = s.one_slot_less;
          others = s.others;
          rest_of_pool = s.rest_of_pool;
          run =
              Written-Running tock num_tables base device_attributes (pages page) page.start_page
                pool.start_page space before.tables second.shared.tables run s.written;
        },
      )
