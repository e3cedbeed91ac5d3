-- ===== src/Board/Mappings.antt =====
-- The four mappings of `init` of src/bsp/driver.rs, once the binary is mapped: two pages of
-- registers, each shared by two devices.
use rp4os.Base.{
  ℕ, suc, ◌+◌, ◌-◌, ◌*◌, ◌%◌, ◌≤◌, ◌<◌, ◌≡◌, refl, ap, ◌∙◌, true, false, arith, some, none,
}
use rp4os.Base.Outcome.{ok}
use rp4os.Registers.{Tock}
use rp4os.Memory.Address.{ms_kernel, ms_512_mib}
use rp4os.Sync.{Machine}
use rp4os.Mmu.Region.{MemoryRegion, IsRegion, pages, region_from_descriptor}
use rp4os.Mmu.Region.Descriptors.{region_from_descriptor_lem}
use rp4os.Mmu.Region.Split.{right_part, parts-IsRegion}
use rp4os.Mmu.Table.{TranslationTable, phys_base_address}
use rp4os.Mmu.Table.Mapping.{within}
use rp4os.Mmu.Table.Space.{Space}
use rp4os.Mmu.Table.Walk.{Running, walk, walk_lem, target}
use rp4os.Mmu.Table.Translation.{with_run}
use rp4os.Mmu.Kernel.{KernelMmu, num_tables, device_attributes}
use rp4os.Mmu.Kernel.Section.{Free, Laying}
use rp4os.Board.{
  Board, gpio_start, gpio_size, pl011_uart_start, pl011_uart_size, gicd_start, gicd_size,
  gicc_start, gicc_size,
}
use rp4os.Board.Init.{core_with, Maps, range}
use rp4os.Board.Pairs.{pair-mapped}

-- The page of the UART and the GPIO, and the page of the interrupt controller.
abbrev pub peripheral_page : MemoryRegion
peripheral_page = record { start_page = 0xFE20_0000; end_page_exclusive = 0xFE21_0000 }

abbrev pub controller_page : MemoryRegion
controller_page = record { start_page = 0xFF84_0000; end_page_exclusive = 0xFF85_0000 }

peripheral_page-IsRegion : IsRegion peripheral_page
peripheral_page-IsRegion = record {
  start_aligned = refl;
  end_aligned = refl;
  ordered = omega arith;
  end_fits = omega arith;
}

controller_page-IsRegion : IsRegion controller_page
controller_page-IsRegion = record {
  start_aligned = refl;
  end_aligned = refl;
  ordered = omega arith;
  end_fits = omega arith;
}

uart_page : region_from_descriptor (range pl011_uart_start pl011_uart_size) ≡ ok peripheral_page
uart_page =
    region_from_descriptor_lem (range pl011_uart_start pl011_uart_size) (omega arith) (omega arith)

gpio_page : region_from_descriptor (range gpio_start gpio_size) ≡ ok peripheral_page
gpio_page = region_from_descriptor_lem (range gpio_start gpio_size) (omega arith) (omega arith)

gicd_page : region_from_descriptor (range gicd_start gicd_size) ≡ ok controller_page
gicd_page = region_from_descriptor_lem (range gicd_start gicd_size) (omega arith) (omega arith)

gicc_page : region_from_descriptor (range gicc_start gicc_size) ≡ ok controller_page
gicc_page = region_from_descriptor_lem (range gicc_start gicc_size) (omega arith) (omega arith)

-- A space with the two pages at the front of a pool.
abbrev pub devices_space : Space → MemoryRegion → Space
devices_space space pool =
    with_run 1 controller_page.start_page (pool.start_page + ms_kernel) device_attributes
      (with_run 1 peripheral_page.start_page pool.start_page device_attributes space)

module _ (tock : Tock) (b : Machine Board) (base k : ℕ) (space : Space) (pool : MemoryRegion)
    (q : IsRegion pool) (room : 2 ≤ pages pool)
    (inside : pool.end_page_exclusive ≤ num_tables * ms_512_mib) (free : Free pool space) where
  -- Where the devices are, once mapped.
  pub record DevicesMapped (before k1 k2 k3 k4 : KernelMmu) : Type 0 where
    pub uart_maps :
        Maps tock "BCM PL011 UART" pl011_uart_start pl011_uart_size b before
          (pool.start_page + 0x1000)
          k1
    pub gpio_maps : Maps tock "BCM GPIO" gpio_start gpio_size b k1 (pool.start_page + 0) k2
    pub gicd_maps :
        Maps tock "GICv2 GICD" gicd_start gicd_size b k2 (pool.start_page + ms_kernel + 0x1000) k3
    pub gicc_maps :
        Maps tock "GICV2 GICC" gicc_start gicc_size b k3 (pool.start_page + ms_kernel + 0x2000) k4
    pub run : Running tock num_tables base (devices_space space pool) k4.tables
    pub uart_reached :
        walk tock num_tables
          (phys_base_address num_tables base)
          base
          k4.tables
          (pool.start_page + 0x1000)
        ≡ some pl011_uart_start
    pub gpio_reached :
        walk tock num_tables
          (phys_base_address num_tables base)
          base
          k4.tables
          (pool.start_page + 0)
        ≡ some gpio_start
    pub gicd_reached :
        walk tock num_tables
          (phys_base_address num_tables base)
          base
          k4.tables
          (pool.start_page + ms_kernel + 0x1000)
        ≡ some gicd_start
    pub gicc_reached :
        walk tock num_tables
          (phys_base_address num_tables base)
          base
          k4.tables
          (pool.start_page + ms_kernel + 0x2000)
        ≡ some gicc_start

  reached :
      (table : TranslationTable) (va pa : ℕ)
      → Running tock num_tables base (devices_space space pool) table
      → va < num_tables * ms_512_mib
      → target tock num_tables (devices_space space pool (va - va % ms_kernel)) va ≡ some pa
      → walk tock num_tables (phys_base_address num_tables base) base table va ≡ some pa
  reached table va pa run low e =
      walk_lem tock num_tables base (devices_space space pool) table run va low ∙ e

  target_peripheral :
      (offset : ℕ)
      → offset < ms_kernel
      → target tock num_tables
          (devices_space space pool
            (pool.start_page + offset - (pool.start_page + offset) % ms_kernel))
          (pool.start_page + offset)
        ≡ some (peripheral_page.start_page + offset)
  target_peripheral offset less =
      let page : pool.start_page + offset - (pool.start_page + offset) % ms_kernel
          ≡ pool.start_page =
        omega (arith, q.start_aligned) in
      let miss : within (pool.start_page + ms_kernel) 1 pool.start_page ≡ false = ground arith in
      let hit : within pool.start_page 1 pool.start_page ≡ true = ground arith in
      rw (page, miss, hit) (ap some (omega (arith, q.start_aligned)))

  target_controller :
      (offset : ℕ)
      → offset < ms_kernel
      → target tock num_tables
          (devices_space space pool (
            pool.start_page
            + ms_kernel
            + offset
            - (pool.start_page + ms_kernel + offset) % ms_kernel))
          (pool.start_page + ms_kernel + offset)
        ≡ some (controller_page.start_page + offset)
  target_controller offset less =
      let page : pool.start_page
            + ms_kernel
            + offset
            - (pool.start_page + ms_kernel + offset) % ms_kernel
          ≡ pool.start_page + ms_kernel =
        omega (arith, q.start_aligned) in
      let hit : within (pool.start_page + ms_kernel) 1 (pool.start_page + ms_kernel) ≡ true =
        ground arith in
      rw (page, hit) (ap some (omega (arith, q.start_aligned)))

  -- The first page of the pool is free.
  first_free : (page : ℕ) → within pool.start_page 1 page ≡ true → space page ≡ none
  first_free page hit = free page (ground arith) (ground (arith, q.start_aligned, q.end_aligned))

  second_free :
      (page : ℕ)
      → within (pool.start_page + ms_kernel) 1 page ≡ true
      → with_run 1 peripheral_page.start_page pool.start_page device_attributes space page ≡ none
  second_free page hit =
      let miss : within pool.start_page 1 page ≡ false = ground arith in
      rw miss (free page (ground arith) (ground (arith, q.start_aligned, q.end_aligned)))

  -- With the binary mapped, at least two record slots and two pages of the pool left, and the
  -- pool's pages free: the four calls succeed.
  pub devices-mapped :
      (m : Machine KernelMmu) (before : KernelMmu)
      → Laying tock base space (suc (suc k)) m (core_with b before)
      → before.mmio_va_allocator ≡ record { pool = some pool }
      → (k1 k2 k3 k4 : KernelMmu) × DevicesMapped before k1 k2 k3 k4
  devices-mapped m before l has =
      let (k1, k2, s) =
        pair-mapped tock b base space "BCM PL011 UART" "BCM GPIO" pl011_uart_start pl011_uart_size
          gpio_start gpio_size peripheral_page pool peripheral_page-IsRegion q uart_page gpio_page
          (omega arith) (omega arith) (omega arith) inside before l.ready (suc k) l.slots_left has
          l.run first_free (l.no_device peripheral_page) in
      let (k3, k4, t) =
        pair-mapped tock b base
          (with_run 1 peripheral_page.start_page pool.start_page device_attributes space)
          "GICv2 GICD" "GICV2 GICC" gicd_start gicd_size gicc_start gicc_size controller_page
          (right_part 1 pool) controller_page-IsRegion (parts-IsRegion pool 1 q (omega arith)).1
          gicd_page gicc_page (omega arith) (omega arith) (omega arith) inside k2 s.ready_after k
          s.one_slot_less s.rest_of_pool s.run second_free
          (s.others controller_page (omega arith) (l.no_device controller_page)) in
      (
        k1,
        k2,
        k3,
        k4,
        record {
          uart_maps = s.first_maps;
          gpio_maps = s.second_maps;
          gicd_maps = t.first_maps;
          gicc_maps = t.second_maps;
          run = t.run;
          uart_reached =
              reached k4.tables (pool.start_page + 0x1000) pl011_uart_start t.run (omega arith)
                (target_peripheral 0x1000 (omega arith));
          gpio_reached =
              reached k4.tables (pool.start_page + 0) gpio_start t.run (omega arith)
                (target_peripheral 0 (omega arith));
          gicd_reached =
              reached k4.tables (pool.start_page + ms_kernel + 0x1000) gicd_start t.run
                (omega arith) (target_controller 0x1000 (omega arith));
          gicc_reached =
              reached k4.tables (pool.start_page + ms_kernel + 0x2000) gicc_start t.run
                (omega arith) (target_controller 0x2000 (omega arith));
        },
      )
