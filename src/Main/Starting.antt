-- ===== src/Main/Starting.antt =====
-- `kernel_init` of kernel/main.rs from a fresh boot core to the running kernel.
use mathlib.Core.Path.{subst}
use rp4os.Base.{ℕ, ◌+◌, ◌*◌, ◌%◌, ◌^◌, ◌≤◌, ◌<◌, ◌≡◌, refl, ap, ◌∙◌, true, false, arith, some}
use rp4os.Base.Outcome.{ok}
use rp4os.Registers.{field, Tock}
use rp4os.Memory.Address.{ms_kernel}
use rp4os.Sync.{Machine, Daif, local_irq_unmask, transition_to_single_core_main}
use rp4os.Sync.Locks.{Starting}
use rp4os.Bsp.Layout.{LinkerSymbols}
use rp4os.Mmu.PageAlloc.{PageAllocator}
use rp4os.Mmu.PageAlloc
use rp4os.Mmu.Table.{phys_base_address}
use rp4os.Mmu.Table
use rp4os.Mmu.Table.Walk.{walk}
use rp4os.Mmu.Records
use rp4os.Mmu.Kernel.{KernelMmu, num_tables, kernel_map_binary}
use rp4os.Mmu.Kernel.Sections.{IsLayout}
use rp4os.Mmu.Kernel.Section.{Laying}
use rp4os.Mmu.Kernel.Binary.{in_binary, binary_space, heap_section, kernel_map_binary_lem}
use rp4os.Mmu.Enable.{Aarch64, SystemRegisters, is_enabled, EnableResult}
use rp4os.Mmu.Enable.Enabling.{Translating, enable_mmu_and_caching_lem}
use rp4os.Exception.{set_exception_vector}
use rp4os.Heap.{HeapAllocator, LinkedListHeap}
use rp4os.Heap.Allocating.{initialized}
use rp4os.Gic.Handlers.{boot_core_id}
use rp4os.Drivers.{init_drivers_and_irqs}
use rp4os.Drivers
use rp4os.Devices.{Core}
use rp4os.Devices.Bringup.{Whole}
use rp4os.Devices.Running.{DriversRun}
use rp4os.Board.{Board, view, init, pl011_uart_start, gpio_start, gicd_start, gicc_start}
use rp4os.Board.Start.{init-DriversRun}
use rp4os.Main.{
  Kernel, kernel_init, post_enable_init, set_vector, expect_value, on_mmu, on_board, enable_mmu,
  run_drivers, unmask, set_mmu, with_registers, enable_outcome,
}
use rp4os.Main.Calls.{put_back, zoom-ok, steps_in_turn, expect_value-ok, transition-done}
use rp4os.Main.Reaching.{devices-laid, binary-reached}
use rp4os.Main.Memory.{with_mmu, with_memory, post_enable_init-done}

module _ {H : Type 0} (tock : Tock) (cpu : Aarch64) (library : LinkedListHeap H) where
  open tock use {read}

  -- The state in which the boot core enters `kernel_init`.
  pub record Fresh (m : Machine (Kernel H)) : Type 0 where
    pub starting : Starting m
    pub tables_new : m.shared.board.mmu.tables ≡ Table.new num_tables
    pub no_records : m.shared.board.mmu.records ≡ Records.empty
    pub no_pool : m.shared.board.mmu.mmio_va_allocator ≡ PageAlloc.new
    pub no_drivers : m.shared.board.drivers ≡ Drivers.new
    pub init_not_done : m.shared.board.init_done ≡ false
    pub heap_not_done : m.shared.heap.init_done ≡ false
    pub mmu_off : is_enabled tock cpu m.shared.registers ≡ false
    pub granule : read (field 24 4) m.shared.registers.id_aa64mmfr0_el1 ≡ 0

  module _ (ld : LinkerSymbols) (laid : IsLayout ld) (fuel turns vector base : ℕ)
      (m : Machine (Kernel H)) (fresh : Fresh m)
      (two_pages : ld.mmio_remap_start + 2 * ms_kernel ≤ ld.mmio_remap_end_exclusive)
      (base_aligned : base % ms_kernel ≡ 0)
      (base_fits : base + num_tables * ms_kernel < 2 ^ 48) where
    abbrev m1 : Machine (Kernel H)
    m1 = with_registers (set_exception_vector vector m.shared.registers) m

    abbrev core_mmu : Machine KernelMmu
    core_mmu = view (λ k. k.board.mmu) m1

    abbrev tables_base : ℕ
    tables_base = phys_base_address num_tables base

    binary-mapped :
        (k : KernelMmu) × (expect_value "Error mapping kernel binary"
            (on_mmu (kernel_map_binary tock ld base))
            m1
          ≡ (ok tables_base, with_mmu k m1))
        × Laying tock base (binary_space ld) 16 core_mmu (record core_mmu { shared = k })
        × (k.mmio_va_allocator ≡ PageAlloc.new)
    binary-mapped =
        let (after, e, l, translates) =
          kernel_map_binary_lem tock ld laid base core_mmu fresh.starting fresh.tables_new
            fresh.no_records base_aligned (omega arith) in
        let same : after ≡ record core_mmu { shared = after.shared } =
          ap
            (λ (r : ℕ × Daif × PageAllocator). record {
              kernel_state = r.0;
              daif = r.1;
              shared = after.shared;
            })
            l.rest_same in
        (
          after.shared,
          expect_value-ok "Error mapping kernel binary" (on_mmu (kernel_map_binary tock ld base))
              tables_base m1 (with_mmu after.shared m1)
              (zoom-ok (λ k. k.board.mmu) set_mmu (kernel_map_binary tock ld base) m1 tables_base
                (record core_mmu { shared = after.shared })
                (e ∙ ap (λ (t : Machine KernelMmu). (ok tables_base, t)) same)),
          subst (Laying tock base (binary_space ld) 16 core_mmu) same l,
          ap (λ (r : ℕ × Daif × PageAllocator). r.2) l.rest_same ∙ fresh.no_pool,
        )

    enabling :
        (r : SystemRegisters) × ((mmu : KernelMmu)
          → enable_mmu tock cpu library ld tables_base (with_mmu mmu m1)
            ≡ (ok tt, with_registers r (with_mmu mmu m1)))
        × Translating tock cpu tables_base r
        × (r.vbar_el1 ≡ vector)
    unfolding set_exception_vector is_enabled phys_base_address
    enabling =
        let (after, e, set_up, order, vector_kept, again) =
          enable_mmu_and_caching_lem tock cpu tables_base m1.shared.registers fresh.mmu_off
            fresh.granule (omega arith) (omega arith) in
        (
          after,
          λ mmu.
              ap
                (λ (r : EnableResult × SystemRegisters).
                  (enable_outcome r.0, with_registers r.1 (with_mmu mmu m1)))
                e,
          set_up,
          vector_kept,
        )

    abbrev heap_ready : HeapAllocator H
    heap_ready = (initialized library (heap_section ld) (view (λ k. k.heap) m)).shared

    -- After `post_enable_init`.
    abbrev m5 : SystemRegisters → KernelMmu → Machine (Kernel H)
    m5 r mmu = with_memory tock cpu library ld laid (with_registers r (with_mmu mmu m1))

    -- The running kernel: `made` is the board that `init` made, and `run` the core after its
    -- drivers came up.
    pub record KernelRuns (done : Machine (Kernel H)) (made : Machine Board) (run : Core)
        : Type 0 where
      pub state_is : done.kernel_state ≡ 1
      pub unmasked : done.daif.i ≡ false
      pub vector_is : done.shared.registers.vbar_el1 ≡ vector
      pub translating : Translating tock cpu tables_base done.shared.registers
      pub binary_reached :
          (va : ℕ)
          → in_binary ld va ≡ true
          → walk tock num_tables tables_base base done.shared.board.mmu.tables va ≡ some va
      pub heap_is : done.shared.heap ≡ heap_ready
      pub uart_at : made.shared.devices.devices.uart_static ≡ some (ld.mmio_remap_start + 0x1000)
      pub gpio_at : made.shared.devices.devices.gpio_static ≡ some ld.mmio_remap_start
      pub controller_at :
          made.shared.devices.devices.controller_static
          ≡ some
              (ld.mmio_remap_start + ms_kernel + 0x1000, ld.mmio_remap_start + ms_kernel + 0x2000)
      pub uart_reached :
          walk tock num_tables tables_base base done.shared.board.mmu.tables
            (ld.mmio_remap_start + 0x1000)
          ≡ some pl011_uart_start
      pub gpio_reached :
          walk tock num_tables tables_base base done.shared.board.mmu.tables ld.mmio_remap_start
          ≡ some gpio_start
      pub gicd_reached :
          walk tock num_tables tables_base base done.shared.board.mmu.tables
            (ld.mmio_remap_start + ms_kernel + 0x1000)
          ≡ some gicd_start
      pub gicc_reached :
          walk tock num_tables tables_base base done.shared.board.mmu.tables
            (ld.mmio_remap_start + ms_kernel + 0x2000)
          ≡ some gicc_start
      pub drivers_run : DriversRun tock fuel turns (view (λ s. s.devices) made) run
      pub devices_are : done.shared.board.devices ≡ run.shared

    abbrev unmasked_core : Machine (Kernel H) → Machine (Kernel H)
    unmasked_core now = record now { daif = record now.daif { i = false } }

    -- A boot core fresh as the boot code leaves it, in the init phase with IRQs masked and the MMU off,
    -- with 64 KiB pages supported, the sections as the linker script lays them out, at least two
    -- pages of MMIO region, the tables at an aligned base below 2 ^ 48, a complete interrupt
    -- controller and a UART that has finished sending: `kernel_init` runs to its end without a panic.
    -- Then the kernel is in its single-core phase with IRQs unmasked; the exception vectors are
    -- set; MMU and caches are on with the kernel's tables, through which the binary is at its own
    -- addresses and the address that each driver was made with reaches its device's registers; the
    -- heap has its section; and the three drivers run.
    pub kernel_init-KernelRuns :
        (x : ℕ)
        → Whole tock x m.shared.board.devices.gicd
        → m.shared.board.devices.devices.uart.line.busy_for < fuel
        → (done : Machine (Kernel H)) × (kernel_init tock cpu library ld fuel turns boot_core_id
              vector base m
            ≡ (ok tt, done))
          × (made : Machine Board) × (run : Core) × KernelRuns done made run
    unfolding kernel_init local_irq_unmask
    kernel_init-KernelRuns x whole idle =
        let (mmu, mapped, laying, no_pool) = binary-mapped in
        let (r, enable, translating, vector_kept) = enabling in
        let now : Machine (Kernel H) = m5 r mmu in
        let (k1, k2, k3, k4, devices) =
          devices-laid tock ld laid (omega arith) (view (λ k. k.board) now) mmu base core_mmu
            laying in
        let (
          made,
          init_done,
          again,
          mmu_is,
          uart_is,
          gpio_is,
          controller_is,
          (run, came_up, runs),
        ) =
          init-DriversRun tock fuel turns (view (λ k. k.board) now) fresh.starting
            fresh.init_not_done fresh.no_drivers (ld.mmio_remap_start + 0x1000)
            (ld.mmio_remap_start + 0) (ld.mmio_remap_start + ms_kernel + 0x1000)
            (ld.mmio_remap_start + ms_kernel + 0x2000) k1 k2 k3 k4 devices.uart_maps
            devices.gpio_maps devices.gicd_maps devices.gicc_maps x whole idle in
        let m6 : Machine (Kernel H) = put_back (λ board k. record k { board = board }) now made in
        let m7 : Machine (Kernel H) =
          put_back (λ devices k. record k { board = record k.board { devices = devices } }) m6
            run in
        let no_offset : ld.mmio_remap_start + 0 ≡ ld.mmio_remap_start = omega arith in
        let done : Machine (Kernel H) = record (unmasked_core m7) { kernel_state = 1 } in
        (
          done,
          steps_in_turn (set_vector vector)
              (expect_value "Error mapping kernel binary" (on_mmu (kernel_map_binary tock ld base)))
              (enable_mmu tock cpu library ld) (post_enable_init tock cpu library ld)
              (expect_value "Error initializing BSP driver subsystem"
                (on_board (init tock fuel turns boot_core_id)))
              run_drivers unmask transition_to_single_core_main tables_base m m1 (with_mmu mmu m1)
              (with_registers r (with_mmu mmu m1)) now m6 m7 (unmasked_core m7) done refl mapped
              (enable mmu)
              (post_enable_init-done tock cpu library ld laid (with_registers r (with_mmu mmu m1))
                no_pool fresh.heap_not_done)
              (expect_value-ok "Error initializing BSP driver subsystem"
                (on_board (init tock fuel turns boot_core_id)) tt now m6
                (zoom-ok (λ k. k.board) (λ board k. record k { board = board })
                  (init tock fuel turns boot_core_id) now tt made init_done))
              (zoom-ok (λ k. k.board.devices)
                (λ devices k. record k { board = record k.board { devices = devices } })
                (init_drivers_and_irqs made.shared.drivers) m6 tt run came_up)
              refl (transition-done (unmasked_core m7) runs.still_starting.0),
          made,
          run,
          record {
            state_is = refl;
            unmasked = refl;
            vector_is = vector_kept;
            translating = translating;
            binary_reached = λ va hit.
                binary-reached tock ld laid base made.shared.mmu.tables (rw mmu_is devices.run) va
                  hit;
            heap_is = refl;
            uart_at = uart_is;
            gpio_at = gpio_is ∙ ap some no_offset;
            controller_at = controller_is;
            uart_reached = rw mmu_is devices.uart_reached;
            gpio_reached =
                subst
                  (λ (va : ℕ).
                    walk tock num_tables tables_base base made.shared.mmu.tables va
                    ≡ some gpio_start)
                  no_offset (rw mmu_is devices.gpio_reached);
            gicd_reached = rw mmu_is devices.gicd_reached;
            gicc_reached = rw mmu_is devices.gicc_reached;
            drivers_run = runs;
            devices_are = refl;
          },
        )
