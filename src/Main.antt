-- ===== src/Main.antt =====
-- `kernel_init` of kernel/main.rs, with `post_enable_init` of src/memory/mod.rs. What `kernel_main`
-- does after it is to print and to wait for interrupts.
pub mod Calls
pub mod Reaching
pub mod Memory
pub mod Starting
use rp4os.Base.{ℕ, String}
use rp4os.Base.Outcome.{Outcome, ok, err, panic, unfinished}
use rp4os.Base.Exec.{Exec, ◌>>=◌, ◌>>◌}
use rp4os.Registers.{Tock}
use rp4os.Sync.{Machine, local_irq_unmask, transition_to_single_core_main}
use rp4os.Bsp.Layout.{LinkerSymbols}
use rp4os.Mmu.Kernel.{KernelMmu, kernel_map_binary, kernel_init_mmio_va_allocator}
use rp4os.Mmu.Enable.{
  Aarch64, SystemRegisters, EnableResult, enabled, failed, enable_mmu_and_caching,
}
use rp4os.Exception.{set_exception_vector}
use rp4os.Heap.{HeapAllocator, LinkedListHeap, kernel_init_heap_allocator}
use rp4os.Drivers.{init_drivers_and_irqs}
use rp4os.Devices.{Core}
use rp4os.Board.{Board, zoom, init}

-- The statics and the system registers of the boot core.
pub record Kernel (H : Type 0) : Type 0 where
  pub board : Board
  pub registers : SystemRegisters
  pub heap : HeapAllocator H

-- `panic!` on an error.
abbrev or_panic : {A : Type 0} → String → Outcome A → Outcome A
or_panic message (ok a) = ok a
or_panic message (err e) = panic message
or_panic message (panic e) = panic e
or_panic message unfinished = unfinished

abbrev pub expect_value : {W A : Type 0} → String → Exec W A → Exec W A
expect_value message f w = let r = f w in (or_panic message r.0, r.1)

abbrev pub enable_outcome : EnableResult → Outcome (Unit {0})
enable_outcome enabled = ok tt
enable_outcome (failed e) = panic "Enabling MMU failed"

abbrev pub KernelCall : Type 0 → Type 0 → Type 0
KernelCall H A = Exec (Machine (Kernel H)) A

module _ {H : Type 0} where
  abbrev pub set_mmu : KernelMmu → Kernel H → Kernel H
  set_mmu mmu k = record k { board = record k.board { mmu = mmu } }

  abbrev pub on_mmu : {A : Type 0} → Exec (Machine KernelMmu) A → KernelCall H A
  on_mmu = zoom (λ k. k.board.mmu) set_mmu

  abbrev pub on_board : {A : Type 0} → Exec (Machine Board) A → KernelCall H A
  on_board = zoom (λ k. k.board) (λ board k. record k { board = board })

  abbrev pub on_core : {A : Type 0} → Exec Core A → KernelCall H A
  on_core =
      zoom (λ k. k.board.devices)
        (λ devices k. record k { board = record k.board { devices = devices } })

  abbrev pub on_heap : {A : Type 0} → Exec (Machine (HeapAllocator H)) A → KernelCall H A
  on_heap = zoom (λ k. k.heap) (λ heap k. record k { heap = heap })

  abbrev pub with_registers : SystemRegisters → Machine (Kernel H) → Machine (Kernel H)
  with_registers r m = record m { shared = record m.shared { registers = r } }

  abbrev pub set_vector : ℕ → KernelCall H (Unit {0})
  set_vector start m = (ok tt, with_registers (set_exception_vector start m.shared.registers) m)

  -- DRIVER_MANAGER is only read.
  abbrev pub run_drivers : KernelCall H (Unit {0})
  run_drivers m = on_core (init_drivers_and_irqs m.shared.board.drivers) m

  abbrev pub unmask : KernelCall H (Unit {0})
  unmask m = (ok tt, local_irq_unmask m)

  module _ (tock : Tock) (cpu : Aarch64) (library : LinkedListHeap H) (ld : LinkerSymbols) where
    abbrev pub enable_mmu : ℕ → KernelCall H (Unit {0})
    enable_mmu addr m =
        let r = enable_mmu_and_caching tock cpu addr m.shared.registers in
        (enable_outcome r.0, with_registers r.1 m)

    unfoldable pub post_enable_init : KernelCall H (Unit {0})
    post_enable_init =
        on_mmu (kernel_init_mmio_va_allocator ld) >> on_heap (kernel_init_heap_allocator library ld)

    -- The tables stand at `base`, the exception vectors at `vector`.
    unfoldable pub kernel_init : ℕ → ℕ → ℕ → ℕ → ℕ → KernelCall H (Unit {0})
    unfolding post_enable_init
    kernel_init fuel turns core_id vector base = do
      set_vector vector
      phys_kernel_tables_base_addr ←
          expect_value "Error mapping kernel binary" (on_mmu (kernel_map_binary tock ld base))
      enable_mmu phys_kernel_tables_base_addr
      post_enable_init
      expect_value "Error initializing BSP driver subsystem"
          (on_board (init tock fuel turns core_id))
      run_drivers
      unmask
      transition_to_single_core_main
