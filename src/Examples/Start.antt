-- ===== src/Examples/Start.antt =====
-- The start of the kernel on the board, as the linker script lays it out.
use rp4os.Base.{
  ℕ, ◌+◌, ◌-◌, ◌*◌, ◌^◌, ◌≤◌, ◌<◌, ltb, ◌≡◌, refl, none, some, false, arith, if◌then◌else◌,
}
use rp4os.Base.Outcome.{ok}
use rp4os.Registers.Concrete.{concrete}
use rp4os.Memory.Address.{ms_kernel, ms_512_mib}
use rp4os.Sync.{Machine}
use rp4os.Bsp.Layout.{LinkerSymbols}
use rp4os.Mmu.PageAlloc
use rp4os.Mmu.Table.{phys_base_address}
use rp4os.Mmu.Table
use rp4os.Mmu.Table.Walk.{walk}
use rp4os.Mmu.Records
use rp4os.Mmu.Kernel.{KernelMmu, kernel_map_binary}
use rp4os.Mmu.Kernel.Sections.{IsLayout}
use rp4os.Mmu.Kernel.Section.{Laying}
use rp4os.Mmu.Kernel.Binary.{binary_space, in_binary, kernel_map_binary_lem}
use rp4os.Heap.{LinkedListHeap}
use rp4os.Gic.Handlers.{boot_core_id}
use rp4os.Devices.{Core}
use rp4os.Board.{Board}
use rp4os.Main.{Kernel, kernel_init}
use rp4os.Main.Starting.{Fresh, KernelRuns, kernel_init-KernelRuns}
use rp4os.Examples.{masked_daif}
use rp4os.Examples.Boards.{board, whole}
use rp4os.Examples.System.{cpu, reset, mmu_off}

abbrev symbols : LinkerSymbols
symbols = record {
  code_start = 0x8_0000;
  code_end_exclusive = 0xC_0000;
  data_start = 0xC_0000;
  data_end_exclusive = 0x11_0000;
  heap_start = 0x11_0000;
  heap_end_exclusive = 0x111_0000;
  mmio_remap_start = 0x111_0000;
  mmio_remap_end_exclusive = 0x191_0000;
  boot_core_stack_start = 0;
  boot_core_stack_end_exclusive = 0x8_0000;
}

abbrev laid_out : IsLayout symbols
laid_out = record {
  stack = record { start_aligned = refl; end_aligned = refl; full = omega arith };
  code = record { start_aligned = refl; end_aligned = refl; full = omega arith };
  data_section = record { start_aligned = refl; end_aligned = refl; full = omega arith };
  heap = record { start_aligned = refl; end_aligned = refl; full = omega arith };
  mmio_remap = record { start_aligned = refl; end_aligned = refl; full = omega arith };
  stack_code = omega arith;
  code_data = omega arith;
  data_heap = omega arith;
  heap_mmio = omega arith;
  in_space = omega arith;
}

abbrev unmapped : KernelMmu
unmapped = record {
  tables = Table.new 2;
  records = Records.empty;
  mmio_va_allocator = PageAlloc.new;
}

abbrev cold_mmu : Machine KernelMmu
cold_mmu = record { kernel_state = 0; daif = masked_daif; shared = unmapped }

kernel_map_binary_lem_example :
    (after : Machine KernelMmu) × (kernel_map_binary concrete symbols 0xC_0000 cold_mmu
      ≡ (ok (phys_base_address 2 0xC_0000), after))
    × Laying concrete 0xC_0000 (binary_space symbols) 16 cold_mmu after
    × ((va : ℕ)
        → va < 2 * ms_512_mib
        → walk concrete 2 (phys_base_address 2 0xC_0000) 0xC_0000 after.shared.tables va
          ≡ (if in_binary symbols va then some va else none))
kernel_map_binary_lem_example =
    kernel_map_binary_lem concrete symbols laid_out 0xC_0000 cold_mmu (refl, refl) refl refl refl
      (omega arith)

-- A heap that hands out its bytes from the front and takes none back: its next free address and
-- its end.
abbrev bump : LinkedListHeap (ℕ × ℕ)
bump = record {
  empty = (0, 0);
  init = λ start size heap. (start, start + size);
  allocate_first_fit = λ layout heap.
      if ltb heap.1 (heap.0 + layout.size)
      then (none, heap)
      else (some heap.0, (heap.0 + layout.size, heap.1));
  deallocate = λ ptr layout heap. heap;
  used = λ heap. 0;
  free = λ heap. heap.1 - heap.0;
}

abbrev cold : Machine (Kernel (ℕ × ℕ))
cold = record {
  kernel_state = 0;
  daif = masked_daif;
  shared = record {
    board = record board.shared { mmu = unmapped };
    registers = reset;
    heap = record { inner = (0, 0); init_done = false };
  };
}

abbrev cold-Fresh : Fresh concrete cpu bump cold
cold-Fresh = record {
  starting = (refl, refl);
  tables_new = refl;
  no_records = refl;
  no_pool = refl;
  no_drivers = refl;
  init_not_done = refl;
  heap_not_done = refl;
  mmu_off = mmu_off;
  granule = refl;
}

two_pages : symbols.mmio_remap_start + 2 * ms_kernel ≤ symbols.mmio_remap_end_exclusive
two_pages = omega arith

base_fits : 0xC_0000 + 2 * ms_kernel < 2 ^ 48
base_fits = omega arith

kernel_init-KernelRuns_example :
    (done : Machine (Kernel (ℕ × ℕ))) × (kernel_init concrete cpu bump symbols 8 8 boot_core_id
        0x8_8000 0xC_0000 cold
      ≡ (ok tt, done))
    × (made : Machine Board) × (run : Core) × KernelRuns concrete cpu bump symbols laid_out 8 8
        0x8_8000 0xC_0000 cold cold-Fresh two_pages refl base_fits done made run
kernel_init-KernelRuns_example =
    kernel_init-KernelRuns concrete cpu bump symbols laid_out 8 8 0x8_8000 0xC_0000 cold cold-Fresh
      two_pages refl base_fits 1 whole (omega arith)
