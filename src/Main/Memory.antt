-- ===== src/Main/Memory.antt =====
-- `post_enable_init` of src/memory/mod.rs in the kernel's state.
use rp4os.Base.{◌≡◌, false}
use rp4os.Base.Outcome.{ok}
use rp4os.Registers.{Tock}
use rp4os.Sync.{Machine}
use rp4os.Bsp.Layout.{LinkerSymbols, virt_heap_region}
use rp4os.Mmu.PageAlloc
use rp4os.Mmu.Kernel.{KernelMmu, kernel_init_mmio_va_allocator}
use rp4os.Mmu.Kernel.Sections.{IsLayout, section_lem, heap_low}
use rp4os.Mmu.Kernel.Binary.{heap_section}
use rp4os.Mmu.Enable.{Aarch64}
use rp4os.Heap.{LinkedListHeap, kernel_init_heap_allocator}
use rp4os.Heap.Allocating.{initialized, kernel_init_heap_allocator-once}
use rp4os.Board.{view}
use rp4os.Main.{Kernel, post_enable_init, on_mmu, on_heap, set_mmu}
use rp4os.Main.Calls.{zoom-ok, two_in_turn}
use rp4os.Main.Reaching.{remap_section, pool_given, with_pool}

abbrev pub with_mmu : {H : Type 0} → KernelMmu → Machine (Kernel H) → Machine (Kernel H)
with_mmu mmu m = record m { shared = set_mmu mmu m.shared }

module _ {H : Type 0} (tock : Tock) (cpu : Aarch64) (library : LinkedListHeap H)
    (ld : LinkerSymbols) (laid : IsLayout ld) where
  -- With a pool and a heap.
  abbrev pub with_memory : Machine (Kernel H) → Machine (Kernel H)
  with_memory m = record m {
    shared = record m.shared {
      board = record m.shared.board {
        mmu = with_pool (remap_section tock ld laid) m.shared.board.mmu;
      };
      heap = (initialized library (heap_section ld) (view (λ k. k.heap) m)).shared;
    };
  }

  pub post_enable_init-done :
      (m : Machine (Kernel H))
      → m.shared.board.mmu.mmio_va_allocator ≡ PageAlloc.new
      → m.shared.heap.init_done ≡ false
      → post_enable_init tock cpu library ld m ≡ (ok tt, with_memory m)
  unfolding post_enable_init virt_heap_region
  post_enable_init-done m no_pool no_heap =
      let mmu : KernelMmu = with_pool (remap_section tock ld laid) m.shared.board.mmu in
      two_in_turn (on_mmu (kernel_init_mmio_va_allocator ld))
        (on_heap (kernel_init_heap_allocator library ld)) m (with_mmu mmu m) (with_memory m)
        (zoom-ok (λ k. k.board.mmu) set_mmu (kernel_init_mmio_va_allocator ld) m tt
          (record (view (λ k. k.board.mmu) m) { shared = mmu })
          (pool_given tock ld laid (view (λ k. k.board.mmu) m) no_pool))
        (zoom-ok (λ k. k.heap) (λ heap k. record k { heap = heap })
          (kernel_init_heap_allocator library ld) (with_mmu mmu m) tt
          (initialized library (heap_section ld) (view (λ k. k.heap) m))
          (kernel_init_heap_allocator-once library ld (heap_section ld) (view (λ k. k.heap) m)
            (section_lem ld.heap_start ld.heap_end_exclusive laid.heap (heap_low ld laid))
            no_heap).0)
