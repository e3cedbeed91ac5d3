-- ===== src/Heap/Allocating.antt =====
-- What the heap's calls give and leave.
use rp4os.Base.{
  ℕ, ◌+◌, ◌<◌, ◌≡◌, refl, ap, ◌∙◌, Bool, true, false, if◌then◌else◌, Option, none, some, arith, ltb,
  u64_mod,
}
use rp4os.Base.Outcome.{Outcome, ok}
use rp4os.Base.Exec.{bind_outcome}
use rp4os.Memory.Address.{address_add}
use rp4os.Sync.{Machine}
use rp4os.Sync.Locks.{lock_lem, lock-ok}
use rp4os.Bsp.Layout.{LinkerSymbols, virt_heap_region}
use rp4os.Mmu.Region.{MemoryRegion, size}
use rp4os.Heap.{
  HeapAllocator, LinkedListHeap, Layout, alloc, kernel_init_heap_allocator, null, init_inner,
  on_inner, hand_out, debug_print_alloc_dealloc,
}

abbrev pub pointer_of : Option ℕ → ℕ
pointer_of none = null
pointer_of (some ptr) = ptr

module _ {H : Type 0} (library : LinkedListHeap H) where
  abbrev pub with_inner : H → Machine (HeapAllocator H) → Machine (HeapAllocator H)
  with_inner inner m = record m { shared = record m.shared { inner = inner } }

  -- The heap with its section, and marked.
  abbrev pub initialized : MemoryRegion → Machine (HeapAllocator H) → Machine (HeapAllocator H)
  initialized region m = record m {
    shared = record {
      inner = library.init region.start_page (size region) m.shared.inner;
      init_done = true;
    };
  }

  init_inner_lem :
      (ld : LinkerSymbols) (region : MemoryRegion) (m : Machine (HeapAllocator H))
      → virt_heap_region ld ≡ ok region
      → init_inner library ld m ≡ (ok tt, initialized region m)
  unfolding init_inner
  init_inner_lem ld region m layout =
      rw
        (
          layout,
          lock_lem
              (on_inner library
                (λ inner. (ok tt, library.init region.start_page (size region) inner)))
              m tt,
        )
        refl

  -- The first call gives the heap its section; a second one changes nothing.
  pub kernel_init_heap_allocator-once :
      (ld : LinkerSymbols) (region : MemoryRegion) (m : Machine (HeapAllocator H))
      → virt_heap_region ld ≡ ok region
      → m.shared.init_done ≡ false
      → (kernel_init_heap_allocator library ld m ≡ (ok tt, initialized region m))
        × (kernel_init_heap_allocator library ld (initialized region m)
            ≡ (ok tt, initialized region m))
  unfolding kernel_init_heap_allocator
  kernel_init_heap_allocator-once ld region m layout fresh = (
    ap (λ (done : Bool). if done then (ok tt, m) else init_inner library ld m) fresh
        ∙ init_inner_lem ld region m layout,
    refl,
  )

  hand_out_lem :
      (layout : Layout) (found : Option ℕ) (m : Machine (HeapAllocator H))
      → ((ptr : ℕ) → found ≡ some ptr → ptr + layout.size < u64_mod)
      → hand_out library layout found m ≡ (ok (pointer_of found), m)
  unfolding debug_print_alloc_dealloc address_add
  hand_out_lem layout none m fits = refl
  hand_out_lem layout (some ptr) m fits =
      let small : ltb (ptr + layout.size) u64_mod ≡ true = ground (arith, fits ptr refl) in
      rw small refl

  -- A block that fits and ends below 2 ^ 64 is handed out, without one null; the heap is as the
  -- library leaves it and all else, the interrupt mask included, is as before.
  pub alloc_lem :
      (layout : Layout) (found : Option ℕ) (inner : H) (m : Machine (HeapAllocator H))
      → library.allocate_first_fit layout m.shared.inner ≡ (found, inner)
      → ((ptr : ℕ) → found ≡ some ptr → ptr + layout.size < u64_mod)
      → alloc library layout m ≡ (ok (pointer_of found), with_inner inner m)
  unfolding alloc
  alloc_lem layout found inner m e fits =
      ap
        (λ (r : Outcome (Option ℕ) × Machine (HeapAllocator H)).
          bind_outcome r.0 r.1 (hand_out library layout))
        (lock-ok
          (on_inner library
            (λ inner. let r = library.allocate_first_fit layout inner in (ok r.0, r.1)))
          found (record m.shared { inner = inner }) m
          (ap (λ (r : Option ℕ × H). (ok r.0, record m.shared { inner = r.1 })) e))
      ∙ hand_out_lem layout found (with_inner inner m) fits
