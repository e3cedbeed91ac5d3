-- ===== src/Heap.antt =====
-- The kernel's heap of src/memory/heap_alloc.rs: the crate linked_list_allocator behind a lock.
-- What the crate's heap does is a parameter, and the printed texts are left out.
pub mod Allocating
use rp4os.Base.{ℕ, ◌+◌, Bool, true, false, Option, none, some, if◌then◌else◌}
use rp4os.Base.Outcome.{Outcome, ok}
use rp4os.Base.Exec.{Exec, lift, pure, ◌>>=◌, ◌>>◌}
use rp4os.Memory.Address.{address_add}
use rp4os.Sync.{Machine, lock}
use rp4os.Bsp.Layout.{LinkerSymbols, virt_heap_region}
use rp4os.Mmu.Region.{MemoryRegion, size}

-- `Layout` of the language's library.
pub record Layout : Type 0 where
  pub size : ℕ
  pub align : ℕ

-- The calls of `linked_list_allocator::Heap`. A block starts at its address, which is not null, and
-- `allocate_first_fit` gives none when no block fits.
pub record LinkedListHeap (H : Type 0) : Type 0 where
  pub empty : H
  pub init : ℕ → ℕ → H → H
  pub allocate_first_fit : Layout → H → Option ℕ × H
  pub deallocate : ℕ → Layout → H → H
  pub used : H → ℕ
  pub free : H → ℕ

-- KERNEL_HEAP_ALLOCATOR, with the INIT_DONE of `kernel_init_heap_allocator`.
pub record HeapAllocator (H : Type 0) : Type 0 where
  pub inner : H
  pub init_done : Bool

abbrev pub null : ℕ
null = 0

module _ {H : Type 0} (library : LinkedListHeap H) where
  unfoldable pub new : HeapAllocator H
  new = record { inner = library.empty; init_done = false }

  abbrev pub on_inner : {A : Type 0} → Exec H A → Exec (HeapAllocator H) A
  on_inner f allocator = let r = f allocator.inner in (r.0, record allocator { inner = r.1 })

  abbrev store_init_done : Exec (Machine (HeapAllocator H)) (Unit {0})
  store_init_done m = (ok tt, record m { shared = record m.shared { init_done = true } })

  -- The part of `kernel_init_heap_allocator` behind its guard.
  unfoldable pub init_inner : LinkerSymbols → Exec (Machine (HeapAllocator H)) (Unit {0})
  init_inner ld = do
    region ← lift (virt_heap_region ld)
    lock (on_inner (λ inner. (ok tt, library.init region.start_page (size region) inner)))
    store_init_done

  -- A second call only warns.
  unfoldable pub kernel_init_heap_allocator :
      LinkerSymbols → Exec (Machine (HeapAllocator H)) (Unit {0})
  unfolding init_inner
  kernel_init_heap_allocator ld m = if m.shared.init_done then pure tt m else init_inner ld m

  -- The end of the block is computed for the message, with a check for overflow.
  unfoldable pub debug_print_alloc_dealloc :
      ℕ → Layout → Exec (Machine (HeapAllocator H)) (Unit {0})
  debug_print_alloc_dealloc ptr layout = do end ← lift (address_add ptr layout.size); pure tt

  abbrev pub hand_out : Layout → Option ℕ → Exec (Machine (HeapAllocator H)) ℕ
  hand_out layout none = pure null
  hand_out layout (some ptr) = debug_print_alloc_dealloc ptr layout >> pure ptr

  unfoldable pub alloc : Layout → Exec (Machine (HeapAllocator H)) ℕ
  unfolding debug_print_alloc_dealloc
  alloc layout = do
    result ←
        lock (on_inner (λ inner. let r = library.allocate_first_fit layout inner in (ok r.0, r.1)))
    hand_out layout result

  unfoldable pub dealloc : ℕ → Layout → Exec (Machine (HeapAllocator H)) (Unit {0})
  unfolding debug_print_alloc_dealloc
  dealloc ptr layout = do
    lock (on_inner (λ inner. (ok tt, library.deallocate ptr layout inner)))
    debug_print_alloc_dealloc ptr layout

  -- The numbers that `print_usage` prints.
  unfoldable pub print_usage : Exec (Machine (HeapAllocator H)) (ℕ × ℕ)
  print_usage = lock (on_inner (λ inner. (ok (library.used inner, library.free inner), inner)))
