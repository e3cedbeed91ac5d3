-- ===== src/Mmu/PageAlloc.antt =====
-- The page allocator of src/memory/mmu/page_alloc.rs, which hands out pages from the front of its
-- pool and takes none back.
pub mod Tiling
use rp4os.Base.{ℕ, Option, none, some}
use rp4os.Base.Outcome.{Outcome, ok, err}
use rp4os.Base.Exec.{Exec}
use rp4os.Mmu.Region.{MemoryRegion, take_first_n_pages}

pub record PageAllocator : Type 0 where
  pub pool : Option MemoryRegion

unfoldable pub new : PageAllocator
new = record { pool = none }

-- A second call only warns.
unfoldable pub init : MemoryRegion → PageAllocator → PageAllocator
init pool allocator = elim allocator.pool [
  | none ↦ record { pool = some pool }
  | some _ ↦ allocator
]

unfoldable pub alloc : ℕ → Exec PageAllocator MemoryRegion
alloc num_requested_pages allocator = elim allocator.pool [
  | none ↦ (err "Allocator not initialized", allocator)
  | some pool ↦
      let r = take_first_n_pages num_requested_pages pool in (r.0, record { pool = some r.1 })
]
