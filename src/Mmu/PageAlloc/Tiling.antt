-- ===== src/Mmu/PageAlloc/Tiling.antt =====
-- A history of allocations cuts the pool into consecutive regions.
use rp4os.Base.{ℕ, ◌^◌, ◌≤◌, ◌<◌, ◌≡◌, refl, some, List, [], ◌∷◌, arith}
use native.Mathlib.Decide.{dec_le}
use rp4os.Base.Outcome.{Outcome, ok, err, panic, unfinished}
use rp4os.Mmu.Region.{MemoryRegion, IsRegion, pages}
use rp4os.Mmu.Region.Split.{
  left_part, right_part, take_first_success, take_first_failure, parts-IsRegion,
}
use rp4os.Mmu.PageAlloc.{PageAllocator, alloc}

abbrev keep_ok : Outcome MemoryRegion → List MemoryRegion → List MemoryRegion
keep_ok (ok region) regions = region ∷ regions
keep_ok (err e) regions = regions
keep_ok (panic e) regions = regions
keep_ok unfinished regions = regions

pub alloc_front :
    (pool : MemoryRegion) (n : ℕ)
    → IsRegion pool
    → n < 2 ^ 63
    → n ≤ pages pool
    → alloc n (record { pool = some pool })
      ≡ (ok (left_part n pool), record { pool = some (right_part n pool) })
unfolding alloc
alloc_front pool n p small room = rw (take_first_success pool n p small room) refl

-- The regions that a list of requests obtains, and the allocator that is left.
pub alloc_all : List ℕ → PageAllocator → List MemoryRegion × PageAllocator
alloc_all [] allocator = ([], allocator)
alloc_all (n ∷ requests) allocator =
    let r = alloc n allocator in let rest = alloc_all requests r.1 in (keep_ok r.0 rest.0, rest.1)

-- The regions follow one another from `start` to `end`, none of them empty.
abbrev pub Tiles : ℕ → List MemoryRegion → ℕ → Type 0
Tiles start [] end = start ≡ end
Tiles start (region ∷ regions) end =
    (region.start_page ≡ start)
    × (start < region.end_page_exclusive)
    × IsRegion region
    × Tiles region.end_page_exclusive regions end

-- A request that fits an `isize`, as `NonZeroUsize`.
abbrev pub Requests : List ℕ → Type 0
Requests [] = Unit {0}
Requests (n ∷ requests) = (0 < n) × (n < 2 ^ 63) × Requests requests

-- Whatever positive numbers below 2 ^ 63 are requested of an allocator with a pool, the regions
-- handed out tile the front of the pool, and the allocator is left with the rest of it: no page
-- is handed out twice, lost, or taken from outside the pool.
pub alloc_all-Tiles :
    (requests : List ℕ) (pool : MemoryRegion)
    → IsRegion pool
    → Requests requests
    → (free : MemoryRegion) × ((alloc_all requests (record { pool = some pool })).1
        ≡ record { pool = some free })
      × Tiles pool.start_page (alloc_all requests (record { pool = some pool })).0 free.start_page
      × (free.end_page_exclusive ≡ pool.end_page_exclusive)
      × IsRegion free
unfolding alloc_all alloc
alloc_all-Tiles [] pool p h = (pool, refl, refl, refl, p)
alloc_all-Tiles (n ∷ requests) pool p h = elim (dec_le n (pages pool)) [
  | yes room ↦
      let (free, e, t, last, f) =
        alloc_all-Tiles requests (right_part n pool) (parts-IsRegion pool n p room).1 h.2 in
      rw (take_first_success pool n p h.1 room)
        (free, e, (refl, omega arith, (parts-IsRegion pool n p room).0, t), last, f)
  | no short ↦
      rw (take_first_failure pool n p h.1 (omega arith)) (alloc_all-Tiles requests pool p h.2)
]
