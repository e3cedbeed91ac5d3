-- ===== src/Mmu/Region/Overlap.antt =====
-- `contains` and `overlaps` against the pages that two regions really share.
use mathlib.Core.Logic.{◌↔◌}
use rp4os.Base.{
  ℕ, ◌-◌, ◌%◌, ◌≤◌, ◌<◌, ◌≡◌, refl, true, false, ◌&&◌, ◌||◌, ltb, leb, Bool-cases, ◌⊎◌, inl, inr,
  u64_mod, arith,
}
use native.Mathlib.Decide.{dec_le}
use rp4os.Base.Outcome.{ok}
use rp4os.Memory.Align.Laws.{align_down-pow, is_aligned-pow}
use rp4os.Memory.Address.{ms_kernel, align_down_page, is_page_aligned}
use rp4os.Mmu.Region.{
  MemoryRegion, IsRegion, range_contains, end_inclusive_page_addr, contains, overlaps,
  page_from_address,
}
use rp4os.Mmu.Region.Offsets.{checked_offset_negative}

pub align_down_page_lem :
    (addr : ℕ) → addr < u64_mod → align_down_page addr ≡ ok (addr - addr % ms_kernel)
unfolding align_down_page
align_down_page_lem addr fits = align_down-pow addr 16 fits (omega arith)

pub page_from_address_lem : (addr : ℕ) → addr % ms_kernel ≡ 0 → page_from_address addr ≡ ok addr
unfolding page_from_address is_page_aligned
page_from_address_lem addr h = ground (arith, is_aligned-pow addr 16)

-- An address lies in a region, by its page, exactly when it lies between the region's ends.
pub contains_lem :
    (region : MemoryRegion) (addr : ℕ)
    → IsRegion region
    → addr < u64_mod
    → contains region addr ≡ ok (leb region.start_page addr && ltb addr region.end_page_exclusive)
unfolding contains range_contains
contains_lem region addr r fits = ground (
  arith,
  align_down_page_lem addr fits,
  page_from_address_lem (addr - addr % ms_kernel) (omega arith),
)

pub end_inclusive_lem :
    (region : MemoryRegion)
    → IsRegion region
    → ms_kernel ≤ region.end_page_exclusive
    → end_inclusive_page_addr region ≡ ok (region.end_page_exclusive - ms_kernel)
unfolding end_inclusive_page_addr
end_inclusive_lem region r room = ground (
  arith,
  checked_offset_negative region.end_page_exclusive 1 r.end_fits (omega arith) (omega arith),
)

pub overlaps_lem :
    (region other : MemoryRegion)
    → IsRegion other
    → other.start_page < other.end_page_exclusive
    → overlaps region other
      ≡ ok (
          range_contains region other.start_page
          || range_contains region (other.end_page_exclusive - ms_kernel))
unfolding overlaps
overlaps_lem region other r full = ground (arith, end_inclusive_lem other r (omega arith))

-- A page that lies in both regions.
abbrev pub Shared : MemoryRegion → MemoryRegion → Type 0
Shared a b =
    (page : ℕ) × (page % ms_kernel ≡ 0)
    × (a.start_page ≤ page)
    × (page < a.end_page_exclusive)
    × (b.start_page ≤ page)
    × (page < b.end_page_exclusive)

abbrev pub Encloses : MemoryRegion → MemoryRegion → Type 0
Encloses b a = (b.start_page < a.start_page) × (a.end_page_exclusive < b.end_page_exclusive)

module _ (region other : MemoryRegion) (r : IsRegion region) (o : IsRegion other)
    (full : other.start_page < other.end_page_exclusive) where
  overlaps_sound : overlaps region other ≡ ok true → Shared region other
  unfolding range_contains
  overlaps_sound h = elim (Bool-cases (range_contains region other.start_page)) [
    | inl first ↦ (
      other.start_page,
      o.start_aligned,
      ground (arith, first),
      ground (arith, first),
      omega arith,
      full,
    )
    | inr other_first ↦
        let last : range_contains region (other.end_page_exclusive - ms_kernel) ≡ true =
          ground (arith, overlaps_lem region other o full, other_first, h) in
        (
          other.end_page_exclusive - ms_kernel,
          omega (arith, o.end_aligned, o.start_aligned, full),
          ground (arith, last),
          ground (arith, last),
          omega (arith, o.end_aligned, o.start_aligned, full),
          omega (arith, o.end_aligned, o.start_aligned, full),
        )
  ]

  overlaps_complete :
      ¬ Encloses other region → Shared region other → overlaps region other ≡ ok true
  unfolding range_contains
  overlaps_complete h (page, aligned, p, p', q, q') =
      let open_side : (region.start_page ≤ other.start_page)
          ⊎ (other.end_page_exclusive ≤ region.end_page_exclusive) =
        elim (dec_le region.start_page other.start_page) [
          | yes a ↦ inl a
          | no a ↦ elim (dec_le other.end_page_exclusive region.end_page_exclusive) [
            | yes b ↦ inr b
            | no b ↦ absurd (h (omega arith, omega arith))
          ]
        ] in
      ground (
        arith,
        open_side,
        overlaps_lem region other o full,
        o.end_aligned,
        o.start_aligned,
        aligned,
      )

  -- Of two regions, the second not empty and not enclosing the first on both sides, `overlaps`
  -- says exactly whether they share a page.
  pub overlaps-Shared :
      ¬ Encloses other region → (overlaps region other ≡ ok true) ↔ Shared region other
  overlaps-Shared h = (overlaps_sound, overlaps_complete h)

  -- A region that encloses a non-empty one on both sides goes unnoticed, although they share a
  -- page.
  pub overlaps_misses_enclosing :
      region.start_page < region.end_page_exclusive
      → Encloses other region
      → (overlaps region other ≡ ok false) × Shared region other
  unfolding range_contains
  overlaps_misses_enclosing full' e = (
    ground (arith, overlaps_lem region other o full),
    (region.start_page, r.start_aligned, omega arith, omega arith, omega arith, omega arith),
  )

  -- Regions that share no page never overlap.
  pub overlaps_apart : ¬ Shared region other → overlaps region other ≡ ok false
  overlaps_apart apart =
      elim (Bool-cases (
        range_contains region other.start_page
        || range_contains region (other.end_page_exclusive - ms_kernel))) [
          | inl hit ↦
              absurd (apart (overlaps_sound (rw (overlaps_lem region other o full, hit) refl)))
          | inr miss ↦ rw (overlaps_lem region other o full, miss) refl
        ]
