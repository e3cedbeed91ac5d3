-- ===== src/Mmu/Table/Mapping.antt =====
-- `map_at`, page by page: what a run writes, and where it stops.
use rp4os.Base.{
  ℕ, zero, suc, ◌+◌, ◌-◌, ◌*◌, ◌%◌, ◌≤◌, ◌<◌, ◌≡◌, refl, Bool, true, false, arith, ltb, leb, ◌&&◌,
  if◌then◌else◌, List, ◌==◌,
}
use rp4os.Base.Outcome.{ok, err}
use rp4os.Registers.{Tock}
use rp4os.Memory.Align.{is_aligned, is_power_of_two}
use rp4os.Memory.Address.{ms_kernel, ms_512_mib}
use rp4os.Mmu.Region.{MemoryRegion, IsRegion, pages, size, page_from_usize}
use rp4os.Mmu.Region.Split.{size_lem}
use rp4os.Mmu.Descriptor.{AttributeFields, is_valid}
use rp4os.Mmu.Descriptor
use rp4os.Mmu.Table.{
  TranslationTable, set_descriptor, page_list, zip_pages, region_pairs, map_pages, map_at, update,
  map_end,
}
use rp4os.Mmu.Table.Index.{descriptor_at, lvl2_of, lvl3_of, update_same_page, set_descriptor_lem}

-- The first `n` pages from `virt` and from `phys`.
abbrev pub pairs_from : ℕ → ℕ → ℕ → List (ℕ × ℕ)
pairs_from n phys virt = zip_pages (page_list n phys) (page_list n virt)

abbrev pub within : ℕ → ℕ → ℕ → Bool
within start n page = leb start page && ltb page (start + n * ms_kernel)

-- None of the `n` pages from `virt` on is mapped.
abbrev pub Unmapped : Tock → ℕ → ℕ → TranslationTable → Type 0
Unmapped tock n virt table =
    (page : ℕ)
    → page % ms_kernel ≡ 0
    → within virt n page ≡ true
    → is_valid tock (descriptor_at table page) ≡ false

module _ (tock : Tock) (num_tables : ℕ) (attr : AttributeFields) where
  -- The pages from `virt` on, `n` of them, point to those from `phys` on; all others are as before.
  pub record Written (n phys virt : ℕ) (before after : TranslationTable) : Type 0 where
    pub pages_of :
        (page : ℕ)
        → page % ms_kernel ≡ 0
        → descriptor_at after page ≡ (
            if within virt n page
            then Descriptor.new tock (phys + (page - virt)) attr
            else descriptor_at before page)
    pub lvl2_same : after.lvl2 ≡ before.lvl2
    pub initialized_same : after.initialized ≡ before.initialized

  -- One page written.
  abbrev one : ℕ → ℕ → TranslationTable → TranslationTable
  one phys virt table = record table {
    lvl3 = update table.lvl3 (lvl2_of virt) (lvl3_of virt) (Descriptor.new tock phys attr);
  }

  one-set :
      (phys virt n : ℕ) (table : TranslationTable)
      → virt % ms_kernel ≡ 0
      → 0 < num_tables
      → virt < num_tables * ms_512_mib
      → Unmapped tock (suc n) virt table
      → set_descriptor tock num_tables virt (Descriptor.new tock phys attr) table
        ≡ (ok tt, one phys virt table)
  one-set phys virt n table a pos low free = ground (
    arith,
    set_descriptor_lem tock num_tables virt (Descriptor.new tock phys attr) table,
    free virt,
  )

  one_other :
      (phys virt page : ℕ) (table : TranslationTable)
      → virt % ms_kernel ≡ 0
      → page % ms_kernel ≡ 0
      → virt < page
      → is_valid tock (descriptor_at table page) ≡ true
      → is_valid tock (descriptor_at (one phys virt table) page) ≡ true
  one_other phys virt page table a b less taken =
      ground (arith, update_same_page table virt page (Descriptor.new tock phys attr) a b)

  one-Unmapped :
      (phys virt n : ℕ) (table : TranslationTable)
      → virt % ms_kernel ≡ 0
      → Unmapped tock (suc n) virt table
      → Unmapped tock n (virt + ms_kernel) (one phys virt table)
  one-Unmapped phys virt n table a free page b inside =
      ground
        (arith, update_same_page table virt page (Descriptor.new tock phys attr) a b, free page b)

  one-Written :
      (phys virt n : ℕ) (table after : TranslationTable)
      → virt % ms_kernel ≡ 0
      → Written n (phys + ms_kernel) (virt + ms_kernel) (one phys virt table) after
      → Written (suc n) phys virt table after
  one-Written phys virt n table after a w = record {
    pages_of = λ page b. ground (
      arith,
      w.pages_of page b,
      update_same_page table virt page (Descriptor.new tock phys attr) a b,
    );
    lvl2_same = w.lvl2_same;
    initialized_same = w.initialized_same;
  }

  -- A run over unmapped pages writes them all.
  map_run :
      (n phys virt : ℕ) (table : TranslationTable)
      → 0 < num_tables
      → virt % ms_kernel ≡ 0
      → virt + n * ms_kernel ≤ num_tables * ms_512_mib
      → Unmapped tock n virt table
      → (after : TranslationTable) × (map_pages tock num_tables attr (pairs_from n phys virt) table
          ≡ (ok tt, after))
        × Written n phys virt table after
  unfolding map_pages zip_pages page_list
  map_run zero phys virt table pos a low free = (
    table,
    refl,
    record { pages_of = λ page b. ground arith; lvl2_same = refl; initialized_same = refl },
  )
  map_run (suc n) phys virt table pos a low free =
      let (after, e, w) =
        map_run n (phys + ms_kernel) (virt + ms_kernel) (one phys virt table) pos (omega arith)
          (omega arith) (one-Unmapped phys virt n table a free) in
      (
        after,
        rw (one-set phys virt n table a pos (omega arith) free) e,
        one-Written phys virt n table after a w,
      )

  -- A run that meets a mapped page, after `k` others, has written those and stops there.
  map_run_conflict :
      (n k phys virt : ℕ) (table : TranslationTable)
      → k < n
      → 0 < num_tables
      → virt % ms_kernel ≡ 0
      → virt + n * ms_kernel ≤ num_tables * ms_512_mib
      → Unmapped tock k virt table
      → is_valid tock (descriptor_at table (virt + k * ms_kernel)) ≡ true
      → (after : TranslationTable) × (map_pages tock num_tables attr (pairs_from n phys virt) table
          ≡ (err "Virtual page is already mapped", after))
        × Written k phys virt table after
  unfolding map_pages zip_pages page_list
  map_run_conflict zero k phys virt table less pos a low free taken = elim less [ ]
  map_run_conflict (suc n) zero phys virt table less pos a low free taken = (
    table,
    ground (arith, set_descriptor_lem tock num_tables virt (Descriptor.new tock phys attr) table),
    record { pages_of = λ page b. ground arith; lvl2_same = refl; initialized_same = refl },
  )
  map_run_conflict (suc n) (suc k) phys virt table less pos a low free taken =
      let shift : virt + ms_kernel + k * ms_kernel ≡ virt + suc k * ms_kernel = omega arith in
      let taken' : is_valid tock (descriptor_at table (virt + ms_kernel + k * ms_kernel)) ≡ true =
        rw shift taken in
      let (after, e, w) =
        map_run_conflict n k (phys + ms_kernel) (virt + ms_kernel) (one phys virt table)
          (omega arith) pos (omega arith) (omega arith) (one-Unmapped phys virt k table a free)
          (one_other phys virt (virt + ms_kernel + k * ms_kernel) table a (omega arith)
            (omega arith) taken') in
      (
        after,
        rw (one-set phys virt k table a pos (omega arith) free) e,
        one-Written phys virt k table after a w,
      )

module _ (tock : Tock) (num_tables : ℕ) (attr : AttributeFields)
    (virt_region phys_region : MemoryRegion) (v : IsRegion virt_region) (p : IsRegion phys_region)
    (table : TranslationTable) (ready : table.initialized ≡ true) where
  same_size : pages virt_region ≡ pages phys_region → (size virt_region == size phys_region) ≡ true
  same_size e = ground (arith, size_lem virt_region v, size_lem phys_region p)

  pub map_end_page : page_from_usize map_end ≡ ok map_end
  unfolding page_from_usize is_aligned is_power_of_two
  map_end_page = refl

  -- With matching sizes inside the physical address space, `map_at` is its loop.
  map_at-loop :
      pages virt_region ≡ pages phys_region
      → phys_region.end_page_exclusive ≤ map_end
      → map_at tock num_tables virt_region phys_region attr table
        ≡ map_pages tock num_tables attr
            (pairs_from (pages virt_region) phys_region.start_page virt_region.start_page)
            table
  unfolding map_at region_pairs
  map_at-loop e low =
      let inside : ltb map_end phys_region.end_page_exclusive ≡ false = ground arith in
      rw (ready, same_size e, map_end_page, inside, ← e) refl

  -- With the tables initialized, mapping a region that lies within them to a physical region of
  -- as many pages below the end of the physical address space, when none of its pages is
  -- mapped, succeeds and does what it says: each page of the virtual region points to the
  -- physical page at the same distance from the start, with the attributes, and no other page
  -- changes.
  pub map_at_success :
      pages virt_region ≡ pages phys_region
      → phys_region.end_page_exclusive ≤ map_end
      → 0 < num_tables
      → virt_region.end_page_exclusive ≤ num_tables * ms_512_mib
      → Unmapped tock (pages virt_region) virt_region.start_page table
      → (after : TranslationTable) × (map_at tock num_tables virt_region phys_region attr table
          ≡ (ok tt, after))
        × Written tock num_tables attr
            (pages virt_region)
            phys_region.start_page
            virt_region.start_page
            table
            after
  map_at_success e low pos high free = rw (map_at-loop e low) (
      map_run tock num_tables attr (pages virt_region) phys_region.start_page virt_region.start_page
        table pos v.start_aligned (omega (arith, v.start_aligned, v.end_aligned, v.ordered)) free)

  -- `map_at` is not atomic. With the tables initialized, and for a virtual region within them and a
  -- physical one of as many pages below the end of the physical address space: when the first
  -- `k` pages of the virtual region are unmapped and the next one is already mapped, the call
  -- fails and those `k` pages stay mapped, each to the physical page at the same distance, while
  -- no other page changes.
  pub map_at_conflict :
      (k : ℕ)
      → k < pages virt_region
      → pages virt_region ≡ pages phys_region
      → phys_region.end_page_exclusive ≤ map_end
      → 0 < num_tables
      → virt_region.end_page_exclusive ≤ num_tables * ms_512_mib
      → Unmapped tock k virt_region.start_page table
      → is_valid tock (descriptor_at table (virt_region.start_page + k * ms_kernel)) ≡ true
      → (after : TranslationTable) × (map_at tock num_tables virt_region phys_region attr table
          ≡ (err "Virtual page is already mapped", after))
        × Written tock num_tables attr k phys_region.start_page virt_region.start_page table after
  map_at_conflict k less e low pos high free taken = rw (map_at-loop e low) (
      map_run_conflict tock num_tables attr (pages virt_region) k phys_region.start_page
        virt_region.start_page table less pos v.start_aligned
        (omega (arith, v.start_aligned, v.end_aligned, v.ordered)) free taken)
