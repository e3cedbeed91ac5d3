-- ===== src/Mmu/Table/Space.antt =====
-- The translation tables as an abstract address space: a partial function from pages to physical
-- pages and attributes, claimed page by page.
use rp4os.Base.{
  ℕ, zero, suc, ◌+◌, ◌*◌, ◌%◌, ◌<◌, ◌≡◌, refl, Bool, true, false, arith, ltb, ◌==◌, Bool-cases, inl,
  inr, if◌then◌else◌, Option, none, some, Option-cases,
}
use rp4os.Base.Outcome.{Outcome, ok, err}
use rp4os.Registers.{Tock}
use rp4os.Memory.Address.{ms_kernel, ms_512_mib}
use rp4os.Mmu.Region.{MemoryRegion, IsRegion, pages, size}
use rp4os.Mmu.Region.Split.{size_lem}
use rp4os.Mmu.Descriptor.{AttributeFields, is_valid, try_attributes}
use rp4os.Mmu.Descriptor
use rp4os.Mmu.Descriptor.Bits.{new-is_valid}
use rp4os.Mmu.Table.{
  TranslationTable, map_pages, map_at, map_end, update, region_pairs, zip_pages, page_list,
}
use rp4os.Mmu.Table.Index.{descriptor_at, lvl2_of, lvl3_of, update_same_page, set_descriptor_lem}
use rp4os.Mmu.Table.Mapping.{pairs_from, map_end_page}

-- Where a page is mapped, and how.
abbrev pub Space : Type 0
Space = ℕ → Option (ℕ × AttributeFields)

abbrev pub claim : ℕ → ℕ → AttributeFields → Space → Space
claim virt phys attr space page = if virt == page then some (phys, attr) else space page

abbrev unless_taken {ℓ} :
    {A : Type ℓ} → Option A → Space → Outcome (Unit {0}) × Space → Outcome (Unit {0}) × Space
unless_taken none space rest = rest
unless_taken (some taken) space rest = (err "Virtual page is already mapped", space)

-- Pages are claimed in order, up to the first that is taken or outside.
unfoldable pub claim_pages : ℕ → ℕ → ℕ → ℕ → AttributeFields → Space → Outcome (Unit {0}) × Space
claim_pages limit zero phys virt attr space = (ok tt, space)
claim_pages limit (suc n) phys virt attr space =
    let rest =
      claim_pages limit n (phys + ms_kernel) (virt + ms_kernel) attr (claim virt phys attr space) in
    if ltb virt limit
    then unless_taken (space virt) space rest
    else (err "Virtual page is out of bounds of translation table", space)

-- What mapping a region promises.
unfoldable pub claim_region :
    ℕ → MemoryRegion → MemoryRegion → AttributeFields → Space → Outcome (Unit {0}) × Space
claim_region limit virt_region phys_region attr space =
    if pages virt_region == pages phys_region
    then (if ltb map_end phys_region.end_page_exclusive
        then (err "Tried to map outside of physical address space", space)
        else claim_pages limit (pages virt_region) phys_region.start_page virt_region.start_page
            attr space)
    else (err "Tried to map memory regions with unequal sizes", space)

module _ (tock : Tock) where
  abbrev pub Holds : ℕ → Option (ℕ × AttributeFields) → Type 0
  Holds descriptor none = is_valid tock descriptor ≡ false
  Holds descriptor (some (phys, attr)) = descriptor ≡ Descriptor.new tock phys attr

  -- The tables hold exactly the space.
  abbrev pub Represents : Space → TranslationTable → Type 0
  Represents space table =
      (page : ℕ) → page % ms_kernel ≡ 0 → Holds (descriptor_at table page) (space page)

  abbrev with_page : ℕ → ℕ → AttributeFields → TranslationTable → TranslationTable
  with_page virt phys attr table = record table {
    lvl3 = update table.lvl3 (lvl2_of virt) (lvl3_of virt) (Descriptor.new tock phys attr);
  }

  claim-Represents :
      (space : Space) (table : TranslationTable) (virt phys : ℕ) (attr : AttributeFields)
      → virt % ms_kernel ≡ 0
      → Represents space table
      → Represents (claim virt phys attr space) (with_page virt phys attr table)
  claim-Represents space table virt phys attr aligned r page a =
      rw (update_same_page table virt page (Descriptor.new tock phys attr) aligned a)
        (elim (Bool-cases (virt == page)) [ inl e ↦ rw e refl | inr e ↦ rw e (r page a) ])

  abbrev taken : Option (ℕ × AttributeFields) → Bool
  taken none = false
  taken (some target) = true

  Holds-is_valid :
      (descriptor : ℕ) (target : Option (ℕ × AttributeFields))
      → Holds descriptor target
      → is_valid tock descriptor ≡ taken target
  Holds-is_valid descriptor none h = h
  Holds-is_valid descriptor (some (phys, attr)) h = rw (h, new-is_valid tock phys attr) refl

  -- A page is mapped in the tables exactly when it is in the space.
  pub Represents-is_valid :
      (space : Space) (table : TranslationTable) (page : ℕ)
      → page % ms_kernel ≡ 0
      → Represents space table
      → is_valid tock (descriptor_at table page) ≡ taken (space page)
  Represents-is_valid space table page aligned r =
      Holds-is_valid (descriptor_at table page) (space page) (r page aligned)

  module _ (num_tables : ℕ) (pos : 0 < num_tables) where
    abbrev pub Refines : Outcome (Unit {0}) × TranslationTable → Outcome (Unit {0}) × Space → Type 0
    Refines concrete abstract' = (concrete.0 ≡ abstract'.0) × Represents abstract'.1 concrete.1

    map_pages-Refines :
        (n phys virt : ℕ) (attr : AttributeFields) (space : Space) (table : TranslationTable)
        → virt % ms_kernel ≡ 0
        → Represents space table
        → Refines
            (map_pages tock num_tables attr (pairs_from n phys virt) table)
            (claim_pages (num_tables * ms_512_mib) n phys virt attr space)
    unfolding claim_pages map_pages zip_pages page_list
    map_pages-Refines zero phys virt attr space table aligned r = (refl, r)
    map_pages-Refines (suc n) phys virt attr space table aligned r =
        let desc = Descriptor.new tock phys attr in
        let write = set_descriptor_lem tock num_tables virt desc table pos in
        elim (Bool-cases (ltb virt (num_tables * ms_512_mib))) [
          | inl inside ↦ elim (Option-cases (space virt)) [
            | inl free ↦
                let unset : is_valid tock (descriptor_at table virt) ≡ false =
                  rw (Represents-is_valid space table virt aligned r, free) refl in
                rw (write, inside, free, unset)
                  (map_pages-Refines n (phys + ms_kernel) (virt + ms_kernel) attr
                    (claim virt phys attr space) (with_page virt phys attr table) (omega arith)
                    (claim-Represents space table virt phys attr aligned r))
            | inr (taken, e) ↦
                let set : is_valid tock (descriptor_at table virt) ≡ true =
                  rw (Represents-is_valid space table virt aligned r, e) refl in
                rw (write, inside, e, set) (refl, r)
          ]
          | inr outside ↦ rw (write, outside) (refl, r)
        ]

module _ (tock : Tock) (num_tables : ℕ) (pos : 0 < num_tables)
    (virt_region phys_region : MemoryRegion) (v : IsRegion virt_region)
    (p : IsRegion phys_region) where
  same_pages : (size virt_region == size phys_region) ≡ (pages virt_region == pages phys_region)
  same_pages = ground (arith, size_lem virt_region v, size_lem phys_region p)

  -- `map_at` on initialized tables, branch by branch.
  map_at_lem :
      (attr : AttributeFields) (table : TranslationTable)
      → table.initialized ≡ true
      → map_at tock num_tables virt_region phys_region attr table ≡ (
          if pages virt_region == pages phys_region
          then if ltb map_end phys_region.end_page_exclusive
            then (err "Tried to map outside of physical address space", table)
            else map_pages tock num_tables attr (region_pairs phys_region virt_region) table
          else (err "Tried to map memory regions with unequal sizes", table))
  unfolding map_at
  map_at_lem attr table ready =
      ground (
        arith,
        same_pages,
        map_end_page tock num_tables attr virt_region phys_region v p table ready,
      )

  -- On initialized tables that hold exactly a space, and for two well-formed regions, `map_at`
  -- does on every branch what the specification says: it returns what claiming the pages in the
  -- space returns, an error that stops it half way included, and the tables then hold exactly the
  -- space that this leaves.
  pub map_at-Refines :
      (attr : AttributeFields) (space : Space) (table : TranslationTable)
      → table.initialized ≡ true
      → Represents tock space table
      → Refines tock num_tables pos
          (map_at tock num_tables virt_region phys_region attr table)
          (claim_region (num_tables * ms_512_mib) virt_region phys_region attr space)
  unfolding claim_region region_pairs
  map_at-Refines attr space table ready r =
      elim (Bool-cases (pages virt_region == pages phys_region)) [
        | inl same ↦ elim (Bool-cases (ltb map_end phys_region.end_page_exclusive)) [
          | inl outside ↦ rw (map_at_lem attr table ready, same, outside) (refl, r)
          | inr inside ↦
              let count : pages phys_region ≡ pages virt_region = ground arith in
              rw (map_at_lem attr table ready, same, inside, count)
                (map_pages-Refines tock num_tables pos (pages virt_region) phys_region.start_page
                  virt_region.start_page attr space table v.start_aligned r)
        ]
        | inr other ↦ rw (map_at_lem attr table ready, other) (refl, r)
      ]
