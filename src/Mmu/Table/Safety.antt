-- ===== src/Mmu/Table/Safety.antt =====
-- What no call of the table operations can do, and what is read back after a mapping.
use rp4os.Base.{
  ℕ, ◌+◌, ◌-◌, ◌*◌, ◌%◌, ◌<◌, ◌≡◌, refl, true, not, arith, Bool-cases, inl, inr, List, [], ◌∷◌,
  if◌then◌else◌,
}
use rp4os.Base.Outcome.{ok, err}
use rp4os.Base.Exec.{seq_state}
use rp4os.Registers.{Tock}
use rp4os.Memory.Address.{ms_kernel, ms_512_mib}
use rp4os.Mmu.Region.{MemoryRegion}
use rp4os.Mmu.Descriptor.{AttributeFields, is_valid}
use rp4os.Mmu.Descriptor
use rp4os.Mmu.Descriptor.Bits.{new-is_valid, try_attributes-new}
use rp4os.Mmu.Table.{
  TranslationTable, set_descriptor, region_pairs, map_pages, map_at, try_page_attributes,
}
use rp4os.Mmu.Table.Index.{descriptor_at, set_descriptor_lem, get_descriptor_lem}
use rp4os.Mmu.Table.Mapping.{Written, within}

module _ (tock : Tock) (num_tables : ℕ) (pos : 0 < num_tables) where
  -- Every valid entry is still there.
  abbrev pub Keeps : TranslationTable → TranslationTable → Type 0
  Keeps before after =
      (i j : ℕ) → is_valid tock (before.lvl3 i j) ≡ true → after.lvl3 i j ≡ before.lvl3 i j

  Keeps-trans : (a b c : TranslationTable) → Keeps a b → Keeps b c → Keeps a c
  Keeps-trans a b c h k i j taken = ground (arith, h i j taken, k i j)

  set_descriptor-Keeps :
      (virt value : ℕ) (table : TranslationTable)
      → Keeps table (set_descriptor tock num_tables virt value table).1
  set_descriptor-Keeps virt value table i j taken =
      ground (arith, set_descriptor_lem tock num_tables virt value table pos)

  map_pages-Keeps :
      (attr : AttributeFields) (pairs : List (ℕ × ℕ)) (table : TranslationTable)
      → Keeps table (map_pages tock num_tables attr pairs table).1
  unfolding map_pages
  map_pages-Keeps attr [] table = λ i j taken. refl
  map_pages-Keeps attr ((phys, virt) ∷ pairs) table =
      let step = set_descriptor-Keeps virt (Descriptor.new tock phys attr) table in
      seq_state (Keeps table) (set_descriptor tock num_tables virt (Descriptor.new tock phys attr))
        (map_pages tock num_tables attr pairs) table step
        λ after e.
          Keeps-trans table after (map_pages tock num_tables attr pairs after).1
            (λ i j taken. ground (arith, step i j taken)) (map_pages-Keeps attr pairs after)

  -- With at least one level 2 entry, whatever the other arguments, and also when it fails half
  -- way, `map_at` never overwrites a valid descriptor.
  pub map_at-Keeps :
      (virt_region phys_region : MemoryRegion) (attr : AttributeFields) (table : TranslationTable)
      → Keeps table (map_at tock num_tables virt_region phys_region attr table).1
  unfolding map_at
  map_at-Keeps virt_region phys_region attr table i j taken =
      ground (arith, map_pages-Keeps attr (region_pairs phys_region virt_region) table i j taken)

  -- The level 2 part and the flag are as before.
  abbrev Fixed : TranslationTable → TranslationTable → Type 0
  Fixed before after = (after.lvl2 ≡ before.lvl2) × (after.initialized ≡ before.initialized)

  set_descriptor-Fixed :
      (virt value : ℕ) (table : TranslationTable)
      → Fixed table (set_descriptor tock num_tables virt value table).1
  set_descriptor-Fixed virt value table =
      ground (arith, set_descriptor_lem tock num_tables virt value table pos)

  map_pages-Fixed :
      (attr : AttributeFields) (pairs : List (ℕ × ℕ)) (table : TranslationTable)
      → Fixed table (map_pages tock num_tables attr pairs table).1
  unfolding map_pages
  map_pages-Fixed attr [] table = (refl, refl)
  map_pages-Fixed attr ((phys, virt) ∷ pairs) table =
      let step = set_descriptor-Fixed virt (Descriptor.new tock phys attr) table in
      seq_state (Fixed table) (set_descriptor tock num_tables virt (Descriptor.new tock phys attr))
        (map_pages tock num_tables attr pairs) table step
        λ after e. let rest = map_pages-Fixed attr pairs after in ground (arith, step, rest)

  -- No mapping touches the level 2 part or the flag.
  pub map_at-Fixed :
      (virt_region phys_region : MemoryRegion) (attr : AttributeFields) (table : TranslationTable)
      → ((map_at tock num_tables virt_region phys_region attr table).1.lvl2 ≡ table.lvl2)
        × ((map_at tock num_tables virt_region phys_region attr table).1.initialized
            ≡ table.initialized)
  unfolding map_at
  map_at-Fixed virt_region phys_region attr table =
      ground (arith, map_pages-Fixed attr (region_pairs phys_region virt_region) table)

  try_page_attributes_lem :
      (page : ℕ) (table : TranslationTable)
      → page < num_tables * ms_512_mib
      → try_page_attributes tock num_tables page table ≡ (
          if is_valid tock (descriptor_at table page)
          then (Descriptor.try_attributes tock (descriptor_at table page), table)
          else (err "Page marked invalid", table))
  unfolding try_page_attributes
  try_page_attributes_lem page table low =
      ground (arith, get_descriptor_lem num_tables page table pos)

module _ (tock : Tock) (num_tables : ℕ) (pos : 0 < num_tables) (attr : AttributeFields)
    (phys virt n : ℕ) (before after : TranslationTable)
    (w : Written tock num_tables attr n phys virt before after) where
  -- After `n` pages from `virt` on were written to the tables, which have at least one level 2
  -- entry, the attributes of each of them are read back with the executable flag negated, and
  -- any other page of the tables reads as before.
  pub Written-try_page_attributes :
      (page : ℕ)
      → page % ms_kernel ≡ 0
      → page < num_tables * ms_512_mib
      → (try_page_attributes tock num_tables page after).0 ≡ (
          if within virt n page
          then ok (record attr { executable = not attr.executable })
          else (try_page_attributes tock num_tables page before).0)
  Written-try_page_attributes page a low = elim (Bool-cases (within virt n page)) [
    | inl inside ↦
        let here : descriptor_at after page ≡ Descriptor.new tock (phys + (page - virt)) attr =
          ground (arith, w.pages_of page a) in
        rw
          (
            inside,
            try_page_attributes_lem tock num_tables pos page after low,
            here,
            new-is_valid tock (phys + (page - virt)) attr,
          )
          (try_attributes-new tock (phys + (page - virt)) attr)
    | inr outside ↦
        let here : descriptor_at after page ≡ descriptor_at before page =
          ground (arith, w.pages_of page a) in
        rw
          (
            outside,
            try_page_attributes_lem tock num_tables pos page after low,
            try_page_attributes_lem tock num_tables pos page before low,
            here,
          )
          (ground arith)
  ]
