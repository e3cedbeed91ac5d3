-- ===== src/Mmu/Table.antt =====
-- `FixedSizeTranslationTable` of src/arch/aarch64/mmu/translation_table.rs: one level 3 table of
-- 8192 page descriptors for each level 2 entry. The level 3 array is a function of two indices,
-- with the bounds of an access written out.
pub mod Index
pub mod Mapping
pub mod Safety
pub mod Space
pub mod Translation
pub mod Walk
use rp4os.Base.{
  ℕ, zero, suc, not, ◌+◌, ◌-◌, ◌*◌, ◌/◌, ◌^◌, bit_and, Bool, true, false, ◌&&◌, List, [], ◌∷◌, ltb,
  ◌==◌, if◌then◌else◌, wrapping_add, replicate,
}
use rp4os.Base.Outcome.{Outcome, ok, err, assert}
use rp4os.Base.Exec.{Exec, lift, pure, get, put, fail_if, ◌>>=◌, ◌>>◌}
use rp4os.Registers.{Tock}
use rp4os.Memory.Address.{ms_kernel, ms_64_kib, ms_512_mib, granule_shift, granule_mask}
use rp4os.Mmu.Region.{MemoryRegion, pages, size, page_from_usize}
use rp4os.Mmu.Descriptor.{AttributeFields, from_phys_addr, new_zeroed, is_valid, try_attributes}
use rp4os.Mmu.Descriptor

pub record TranslationTable : Type 0 where
  pub lvl3 : ℕ → ℕ → ℕ
  pub lvl2 : List ℕ
  pub initialized : Bool

-- `map::END`, the end of the physical address space.
abbrev pub map_end : ℕ
map_end = 0xFF85_0000

abbrev pub lvl3_entries : ℕ
lvl3_entries = 8192

-- The pages of a region in the order of its iterator.
pub page_list : ℕ → ℕ → List ℕ
page_list zero start = []
page_list (suc count) start = start ∷ page_list count (start + ms_kernel)

-- `zip`, which stops with the shorter range.
pub zip_pages : List ℕ → List ℕ → List (ℕ × ℕ)
zip_pages [] ys = []
zip_pages (x ∷ xs) [] = []
zip_pages (x ∷ xs) (y ∷ ys) = (x, y) ∷ zip_pages xs ys

unfoldable pub region_pairs : MemoryRegion → MemoryRegion → List (ℕ × ℕ)
unfolding page_list zip_pages
region_pairs phys_region virt_region =
    zip_pages (page_list (pages phys_region) phys_region.start_page)
      (page_list (pages virt_region) virt_region.start_page)

-- `lvl3[i][j] = value`.
abbrev pub update : (ℕ → ℕ → ℕ) → ℕ → ℕ → ℕ → ℕ → ℕ → ℕ
update table i j value i' j' = if i' == i && j' == j then value else table i' j'

unfoldable pub new : ℕ → TranslationTable
new num_tables = record {
  lvl3 = λ i j. new_zeroed;
  lvl2 = replicate num_tables new_zeroed;
  initialized = false;
}

module _ (num_tables : ℕ) where
  unfoldable pub lvl2_lvl3_index_from_page_addr : ℕ → Outcome (ℕ × ℕ)
  lvl2_lvl3_index_from_page_addr addr =
      let lvl2_index = addr / 2 ^ granule_shift ms_512_mib in
      let lvl3_index = bit_and addr (granule_mask ms_512_mib) / 2 ^ granule_shift ms_64_kib in
      if ltb (num_tables - 1) lvl2_index
      then err "Virtual page is out of bounds of translation table"
      else ok (lvl2_index, lvl3_index)

  -- The bounds check of `lvl3[lvl2_index][lvl3_index]`.
  abbrev in_bounds : ℕ → ℕ → Bool
  in_bounds lvl2_index lvl3_index = ltb lvl2_index num_tables && ltb lvl3_index lvl3_entries

  unfoldable pub get_descriptor : ℕ → Exec TranslationTable ℕ
  get_descriptor virt_page_addr = do
    index ← lift (lvl2_lvl3_index_from_page_addr virt_page_addr)
    lift (assert (in_bounds index.0 index.1) "index out of bounds")
    table ← get
    pure (table.lvl3 index.0 index.1)

  unfoldable pub phys_base_address : ℕ → ℕ
  phys_base_address base = base + num_tables * (lvl3_entries * 8)

module _ (tock : Tock) where
  -- The loop of `init`, from entry `i` on. The tables stand at `base`, the level 3 part first.
  pub fill_lvl2 : ℕ → ℕ → List ℕ → List ℕ
  fill_lvl2 base i [] = []
  fill_lvl2 base i (entry ∷ entries) =
      from_phys_addr tock (base + i * (lvl3_entries * 8)) ∷ fill_lvl2 base (i + 1) entries

  unfoldable pub init : ℕ → TranslationTable → TranslationTable
  unfolding fill_lvl2
  init base table =
      if table.initialized
      then table
      else record table { lvl2 = fill_lvl2 base 0 table.lvl2; initialized = true }

module _ (tock : Tock) (num_tables : ℕ) where
  unfoldable pub set_descriptor : ℕ → ℕ → Exec TranslationTable (Unit {0})
  set_descriptor virt_page_addr new_desc = do
    index ← lift (lvl2_lvl3_index_from_page_addr num_tables virt_page_addr)
    lift (assert (in_bounds num_tables index.0 index.1) "index out of bounds")
    table ← get
    fail_if (is_valid tock (table.lvl3 index.0 index.1)) "Virtual page is already mapped"
    put (record table { lvl3 = update table.lvl3 index.0 index.1 new_desc })

  -- The loop of `map_at`; the first error ends it.
  unfoldable pub map_pages : AttributeFields → List (ℕ × ℕ) → Exec TranslationTable (Unit {0})
  map_pages attr [] = pure tt
  map_pages attr ((phys_page_addr, virt_page_addr) ∷ pairs) =
      set_descriptor virt_page_addr (Descriptor.new tock phys_page_addr attr)
      >> map_pages attr pairs

  unfoldable pub map_at :
      MemoryRegion → MemoryRegion → AttributeFields → Exec TranslationTable (Unit {0})
  map_at virt_region phys_region attr = do
    table ← get
    lift (assert table.initialized "Translation tables not initialized")
    fail_if (not (size virt_region == size phys_region))
        "Tried to map memory regions with unequal sizes"
    end ← lift (page_from_usize map_end)
    fail_if (ltb end phys_region.end_page_exclusive)
        "Tried to map outside of physical address space"
    map_pages attr (region_pairs phys_region virt_region)

  unfoldable pub try_page_attributes : ℕ → Exec TranslationTable AttributeFields
  try_page_attributes virt_page_addr = do
    page_desc ← get_descriptor num_tables virt_page_addr
    fail_if (not (is_valid tock page_desc)) "Page marked invalid"
    lift (try_attributes tock page_desc)
