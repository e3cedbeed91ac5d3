-- ===== src/Mmu/Table/Index.antt =====
-- A page address and its two indices determine each other, and the indices are in bounds.
use rp4os.Base.{ℕ, ◌*◌, ◌/◌, ◌%◌, ◌^◌, ◌<◌, ◌≡◌, arith, ltb, ◌==◌, if◌then◌else◌}
use rp4os.Base.Bits.{bit_and-low}
use rp4os.Base.Outcome.{ok, err}
use rp4os.Registers.{Tock}
use rp4os.Memory.Address.{ms_kernel, ms_512_mib}
use rp4os.Mmu.Descriptor.{is_valid}
use rp4os.Mmu.Table.{
  TranslationTable, lvl2_lvl3_index_from_page_addr, set_descriptor, get_descriptor, update,
}

abbrev pub lvl2_of : ℕ → ℕ
lvl2_of addr = addr / 2 ^ 29

abbrev pub lvl3_of : ℕ → ℕ
lvl3_of addr = addr % 2 ^ 29 / 2 ^ 16

-- The descriptor of a page.
abbrev pub descriptor_at : TranslationTable → ℕ → ℕ
descriptor_at table page = table.lvl3 (lvl2_of page) (lvl3_of page)

-- Two pages with the same indices are one.
pub indices_injective :
    (a b : ℕ)
    → a % ms_kernel ≡ 0
    → b % ms_kernel ≡ 0
    → lvl2_of a ≡ lvl2_of b
    → lvl3_of a ≡ lvl3_of b
    → a ≡ b
indices_injective a b ha hb e f = omega arith

pub update_same_page :
    (table : TranslationTable) (a b value : ℕ)
    → a % ms_kernel ≡ 0
    → b % ms_kernel ≡ 0
    → update table.lvl3 (lvl2_of a) (lvl3_of a) value (lvl2_of b) (lvl3_of b)
      ≡ (if a == b then value else descriptor_at table b)
update_same_page table a b value ha hb = ground (arith, indices_injective a b ha hb)

module _ (num_tables : ℕ) where
  -- The indices of an address within the tables are in bounds; any other address is refused.
  pub index_lem :
      (addr : ℕ)
      → 0 < num_tables
      → lvl2_lvl3_index_from_page_addr num_tables addr ≡ (
          if ltb addr (num_tables * ms_512_mib)
          then ok (lvl2_of addr, lvl3_of addr)
          else err "Virtual page is out of bounds of translation table")
  unfolding lvl2_lvl3_index_from_page_addr
  index_lem addr pos = rw (bit_and-low 29 addr) (ground arith)

  pub get_descriptor_lem :
      (addr : ℕ) (table : TranslationTable)
      → 0 < num_tables
      → get_descriptor num_tables addr table ≡ (
          if ltb addr (num_tables * ms_512_mib)
          then (ok (descriptor_at table addr), table)
          else (err "Virtual page is out of bounds of translation table", table))
  unfolding get_descriptor
  get_descriptor_lem addr table pos = ground (arith, index_lem addr pos)

module _ (tock : Tock) (num_tables : ℕ) where
  pub set_descriptor_lem :
      (addr value : ℕ) (table : TranslationTable)
      → 0 < num_tables
      → set_descriptor tock num_tables addr value table ≡ (
          if ltb addr (num_tables * ms_512_mib)
          then if is_valid tock (descriptor_at table addr)
            then (err "Virtual page is already mapped", table)
            else (
              ok tt,
              record table { lvl3 = update table.lvl3 (lvl2_of addr) (lvl3_of addr) value },
            )
          else (err "Virtual page is out of bounds of translation table", table))
  unfolding set_descriptor
  set_descriptor_lem addr value table pos = ground (arith, index_lem num_tables addr pos)
