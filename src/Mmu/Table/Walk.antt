-- ===== src/Mmu/Table/Walk.antt =====
-- The tables as the hardware walks them, from the physical address that
-- src/arch/aarch64/mmu/translation_table.rs gives for TTBR0_EL1: the 64 KiB granule's two levels, with
-- the tables laid out as `FixedSizeTranslationTable` declares them.
use rp4os.Base.{
  ℕ, zero, suc, ◌+◌, ◌-◌, ◌*◌, ◌/◌, ◌%◌, ◌^◌, ◌≤◌, ◌<◌, ◌≡◌, refl, ap, ◌∙◌, true, false, arith, ltb,
  ◌==◌, ◌&&◌, if◌then◌else◌, Option, none, some, and_then, get_elem?, replicate, List, length, [],
  ◌∷◌,
}
use rp4os.Base.Bits.{bit_or-zero}
use rp4os.Registers.{Tock}
use rp4os.Registers.Fields.{read-write-plus, read-write-val}
use rp4os.Memory.Address.{ms_kernel, ms_512_mib}
use rp4os.Mmu.Descriptor.{
  AttributeFields, output_addr, type_field, valid, is_valid, next_level_table_addr, from_phys_addr,
  new_zeroed,
}
use rp4os.Mmu.Descriptor.Bits.{new-Reads, new_zeroed-is_valid}
use rp4os.Mmu.Table.{TranslationTable, phys_base_address, fill_lvl2, init}
use rp4os.Mmu.Table
use rp4os.Mmu.Table.Index.{descriptor_at, lvl2_of, lvl3_of}
use rp4os.Mmu.Table.Space.{Space, Represents, Holds}

module _ (tock : Tock) (num_tables : ℕ) where
  open tock use {read, is_set_lem}

  -- The eight bytes at a physical address of the tables, which stand at `base`.
  abbrev pub word_at : ℕ → TranslationTable → ℕ → Option ℕ
  word_at base table addr =
      let offset = addr - base in
      if ltb addr base
      then none
      else if ltb offset (num_tables * ms_kernel)
      then some (table.lvl3 (offset / ms_kernel) (offset % ms_kernel / 8))
      else get_elem? table.lvl2 ((offset - num_tables * ms_kernel) / 8)

  -- An entry that is a table at level 2 and a page at level 3; anything else faults.
  abbrev pub entry : ℕ → Option ℕ
  entry descriptor =
      if read valid descriptor == 1 && read type_field descriptor == 1
      then some descriptor
      else none

  -- The translation of a virtual address, or none for a fault.
  abbrev pub walk : ℕ → ℕ → TranslationTable → ℕ → Option ℕ
  walk ttbr base table va = and_then (word_at base table (ttbr + lvl2_of va * 8)) λ word.
      and_then (entry word) λ desc.
        let next = read next_level_table_addr desc * ms_kernel in
        and_then (word_at base table (next + lvl3_of va * 8)) λ word'.
          and_then (entry word') λ page. some (read output_addr page * ms_kernel + va % ms_kernel)

  ruleset fields = (read-write-plus, read-write-val, bit_or-zero)

  table_valid_part : (addr : ℕ) → addr / 2 ^ 16 % 2 ^ 32 * 2 ^ 16 / 2 ^ 0 % 2 ^ 1 ≡ 0
  table_valid_part addr = omega arith

  table_type_part : (addr : ℕ) → addr / 2 ^ 16 % 2 ^ 32 * 2 ^ 16 / 2 ^ 1 % 2 ^ 1 ≡ 0
  table_type_part addr = omega arith

  table_addr_part :
      (addr : ℕ) → addr / 2 ^ 16 % 2 ^ 32 * 2 ^ 16 / 2 ^ 16 % 2 ^ 32 ≡ addr / 2 ^ 16 % 2 ^ 32
  table_addr_part addr = omega arith

  ruleset parts = (table_valid_part, table_type_part, table_addr_part)

  -- A table descriptor as the hardware reads it.
  from_phys_addr-Reads :
      (addr : ℕ)
      → (read valid (from_phys_addr tock addr) ≡ 1)
        × (read type_field (from_phys_addr tock addr) ≡ 1)
        × (read next_level_table_addr (from_phys_addr tock addr) ≡ addr / 2 ^ 16 % 2 ^ 32)
  unfolding from_phys_addr
  from_phys_addr-Reads addr = simp (fields, parts) (omega arith)

  get_elem?-fill_lvl2 :
      (base k : ℕ) (xs : List ℕ) (i : ℕ)
      → i < length xs
      → get_elem? (fill_lvl2 tock base k xs) i
        ≡ some (from_phys_addr tock (base + (k + i) * ms_kernel))
  unfolding fill_lvl2
  get_elem?-fill_lvl2 base k [] i h = absurd (omega arith)
  get_elem?-fill_lvl2 base k (x ∷ xs) zero h = ap (λ n. some (from_phys_addr tock n)) (omega arith)
  get_elem?-fill_lvl2 base k (x ∷ xs) (suc i) h =
      get_elem?-fill_lvl2 base (k + 1) xs i (omega arith)
      ∙ ap (λ n. some (from_phys_addr tock n)) (omega arith)

  length-replicate : (n x : ℕ) → length (replicate n x) ≡ n
  length-replicate zero x = refl
  length-replicate (suc n) x = ap suc (length-replicate n x)

  -- The tables after `init` at `base`, as they hold a space.
  pub record Running (base : ℕ) (space : Space) (table : TranslationTable) : Type 0 where
    pub base_aligned : base % ms_kernel ≡ 0
    pub base_fits : base + num_tables * ms_kernel ≤ 2 ^ 48
    pub linked : table.lvl2 ≡ fill_lvl2 tock base 0 (replicate num_tables new_zeroed)
    pub ready : table.initialized ≡ true
    pub holds : Represents tock space table

  pub init-Running :
      (base : ℕ)
      → base % ms_kernel ≡ 0
      → base + num_tables * ms_kernel ≤ 2 ^ 48
      → Running base (λ page. none) (init tock base (Table.new num_tables))
  unfolding init rp4os.Mmu.Table.new
  init-Running base a fits = record {
    base_aligned = a;
    base_fits = fits;
    linked = refl;
    ready = refl;
    holds = λ page b. new_zeroed-is_valid tock;
  }

  -- The physical address that a page and its target give.
  abbrev pub target : Option (ℕ × AttributeFields) → ℕ → Option ℕ
  target none va = none
  target (some (phys, attr)) va = some (phys / 2 ^ 16 % 2 ^ 32 * ms_kernel + va % ms_kernel)

  entry-target :
      (descriptor va : ℕ) (t : Option (ℕ × AttributeFields))
      → Holds tock descriptor t
      → and_then
          (entry descriptor)
          (λ page. some (read output_addr page * ms_kernel + va % ms_kernel))
        ≡ target t va
  unfolding is_valid
  entry-target descriptor va none h =
      let unset : (read valid descriptor == 1) ≡ false =
        ground (arith, is_set_lem valid descriptor) in
      rw unset refl
  entry-target descriptor va (some (phys, attr)) h =
      let fields = new-Reads tock phys attr in rw (h, fields.7, fields.6, fields.8) refl

  module _ (base : ℕ) (space : Space) (table : TranslationTable)
      (run : Running base space table) where
    table_entry :
        (va : ℕ)
        → va < num_tables * ms_512_mib
        → word_at base table (phys_base_address num_tables base + lvl2_of va * 8)
          ≡ some (from_phys_addr tock (base + lvl2_of va * ms_kernel))
    unfolding phys_base_address
    table_entry va low =
        let past : ltb (base + num_tables * 65536 + lvl2_of va * 8 - base) (num_tables * ms_kernel)
            ≡ false =
          ground arith in
        let above : ltb (base + num_tables * 65536 + lvl2_of va * 8) base ≡ false = ground arith in
        let index : (base + num_tables * 65536 + lvl2_of va * 8 - base - num_tables * ms_kernel) / 8
            ≡ lvl2_of va =
          omega arith in
        rw (above, past, index, run.linked)
          (get_elem?-fill_lvl2 base 0 (replicate num_tables new_zeroed) (lvl2_of va)
              (omega (arith, length-replicate num_tables new_zeroed))
            ∙ ap (λ n. some (from_phys_addr tock (base + n * ms_kernel))) (omega arith))

    page_entry :
        (va : ℕ)
        → va < num_tables * ms_512_mib
        → word_at base table (base + lvl2_of va * ms_kernel + lvl3_of va * 8)
          ≡ some (descriptor_at table (va - va % ms_kernel))
    page_entry va low =
        let offset : base + lvl2_of va * ms_kernel + lvl3_of va * 8 - base
            ≡ lvl2_of va * ms_kernel + lvl3_of va * 8 =
          omega arith in
        let above : ltb (base + lvl2_of va * ms_kernel + lvl3_of va * 8) base ≡ false =
          ground arith in
        let inside : ltb (lvl2_of va * ms_kernel + lvl3_of va * 8) (num_tables * ms_kernel) ≡ true =
          ground arith in
        let row : (lvl2_of va * ms_kernel + lvl3_of va * 8) / ms_kernel
            ≡ lvl2_of (va - va % ms_kernel) =
          omega arith in
        let column : (lvl2_of va * ms_kernel + lvl3_of va * 8) % ms_kernel / 8
            ≡ lvl3_of (va - va % ms_kernel) =
          omega arith in
        rw (above, offset, inside, row, column) refl

    -- Once `init` has run at an aligned base below 2 ^ 48 and the tables hold a space, the hardware
    -- that walks them from the address that the kernel gives for TTBR0_EL1 translates each
    -- address that they cover as the space says: an address of a page that is not in the
    -- space faults, any other goes to its offset in the physical page that the 48 low bits name.
    pub walk_lem :
        (va : ℕ)
        → va < num_tables * ms_512_mib
        → walk (phys_base_address num_tables base) base table va
          ≡ target (space (va - va % ms_kernel)) va
    walk_lem va low =
        let reads = from_phys_addr-Reads (base + lvl2_of va * ms_kernel) in
        let next : (base + lvl2_of va * ms_kernel) / 2 ^ 16 % 2 ^ 32 * ms_kernel
            ≡ base + lvl2_of va * ms_kernel =
          omega (arith, run.base_aligned, run.base_fits) in
        rw (table_entry va low, reads.0, reads.1, reads.2, next, page_entry va low)
          (entry-target (descriptor_at table (va - va % ms_kernel)) va (space (va - va % ms_kernel))
            (run.holds (va - va % ms_kernel) (omega arith)))
