-- ===== src/Mmu/Enable/Enabling.antt =====
-- The branches of `enable_mmu_and_caching` of src/arch/aarch64/mmu/mod.rs, and what it sets up.
use rp4os.Base.{
  ◌++◌, ℕ, ◌-◌, ◌*◌, ◌/◌, ◌%◌, ◌^◌, ◌<◌, ◌≡◌, refl, ap, ◌∙◌, true, false, bit_or, bit_and, List, [],
  ◌∷◌,
}
use rp4os.Base.Bits.{bit_and-zero}
use rp4os.Base.Bits.Masks.{masked_part}
use rp4os.Registers.{Field, field, Tock}
use rp4os.Mmu.Descriptor.{mair_device, mair_normal}
use rp4os.Mmu.Enable.{
  Aarch64, SystemRegisters, Step, write_mair, write_ttbr0, write_tcr, write_sctlr, isb, enabled,
  failed, already_enabled, is_enabled, set_up_mair, configure_translation_control,
  enable_mmu_and_caching, size_shift, value_of, barrier, switch_on, set_base,
}

-- Six steps logged one after another.
six_in_order :
    (s : List Step) (a b c d e f : Step)
    → s ++ a ∷ [] ++ b ∷ [] ++ c ∷ [] ++ d ∷ [] ++ e ∷ [] ++ f ∷ []
      ≡ s ++ (a ∷ b ∷ c ∷ d ∷ e ∷ f ∷ [])
six_in_order [] a b c d e f = refl
six_in_order (x ∷ s) a b c d e f = ap (◌∷◌ x) (six_in_order s a b c d e f)

module _ (tock : Tock) (cpu : Aarch64) where
  open tock use {
    read, write, plus, val, mask, modify, read_lem, write-val, write-plus, mask-val, mask-plus,
    modify_lem, matches_all, matches_all-val,
  }

  -- The byte of MAIR_EL1 for an index.
  abbrev pub mair_attr : ℕ → ℕ → ℕ
  mair_attr index mair = mair / 2 ^ (8 * index) % 2 ^ 8

  mair_value : (r : SystemRegisters) → (set_up_mair tock cpu r).mair_el1 ≡ 0xFF04
  unfolding set_up_mair
  mair_value r = simp (cpu.outer_is, cpu.inner_is, cpu.device_is, write-plus, write-val) refl

  tcr_value :
      (r : SystemRegisters) → (configure_translation_control tock cpu r).tcr_el1 ≡ 0x2_0080_7522
  unfolding configure_translation_control
  tcr_value r =
      simp
        (
          cpu.tbi0_is, cpu.ips_is, cpu.tg0_is, cpu.sh0_is, cpu.orgn0_is, cpu.irgn0_is, cpu.epd0_is,
          cpu.a1_is, cpu.epd1_is, cpu.t0sz_is, write-plus, write-val,
        )
        refl

  tcr-field :
      (f : Field) (v : ℕ) (r : SystemRegisters)
      → 0x2_0080_7522 / 2 ^ f.offset % 2 ^ f.numbits ≡ v
      → read f (configure_translation_control tock cpu r).tcr_el1 ≡ v
  tcr-field f v r h = rw (tcr_value r) (read_lem f 0x2_0080_7522 ∙ h)

  abbrev on : ℕ → ℕ
  on sctlr =
      modify 64
        (plus (plus (value_of tock cpu cpu.m_enable) (value_of tock cpu cpu.c_cacheable))
          (value_of tock cpu cpu.i_cacheable))
        sctlr

  on_lem : (sctlr : ℕ) → on sctlr ≡ bit_or (bit_and sctlr 0xFFFF_FFFF_FFFF_EFFA) 0x1005
  on_lem sctlr =
      simp (cpu.m_is, cpu.c_is, cpu.i_is, modify_lem, mask-plus, mask-val, write-plus, write-val)
        refl

  on-bit :
      (k sctlr : ℕ)
      → 0xFFFF_FFFF_FFFF_EFFA / 2 ^ k % 2 ^ 1 ≡ 0
      → 0x1005 / 2 ^ k % 2 ^ 1 ≡ 1
      → on sctlr / 2 ^ k % 2 ^ 1 ≡ 1
  on-bit k sctlr clear set =
      rw
        (on_lem sctlr, masked_part k 1 sctlr 0xFFFF_FFFF_FFFF_EFFA 0x1005, clear, set, bit_and-zero)
        refl

  m-matches :
      (x : ℕ) → x / 2 ^ 0 % 2 ^ 1 ≡ 1 → matches_all (value_of tock cpu cpu.m_enable) x ≡ true
  m-matches x h = rw (cpu.m_is, matches_all-val (field 0 1) 1 x, read_lem (field 0 1) x, h) refl

  supported :
      (x : ℕ)
      → read (field 24 4) x ≡ 0
      → matches_all (value_of tock cpu cpu.tgran64_supported) x ≡ true
  supported x h = rw (cpu.tgran64_is, matches_all-val (field 24 4) 0 x, h) refl

  -- The system is set up for the tables at the address.
  pub record Translating (addr : ℕ) (r : SystemRegisters) : Type 0 where
    pub base : cpu.baddr r.ttbr0_el1 ≡ addr
    pub device_type : mair_attr mair_device r.mair_el1 ≡ 0x04
    pub normal_type : mair_attr mair_normal r.mair_el1 ≡ 0xFF
    pub size_is : read (field 0 6) r.tcr_el1 ≡ 64 - size_shift
    pub granule_is : read (field 14 2) r.tcr_el1 ≡ 1
    pub ttbr0_walks : read (field 7 1) r.tcr_el1 ≡ 0
    pub no_ttbr1_walks : read (field 23 1) r.tcr_el1 ≡ 1
    pub mmu_on : r.sctlr_el1 / 2 ^ 0 % 2 ^ 1 ≡ 1
    pub data_cache_on : r.sctlr_el1 / 2 ^ 2 % 2 ^ 1 ≡ 1
    pub instruction_cache_on : r.sctlr_el1 / 2 ^ 12 % 2 ^ 1 ≡ 1

  abbrev switched : ℕ → SystemRegisters → SystemRegisters
  switched addr r = barrier (
      switch_on tock cpu (
        barrier (
          configure_translation_control tock cpu
            (set_base tock cpu addr (set_up_mair tock cpu r)))))

  switched-Translating :
      (addr : ℕ) (r : SystemRegisters)
      → addr % 2 ^ 16 ≡ 0
      → addr < 2 ^ 48
      → Translating addr (switched addr r)
  unfolding set_up_mair configure_translation_control
  switched-Translating addr r aligned fits = record {
    base = cpu.baddr-set addr r.ttbr0_el1 aligned fits;
    device_type = ap (mair_attr mair_device) (mair_value r);
    normal_type = ap (mair_attr mair_normal) (mair_value r);
    size_is = tcr-field (field 0 6) (64 - size_shift) r refl;
    granule_is = tcr-field (field 14 2) 1 r refl;
    ttbr0_walks = tcr-field (field 7 1) 0 r refl;
    no_ttbr1_walks = tcr-field (field 23 1) 1 r refl;
    mmu_on = on-bit 0 r.sctlr_el1 refl refl;
    data_cache_on = on-bit 2 r.sctlr_el1 refl refl;
    instruction_cache_on = on-bit 12 r.sctlr_el1 refl refl;
  }

  -- Nothing is written after the last barrier but the switch.
  abbrev pub in_order : SystemRegisters → List Step
  in_order r =
      write_mair r.mair_el1
      ∷ write_ttbr0 r.ttbr0_el1
      ∷ write_tcr r.tcr_el1
      ∷ isb
      ∷ write_sctlr r.sctlr_el1
      ∷ isb
      ∷ []

  -- With the MMU off, 64 KiB pages supported and an aligned base below 2 ^ 48, the call succeeds:
  -- the memory types stand at the indices that the page descriptors use, the walks start at the
  -- base with 64 KiB pages over the kernel's 30 address bits from TTBR0 only, MMU and caches are on;
  -- the registers were then written in this order, with a barrier before and after the switch; and a
  -- second call is refused and does nothing. The address of the exception vectors is kept.
  pub enable_mmu_and_caching_lem :
      (addr : ℕ) (r : SystemRegisters)
      → is_enabled tock cpu r ≡ false
      → read (field 24 4) r.id_aa64mmfr0_el1 ≡ 0
      → addr % 2 ^ 16 ≡ 0
      → addr < 2 ^ 48
      → (after : SystemRegisters) × (enable_mmu_and_caching tock cpu addr r ≡ (enabled, after))
        × Translating addr after
        × (after.steps ≡ r.steps ++ in_order after)
        × (after.vbar_el1 ≡ r.vbar_el1)
        × ((other_addr : ℕ)
            → enable_mmu_and_caching tock cpu other_addr after ≡ (failed already_enabled, after))
  unfolding enable_mmu_and_caching is_enabled set_up_mair configure_translation_control
  enable_mmu_and_caching_lem addr r off granule aligned fits = (
    switched addr r,
    rw (off, supported r.id_aa64mmfr0_el1 granule) refl,
    switched-Translating addr r aligned fits,
    six_in_order r.steps _ _ _ _ _ _,
    refl,
    λ other_addr. rw (m-matches (on r.sctlr_el1) (on-bit 0 r.sctlr_el1 refl refl)) refl,
  )
