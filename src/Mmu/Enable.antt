-- ===== src/Mmu/Enable.antt =====
-- src/arch/aarch64/mmu/mod.rs: the MMU is switched on. What the crate aarch64-cpu names of the system
-- registers is a parameter, with the places and values that the architecture documents as laws.
pub mod Enabling
use rp4os.Base.{
  ℕ, ◌-◌, ◌%◌, ◌^◌, ◌<◌, ◌≡◌, Bool, not, ◌==◌, leb, if◌then◌else◌, List, [], ◌∷◌, ◌++◌, String,
}
use rp4os.Base.Outcome.{Outcome, assert, ◌>>◌}
use rp4os.Registers.{Field, field, Tock}
use rp4os.Memory.Address.{ms_512_mib}

-- A field with one of its values.
pub record Setting : Type 0 where
  pub place : Field
  pub value : ℕ

abbrev pub setting : ℕ → ℕ → ℕ → Setting
setting offset numbits value = record { place = field offset numbits; value = value }

pub record Aarch64 : Type 0 where
  pub attr1_normal_outer_write_back : Setting
  pub attr1_normal_inner_write_back : Setting
  pub attr0_device_early_write_ack : Setting
  pub tbi0_used : Setting
  pub ips_bits_40 : Setting
  pub tg0_kib_64 : Setting
  pub sh0_inner : Setting
  pub orgn0_write_back : Setting
  pub irgn0_write_back : Setting
  pub epd0_enable_ttbr0_walks : Setting
  pub a1_ttbr0 : Setting
  pub epd1_disable_ttbr1_walks : Setting
  pub t0sz : Field
  pub tgran64_supported : Setting
  pub m_enable : Setting
  pub c_cacheable : Setting
  pub i_cacheable : Setting
  -- `TTBR0_EL1.set_baddr`, and the base address that the hardware walks from.
  pub set_baddr : ℕ → ℕ → ℕ
  pub baddr : ℕ → ℕ
  pub outer_is : attr1_normal_outer_write_back ≡ setting 12 4 0b1111
  pub inner_is : attr1_normal_inner_write_back ≡ setting 8 4 0b1111
  pub device_is : attr0_device_early_write_ack ≡ setting 0 8 0b0000_0100
  pub tbi0_is : tbi0_used ≡ setting 37 1 0
  pub ips_is : ips_bits_40 ≡ setting 32 3 0b010
  pub tg0_is : tg0_kib_64 ≡ setting 14 2 0b01
  pub sh0_is : sh0_inner ≡ setting 12 2 0b11
  pub orgn0_is : orgn0_write_back ≡ setting 10 2 0b01
  pub irgn0_is : irgn0_write_back ≡ setting 8 2 0b01
  pub epd0_is : epd0_enable_ttbr0_walks ≡ setting 7 1 0
  pub a1_is : a1_ttbr0 ≡ setting 22 1 0
  pub epd1_is : epd1_disable_ttbr1_walks ≡ setting 23 1 1
  pub t0sz_is : t0sz ≡ field 0 6
  pub tgran64_is : tgran64_supported ≡ setting 24 4 0
  pub m_is : m_enable ≡ setting 0 1 1
  pub c_is : c_cacheable ≡ setting 2 1 1
  pub i_is : i_cacheable ≡ setting 12 1 1
  pub baddr-set :
      (addr old : ℕ) → addr % 2 ^ 16 ≡ 0 → addr < 2 ^ 48 → baddr (set_baddr addr old) ≡ addr

pub data MmuEnableError : Type 0 where
  already_enabled : MmuEnableError
  other : String → MmuEnableError

pub data EnableResult : Type 0 where
  enabled : EnableResult
  failed : MmuEnableError → EnableResult

-- What is done to the system, in order.
pub data Step : Type 0 where
  write_mair write_ttbr0 write_tcr write_sctlr write_vbar : ℕ → Step
  isb : Step

pub record SystemRegisters : Type 0 where
  pub mair_el1 : ℕ
  pub ttbr0_el1 : ℕ
  pub tcr_el1 : ℕ
  pub sctlr_el1 : ℕ
  pub vbar_el1 : ℕ
  pub id_aa64mmfr0_el1 : ℕ
  pub steps : List Step

-- `KernelVirtAddrSpace::SIZE_SHIFT`, of 1 GiB.
abbrev pub size_shift : ℕ
size_shift = 30

-- `AddressSpace::arch_address_space_size_sanity_checks`.
unfoldable pub arch_address_space_size_sanity_checks : ℕ → Outcome (Unit {0})
arch_address_space_size_sanity_checks as_size = do
  assert (as_size % ms_512_mib == 0) "assertion failed: (AS_SIZE % MS512MiB::SIZE) == 0"
  assert (leb as_size (2 ^ 48)) "assertion failed: AS_SIZE <= (1 << 48)"

abbrev pub log : Step → SystemRegisters → SystemRegisters
log step r = record r { steps = r.steps ++ step ∷ [] }

abbrev pub barrier : SystemRegisters → SystemRegisters
barrier r = log isb r

module _ (tock : Tock) (cpu : Aarch64) where
  open tock use {FieldValue, val, plus, write, modify, matches_all}
  open cpu use {
    attr1_normal_outer_write_back, attr1_normal_inner_write_back, attr0_device_early_write_ack,
    tbi0_used, ips_bits_40, tg0_kib_64, sh0_inner, orgn0_write_back, irgn0_write_back,
    epd0_enable_ttbr0_walks, a1_ttbr0, epd1_disable_ttbr1_walks, t0sz, tgran64_supported, m_enable,
    c_cacheable, i_cacheable, set_baddr,
  }

  abbrev pub value_of : Setting → FieldValue
  value_of s = val s.place s.value

  unfoldable pub set_up_mair : SystemRegisters → SystemRegisters
  set_up_mair r =
      let value = write (
        plus
          (plus (value_of attr1_normal_outer_write_back) (value_of attr1_normal_inner_write_back))
          (value_of attr0_device_early_write_ack)) in
      log (write_mair value) (record r { mair_el1 = value })

  unfoldable pub configure_translation_control : SystemRegisters → SystemRegisters
  configure_translation_control r =
      let early = plus (plus (value_of tbi0_used) (value_of ips_bits_40)) (value_of tg0_kib_64) in
      let walks =
        plus (plus (plus early (value_of sh0_inner)) (value_of orgn0_write_back))
          (value_of irgn0_write_back) in
      let low = plus (plus walks (value_of epd0_enable_ttbr0_walks)) (value_of a1_ttbr0) in
      let value =
        write (plus (plus low (val t0sz (64 - size_shift))) (value_of epd1_disable_ttbr1_walks)) in
      log (write_tcr value) (record r { tcr_el1 = value })

  abbrev pub set_base : ℕ → SystemRegisters → SystemRegisters
  set_base addr r =
      let value = set_baddr addr r.ttbr0_el1 in
      log (write_ttbr0 value) (record r { ttbr0_el1 = value })

  abbrev pub switch_on : SystemRegisters → SystemRegisters
  switch_on r =
      let value =
        modify 64 (plus (plus (value_of m_enable) (value_of c_cacheable)) (value_of i_cacheable))
          r.sctlr_el1 in
      log (write_sctlr value) (record r { sctlr_el1 = value })

  unfoldable pub is_enabled : SystemRegisters → Bool
  is_enabled r = matches_all (value_of m_enable) r.sctlr_el1

  unfoldable pub enable_mmu_and_caching : ℕ → SystemRegisters → EnableResult × SystemRegisters
  unfolding is_enabled set_up_mair configure_translation_control
  enable_mmu_and_caching phys_tables_base_addr r =
      let prepared =
        configure_translation_control (set_base phys_tables_base_addr (set_up_mair r)) in
      if is_enabled r
      then (failed already_enabled, r)
      else if not (matches_all (value_of tgran64_supported) r.id_aa64mmfr0_el1)
      then (failed (other "Translation granule not supported in HW"), r)
      else (enabled, barrier (switch_on (barrier prepared)))
