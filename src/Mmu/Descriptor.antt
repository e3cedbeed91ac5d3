-- ===== src/Mmu/Descriptor.antt =====
-- The table and page descriptors of src/arch/aarch64/mmu/translation_table.rs, 64-bit values, and
-- the kernel's memory attributes of src/memory/mmu/mod.rs.
pub mod Bits
use rp4os.Base.{ℕ, ◌/◌, ◌^◌, Bool, true, false, ltb, ◌==◌, if◌then◌else◌}
use rp4os.Base.Outcome.{Outcome, ok, err, ◌>>=◌}
use rp4os.Registers.{Field, field, Tock}
use rp4os.Memory.Address.{granule_shift, ms_64_kib}

pub data MemAttributes : Type 0 where
  cacheable_dram device : MemAttributes

pub data AccessPermissions : Type 0 where
  read_only read_write : AccessPermissions

pub record AttributeFields : Type 0 where
  pub mem_attributes : MemAttributes
  pub acc_perms : AccessPermissions
  pub executable : Bool

-- STAGE1_TABLE_DESCRIPTOR; TYPE and VALID are shared with the page descriptor.
abbrev pub next_level_table_addr : Field
next_level_table_addr = field 16 32

-- STAGE1_PAGE_DESCRIPTOR.
abbrev pub uxn : Field
uxn = field 54 1

abbrev pub pxn : Field
pxn = field 53 1

abbrev pub output_addr : Field
output_addr = field 16 32

abbrev pub af : Field
af = field 10 1

abbrev pub sh : Field
sh = field 8 2

abbrev pub ap : Field
ap = field 6 2

abbrev pub attr_indx : Field
attr_indx = field 2 3

abbrev pub type_field : Field
type_field = field 1 1

abbrev pub valid : Field
valid = field 0 1

-- Indices into MAIR_EL1.
abbrev pub mair_device : ℕ
mair_device = 0

abbrev pub mair_normal : ℕ
mair_normal = 1

-- `new_zeroed` of both descriptors.
unfoldable pub new_zeroed : ℕ
new_zeroed = 0

module _ (tock : Tock) where
  open tock use {FieldValue, val, plus, write, read, is_set}

  -- `TableDescriptor`.
  unfoldable pub from_phys_addr : ℕ → ℕ
  from_phys_addr phys_next_lvl_table_addr =
      let shifted = phys_next_lvl_table_addr / 2 ^ granule_shift ms_64_kib in
      write (plus (plus (val next_level_table_addr shifted) (val type_field 1)) (val valid 1))

  memory_fields : MemAttributes → FieldValue
  memory_fields cacheable_dram = plus (val sh 0b11) (val attr_indx mair_normal)
  memory_fields device = plus (val sh 0b10) (val attr_indx mair_device)

  permission_fields : AccessPermissions → FieldValue
  permission_fields read_only = val ap 0b10
  permission_fields read_write = val ap 0b00

  -- `From<AttributeFields> for FieldValue`.
  pub to_field_value : AttributeFields → FieldValue
  unfolding memory_fields permission_fields
  to_field_value attribute_fields =
      let desc = memory_fields attribute_fields.mem_attributes in
      let desc' = plus desc (permission_fields attribute_fields.acc_perms) in
      let desc'' = plus desc' (if attribute_fields.executable then val pxn 0 else val pxn 1) in
      plus desc'' (val uxn 1)

  -- `PageDescriptor`.
  unfoldable pub new : ℕ → AttributeFields → ℕ
  unfolding to_field_value
  new phys_output_addr attribute_fields =
      let shifted = phys_output_addr / 2 ^ granule_shift ms_64_kib in
      write (
        plus
          (plus (plus (plus (val output_addr shifted) (val af 1)) (val type_field 1)) (val valid 1))
          (to_field_value attribute_fields))

  unfoldable pub is_valid : ℕ → Bool
  is_valid value = is_set valid value

  mem_attributes_of : ℕ → Outcome MemAttributes
  mem_attributes_of index =
      if index == mair_normal
      then ok cacheable_dram
      else if index == mair_device
      then ok device
      else err "Unexpected memory attribute"

  acc_perms_of : ℕ → Outcome AccessPermissions
  acc_perms_of bits =
      if bits == 0b10
      then ok read_only
      else if bits == 0b00
      then ok read_write
      else err "Unexpected access permission"

  -- `TryFrom<InMemoryRegister> for AttributeFields`.
  unfoldable pub try_attributes : ℕ → Outcome AttributeFields
  unfolding mem_attributes_of acc_perms_of
  try_attributes value = do
    mem_attributes ← mem_attributes_of (read attr_indx value)
    acc_perms ← acc_perms_of (read ap value)
    ok (record {
      mem_attributes = mem_attributes;
      acc_perms = acc_perms;
      executable = ltb 0 (read pxn value);
    })
