-- ===== src/Mmu/Descriptor/Bits.antt =====
-- What the hardware and the kernel read back from a descriptor.
use rp4os.Base.{ℕ, ◌*◌, ◌/◌, ◌%◌, ◌^◌, ◌<◌, ◌≡◌, refl, Bool, true, false, not, arith}
use rp4os.Base.Bits.{bit_or-zero}
use rp4os.Base.Outcome.{ok}
use rp4os.Registers.{Field, Tock}
use rp4os.Registers.Fields.{read-write-plus, read-write-val}
use rp4os.Memory.Address.{ms_kernel}
use rp4os.Mmu.Descriptor.{
  MemAttributes, cacheable_dram, device, AccessPermissions, read_only, read_write, AttributeFields,
  uxn, pxn, output_addr, af, sh, ap, attr_indx, type_field, valid, mair_device, mair_normal, new,
  is_valid, try_attributes, new_zeroed,
}

abbrev indx_of : MemAttributes → ℕ
indx_of cacheable_dram = mair_normal
indx_of device = mair_device

abbrev sh_of : MemAttributes → ℕ
sh_of cacheable_dram = 0b11
sh_of device = 0b10

abbrev ap_of : AccessPermissions → ℕ
ap_of read_only = 0b10
ap_of read_write = 0b00

abbrev pxn_of : Bool → ℕ
pxn_of true = 0
pxn_of false = 1

-- The part of a shifted address that shows in a field.
abbrev address_part : Field → ℕ → ℕ
address_part f addr = addr / 2 ^ 16 % 2 ^ 32 * 2 ^ 16 / 2 ^ f.offset % 2 ^ f.numbits

attr_indx_part : (addr : ℕ) → address_part attr_indx addr ≡ 0
attr_indx_part addr = omega arith

sh_part : (addr : ℕ) → address_part sh addr ≡ 0
sh_part addr = omega arith

ap_part : (addr : ℕ) → address_part ap addr ≡ 0
ap_part addr = omega arith

pxn_part : (addr : ℕ) → address_part pxn addr ≡ 0
pxn_part addr = omega arith

uxn_part : (addr : ℕ) → address_part uxn addr ≡ 0
uxn_part addr = omega arith

af_part : (addr : ℕ) → address_part af addr ≡ 0
af_part addr = omega arith

type_field_part : (addr : ℕ) → address_part type_field addr ≡ 0
type_field_part addr = omega arith

valid_part : (addr : ℕ) → address_part valid addr ≡ 0
valid_part addr = omega arith

output_addr_part : (addr : ℕ) → address_part output_addr addr ≡ addr / 2 ^ 16 % 2 ^ 32
output_addr_part addr = omega arith

ruleset address_parts = (
  attr_indx_part, sh_part, ap_part, pxn_part, uxn_part, af_part, type_field_part, valid_part,
  output_addr_part,
)

module _ (tock : Tock) where
  open tock use {read, is_set, is_set_lem}

  ruleset fields = (read-write-plus, read-write-val, bit_or-zero)

  -- Every field of a page descriptor, as the hardware reads it.
  abbrev pub Reads : ℕ → AttributeFields → Type 0
  Reads addr a =
      (read attr_indx (new tock addr a) ≡ indx_of a.mem_attributes)
      × (read sh (new tock addr a) ≡ sh_of a.mem_attributes)
      × (read ap (new tock addr a) ≡ ap_of a.acc_perms)
      × (read pxn (new tock addr a) ≡ pxn_of a.executable)
      × (read uxn (new tock addr a) ≡ 1)
      × (read af (new tock addr a) ≡ 1)
      × (read type_field (new tock addr a) ≡ 1)
      × (read valid (new tock addr a) ≡ 1)
      × (read output_addr (new tock addr a) ≡ addr / 2 ^ 16 % 2 ^ 32)

  all_fields :
      (addr : ℕ) (m : MemAttributes) (p : AccessPermissions) (x : Bool)
      → Reads addr (record { mem_attributes = m; acc_perms = p; executable = x })
  unfolding new
  all_fields addr cacheable_dram read_only true = simp (fields, address_parts) (omega arith)
  all_fields addr cacheable_dram read_write true = simp (fields, address_parts) (omega arith)
  all_fields addr device read_only true = simp (fields, address_parts) (omega arith)
  all_fields addr device read_write true = simp (fields, address_parts) (omega arith)
  all_fields addr _ _ _ = simp (fields, address_parts) (omega arith)

  -- Every field of a descriptor that the kernel builds, as the hardware reads it: a valid level 3
  -- page with the access flag set, the memory type and permissions asked for, never executable
  -- from user space and executable by the kernel exactly when asked for, at the given address.
  pub new-Reads : (addr : ℕ) (a : AttributeFields) → Reads addr a
  new-Reads addr a = all_fields addr a.mem_attributes a.acc_perms a.executable

  pub new-is_valid : (addr : ℕ) (a : AttributeFields) → is_valid tock (new tock addr a) ≡ true
  unfolding is_valid
  new-is_valid addr a = rw (is_set_lem valid (new tock addr a), (new-Reads addr a).7) refl

  pub new_zeroed-is_valid : is_valid tock new_zeroed ≡ false
  unfolding is_valid new_zeroed
  new_zeroed-is_valid = rw (is_set_lem valid 0, tock.read_lem valid 0) refl

  -- A page address below 2 ^ 48 is the page that the descriptor points to.
  pub new_address :
      (addr : ℕ) (a : AttributeFields)
      → addr % ms_kernel ≡ 0
      → addr < 2 ^ 48
      → read output_addr (new tock addr a) * ms_kernel ≡ addr
  new_address addr a aligned fits = omega (arith, (new-Reads addr a).8)

  -- Reading the attributes back gives them with the executable flag negated.
  pub try_attributes-new :
      (addr : ℕ) (a : AttributeFields)
      → try_attributes tock (new tock addr a) ≡ ok (record a { executable = not a.executable })
  unfolding try_attributes
  try_attributes-new addr a = decode a.mem_attributes a.acc_perms a.executable (new-Reads addr a)
    where
      decode :
          (m : MemAttributes) (p : AccessPermissions) (x : Bool)
          → Reads addr (record { mem_attributes = m; acc_perms = p; executable = x })
          → try_attributes tock
              (new tock addr (record { mem_attributes = m; acc_perms = p; executable = x }))
            ≡ ok (record { mem_attributes = m; acc_perms = p; executable = not x })
      decode cacheable_dram read_only true r = rw (r.0, r.2, r.3) refl
      decode cacheable_dram read_write true r = rw (r.0, r.2, r.3) refl
      decode device read_only true r = rw (r.0, r.2, r.3) refl
      decode device read_write true r = rw (r.0, r.2, r.3) refl
      decode _ _ _ r = rw (r.0, r.2, r.3) refl
