-- ===== src/Registers.antt =====
-- The bit fields that `register_bitfields!` declares. The crate tock-registers is a parameter:
-- what the kernel calls of it, and its documented behaviour as laws.
pub mod Fields
pub mod Concrete
use rp4os.Base.{ℕ, ◌-◌, ◌*◌, ◌/◌, ◌%◌, ◌^◌, ◌≡◌, Bool, not, bit_and, bit_or, ◌==◌}

-- A field at OFFSET with NUMBITS bits.
pub record Field : Type 0 where
  pub offset : ℕ
  pub numbits : ℕ

abbrev pub field : ℕ → ℕ → Field
field offset numbits = record { offset = offset; numbits = numbits }

pub record Tock : Type 1 where
  pub FieldValue : Type 0
  -- `FIELD.val(v)`, and `FIELD::Variant` for the variant's number.
  pub val : Field → ℕ → FieldValue
  -- `+` on field values.
  pub plus : FieldValue → FieldValue → FieldValue
  -- What `write` leaves in the register.
  pub write : FieldValue → ℕ
  pub read : Field → ℕ → ℕ
  pub is_set : Field → ℕ → Bool
  -- The bits of the fields, and `modify` of a register of so many bits.
  pub mask : FieldValue → ℕ
  pub modify : ℕ → FieldValue → ℕ → ℕ
  pub matches_all : FieldValue → ℕ → Bool
  -- A value is cut to the field's width and put at its offset; other bits are zero.
  pub write-val : (f : Field) (v : ℕ) → write (val f v) ≡ v % 2 ^ f.numbits * 2 ^ f.offset
  -- Field values join by `|`.
  pub write-plus : (a b : FieldValue) → write (plus a b) ≡ bit_or (write a) (write b)
  pub read_lem : (f : Field) (x : ℕ) → read f x ≡ x / 2 ^ f.offset % 2 ^ f.numbits
  pub is_set_lem : (f : Field) (x : ℕ) → is_set f x ≡ not (read f x == 0)
  pub mask-val : (f : Field) (v : ℕ) → mask (val f v) ≡ (2 ^ f.numbits - 1) * 2 ^ f.offset
  pub mask-plus : (a b : FieldValue) → mask (plus a b) ≡ bit_or (mask a) (mask b)
  -- The bits of the fields are cleared, and the value joined.
  pub modify_lem :
      (width : ℕ) (a : FieldValue) (x : ℕ)
      → modify width a x ≡ bit_or (bit_and x (2 ^ width - 1 - mask a)) (write a)
  -- A single field matches when it reads as the value.
  pub matches_all-val :
      (f : Field) (v x : ℕ) → matches_all (val f v) x ≡ (read f x == v % 2 ^ f.numbits)
