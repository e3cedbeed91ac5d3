-- ===== src/Registers/Concrete.antt =====
-- A concrete function for each call of tock-registers, which shows that the laws can hold.
use rp4os.Base.{ℕ, ◌-◌, ◌*◌, ◌/◌, ◌%◌, ◌^◌, refl, not, bit_and, bit_or, ◌==◌}
use rp4os.Registers.{Field, Tock}

pub record Value : Type 0 where
  pub field : Field
  pub number : ℕ
  pub bits : ℕ
  pub mask : ℕ

abbrev read_field : Field → ℕ → ℕ
read_field f x = x / 2 ^ f.offset % 2 ^ f.numbits

abbrev pub concrete : Tock
concrete = record {
  FieldValue = Value;
  val = λ f v. record {
    field = f;
    number = v % 2 ^ f.numbits;
    bits = v % 2 ^ f.numbits * 2 ^ f.offset;
    mask = (2 ^ f.numbits - 1) * 2 ^ f.offset;
  };
  plus = λ a b. record {
    field = a.field;
    number = a.number;
    bits = bit_or a.bits b.bits;
    mask = bit_or a.mask b.mask;
  };
  mask = λ a. a.mask;
  modify = λ width a x. bit_or (bit_and x (2 ^ width - 1 - a.mask)) a.bits;
  write = λ a. a.bits;
  read = read_field;
  is_set = λ f x. not (read_field f x == 0);
  matches_all = λ a x. read_field a.field x == a.number;
  write-val = λ f v. refl;
  write-plus = λ a b. refl;
  read_lem = λ f x. refl;
  is_set_lem = λ f x. refl;
  mask-val = λ f v. refl;
  mask-plus = λ a b. refl;
  modify_lem = λ width a x. refl;
  matches_all-val = λ f v x. refl;
}
