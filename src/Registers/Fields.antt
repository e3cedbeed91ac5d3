-- ===== src/Registers/Fields.antt =====
-- Reading one field of a register that was written by a sum of field values.
use rp4os.Base.{ℕ, ◌*◌, ◌/◌, ◌%◌, ◌^◌, ◌≡◌, bit_or}
use rp4os.Base.Bits.{bit_or-div, bit_or-mod}
use rp4os.Registers.{Field, Tock}

module _ (tock : Tock) where
  open tock use {FieldValue, val, plus, write, read, write-val, write-plus, read_lem}

  pub read-write-plus :
      (f : Field) (a b : FieldValue)
      → read f (write (plus a b)) ≡ bit_or (read f (write a)) (read f (write b))
  read-write-plus f a b =
      rw
        (
          write-plus a b,
          read_lem f (bit_or (write a) (write b)),
          read_lem f (write a),
          read_lem f (write b),
        )
        (rw (bit_or-div f.offset (write a) (write b))
          (bit_or-mod f.numbits (write a / 2 ^ f.offset) (write b / 2 ^ f.offset)))

  pub read-write-val :
      (f g : Field) (v : ℕ)
      → read f (write (val g v)) ≡ v % 2 ^ g.numbits * 2 ^ g.offset / 2 ^ f.offset % 2 ^ f.numbits
  read-write-val f g v = rw (write-val g v) (read_lem f (v % 2 ^ g.numbits * 2 ^ g.offset))
