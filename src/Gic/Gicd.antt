-- ===== src/Gic/Gicd.antt =====
-- The distributor of src/bsp/drivers/gicv2/gicd.rs, its registers as 32-bit values.
pub mod Enabling
pub mod Routing
use rp4os.Base.{
  ℕ, zero, suc, ◌+◌, ◌-◌, ◌*◌, ◌/◌, ◌%◌, ◌^◌, bit_or, Bool, true, false, Option, none, some, List,
  [], ◌∷◌, leb, if◌then◌else◌, get_elem?, set, length, String,
}
use rp4os.Base.Outcome.{Outcome, ok, err, panic, assert, unwrap}
use rp4os.Base.Exec.{Exec, lift, pure, get, put, ◌>>=◌, ◌>>◌}
use rp4os.Registers.{Field, field, Tock}
use rp4os.Sync.{Machine, lock, is_init, on_shared}

abbrev pub ctlr_enable : Field
ctlr_enable = field 0 1

abbrev pub it_lines_number : Field
it_lines_number = field 0 5

abbrev pub offset3 : Field
offset3 = field 24 8

abbrev pub offset2 : Field
offset2 = field 16 8

abbrev pub offset1 : Field
offset1 = field 8 8

abbrev pub offset0 : Field
offset0 = field 0 8

-- `SharedRegisterBlock`: 31 enable registers and 248 target registers.
pub record SharedRegisters : Type 0 where
  pub ctlr : ℕ
  pub typer : ℕ
  pub isenabler : List ℕ
  pub itargetsr : List ℕ

-- `BankedRegisterBlock`.
pub record BankedRegisters : Type 0 where
  pub isenabler : ℕ
  pub itargetsr : List ℕ

pub record Gicd : Type 0 where
  pub shared_registers : SharedRegisters
  pub banked_registers : BankedRegisters

abbrev pub on_shared_registers : {A : Type 0} → Exec SharedRegisters A → Exec Gicd A
on_shared_registers f g = let r = f g.shared_registers in (r.0, record g { shared_registers = r.1 })

-- The first `count` registers of a block get the value.
unfoldable pub write_slice : ℕ → ℕ → List ℕ → List ℕ
write_slice zero value registers = registers
write_slice (suc count) value [] = []
write_slice (suc count) value (r ∷ registers) = value ∷ write_slice count value registers

-- `ISENABLER[i]` with its bounds check, set to itself or the bit.
unfoldable pub set_bit : ℕ → ℕ → Exec (List ℕ) (Unit {0})
set_bit i enable_bit registers = elim (get_elem? registers i) [
  | none ↦ (panic "index out of bounds", registers)
  | some r ↦ (ok tt, set registers i (bit_or r enable_bit))
]

abbrev pub on_isenabler : Exec (List ℕ) (Unit {0}) → Exec SharedRegisters (Unit {0})
on_isenabler f s = let r = f s.isenabler in (r.0, record s { isenabler = r.1 })

-- `GICD::enable`.
unfoldable pub enable : ℕ → Exec (Machine Gicd) (Unit {0})
unfolding set_bit
enable irq_num =
    let enable_reg_index = irq_num / 2 ^ 5 in
    let enable_bit = 2 ^ (irq_num % 32) in
    if leb irq_num 31
    then (on_shared λ g. (
      ok tt,
      record g {
        banked_registers = record g.banked_registers {
          isenabler = bit_or g.banked_registers.isenabler enable_bit;
        };
      },
    ))
    else lock (on_shared_registers (on_isenabler (set_bit (enable_reg_index - 1) enable_bit)))

module _ (tock : Tock) where
  open tock use {val, plus}

  unfoldable pub num_irqs : SharedRegisters → ℕ
  num_irqs regs = (tock.read it_lines_number regs.typer + 1) * 32

  -- The end of the slice, which starts at register 0.
  unfoldable pub implemented_itargets_slice : SharedRegisters → Outcome ℕ
  unfolding num_irqs
  implemented_itargets_slice regs =
      let spi_itargetsr_max_index = (num_irqs regs - 32) / 4 - 1 in
      if leb 36 (num_irqs regs)
      then (if leb spi_itargetsr_max_index (length regs.itargetsr)
          then ok spi_itargetsr_max_index
          else panic "range end index out of range")
      else panic "assertion failed: self.num_irqs() >= 36"

  -- `ITARGETSR[0]` of eight banked registers.
  unfoldable pub local_gic_target_mask : Gicd → Outcome ℕ
  local_gic_target_mask g = elim (get_elem? g.banked_registers.itargetsr 0) [
    | none ↦ panic "index out of bounds"
    | some r ↦ ok (tock.read offset0 r)
  ]

  -- What the loop of `boot_core_init` writes to each register.
  unfoldable pub targets : ℕ → ℕ
  targets mask = tock.write (
      plus (plus (plus (val offset3 mask) (val offset2 mask)) (val offset1 mask))
        (val offset0 mask))

  unfoldable pub route_all : ℕ → Exec SharedRegisters (Unit {0})
  unfolding implemented_itargets_slice
  route_all value = do
    regs ← get
    count ← lift (implemented_itargets_slice regs)
    put (record regs {
      itargetsr = write_slice count value regs.itargetsr;
      ctlr = tock.write (val ctlr_enable 1);
    })

  -- `GICD::boot_core_init`.
  unfoldable pub boot_core_init : Exec (Machine Gicd) (Unit {0})
  unfolding route_all local_gic_target_mask targets
  boot_core_init = do
    m ← get
    init_phase ← lift (is_init m)
    lift (assert init_phase "Only allowed during kernel init phase")
    mask ← lift (local_gic_target_mask m.shared)
    lock (on_shared_registers (route_all (targets mask)))
