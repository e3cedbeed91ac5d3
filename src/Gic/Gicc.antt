-- ===== src/Gic/Gicc.antt =====
-- The CPU interface of src/bsp/drivers/gicv2/gicc.rs.
use rp4os.Base.{ℕ, List, ◌∷◌}
use rp4os.Registers.{Field, field, Tock}

abbrev pub enable_field : Field
enable_field = field 0 1

abbrev pub priority : Field
priority = field 0 8

abbrev pub interrupt_id : Field
interrupt_id = field 0 10

abbrev pub eoiintid : Field
eoiintid = field 0 10

-- The registers of the executing core; of EOIR, the values written to it, the last one first.
pub record Gicc : Type 0 where
  pub ctlr : ℕ
  pub pmr : ℕ
  pub iar : ℕ
  pub eoir : List ℕ

module _ (tock : Tock) where
  open tock use {val, write, read}

  unfoldable pub priority_accept_all : Gicc → Gicc
  priority_accept_all g = record g { pmr = write (val priority 255) }

  unfoldable pub enable : Gicc → Gicc
  enable g = record g { ctlr = write (val enable_field 1) }

  unfoldable pub pending_irq_number : Gicc → ℕ
  pending_irq_number g = read interrupt_id g.iar

  unfoldable pub mark_comleted : ℕ → Gicc → Gicc
  mark_comleted irq_number g = record g { eoir = write (val eoiintid irq_number) ∷ g.eoir }
