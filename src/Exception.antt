-- ===== src/Exception.antt =====
-- The exception vectors of src/arch/aarch64/exception/vector.rs. The exception context, which the
-- handlers only print, is left out.
pub mod Echo
use rp4os.Base.{ℕ, String}
use rp4os.Base.Outcome.{panic}
use rp4os.Base.Exec.{Exec, lift}
use rp4os.Registers.{Tock}
use rp4os.Mmu.Enable.{SystemRegisters, write_vbar, log, barrier}
use rp4os.Devices.{Core, irq_manager, handle_pending_irqs_of}

-- The entries of the vector table that call Rust code.
pub data Vector : Type 0 where
  current_el0_synchronous current_el0_irq current_el0_serror : Vector
  current_elx_synchronous current_elx_irq current_elx_serror : Vector
  lower_aarch64_synchronous lower_aarch64_irq lower_aarch64_serror : Vector
  lower_aarch32_synchronous lower_aarch32_irq lower_aarch32_serror : Vector

-- `default_exception_handler`.
abbrev pub default_exception_handler : Exec Core (Unit {0})
default_exception_handler = lift (panic "CPU Exception!")

abbrev sp_el0_unsupported : Exec Core (Unit {0})
sp_el0_unsupported = lift (panic "Should not be here. Use of SP_EL0 in EL1 is not supported.")

-- The table's address is the symbol of the linker.
unfoldable pub set_exception_vector : ℕ → SystemRegisters → SystemRegisters
set_exception_vector exception_vector_start r =
    barrier
      (log (write_vbar exception_vector_start) (record r { vbar_el1 = exception_vector_start }))

module _ (tock : Tock) where
  -- The function `current_elx_irq`.
  unfoldable pub elx_irq : Exec Core (Unit {0})
  elx_irq m = handle_pending_irqs_of tock (irq_manager m) m

  unfoldable pub take_exception : Vector → Exec Core (Unit {0})
  unfolding elx_irq
  take_exception current_el0_synchronous = sp_el0_unsupported
  take_exception current_el0_irq = sp_el0_unsupported
  take_exception current_el0_serror = sp_el0_unsupported
  take_exception current_elx_synchronous = default_exception_handler
  take_exception current_elx_irq = elx_irq
  take_exception current_elx_serror = default_exception_handler
  take_exception lower_aarch64_synchronous = default_exception_handler
  take_exception lower_aarch64_irq = default_exception_handler
  take_exception lower_aarch64_serror = default_exception_handler
  take_exception lower_aarch32_synchronous = default_exception_handler
  take_exception lower_aarch32_irq = default_exception_handler
  take_exception lower_aarch32_serror = default_exception_handler
