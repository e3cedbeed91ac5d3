-- ===== src/Gic/Handlers.antt =====
-- The interrupt controller of src/bsp/drivers/gicv2/mod.rs: its handler table and the handling of a
-- pending interrupt. A handler is a function on the state `W` of the devices.
pub mod Dispatch
use rp4os.Base.{
  ℕ, zero, suc, ◌+◌, Bool, true, false, not, leb, ◌==◌, Option, none, some, List, replicate,
  get_elem?, set, String, if◌then◌else◌,
}
use rp4os.Base.Outcome.{Outcome, ok, err, panic, assert, unfinished}
use rp4os.Base.Outcome
use rp4os.Base.Exec.{Exec, lift, pure, get, put, ◌>>=◌, ◌>>◌}
use rp4os.Registers.{Tock}
use rp4os.Sync.{Machine, write}
use rp4os.Gic.Gicd.{Gicd, boot_core_init}
use rp4os.Gic.Gicd
use rp4os.Gic.Gicc.{Gicc, priority_accept_all, pending_irq_number, mark_comleted}
use rp4os.Gic.Gicc

abbrev pub max_irq_number : ℕ
max_irq_number = 300

abbrev pub boot_core_id : ℕ
boot_core_id = 0

-- `IRQNumber::new`, of `BoundedUsize<300>`.
unfoldable pub irq_number_new : ℕ → Outcome ℕ
irq_number_new number =
    if leb number max_irq_number
    then ok number
    else panic "assertion failed: number <= MAX_INCLUSIVE"

pub record IrqHandlerDescriptor (W : Type 0) : Type 0 where
  pub number : ℕ
  pub name : String
  pub handler : Exec W (Unit {0})

abbrev pub HandlerTable : Type 0 → Type 0
HandlerTable W = List (Option (IrqHandlerDescriptor W))

pub record Gicv2 (W : Type 0) : Type 0 where
  pub gicd : Gicd
  pub gicc : Gicc
  pub handler_table : HandlerTable W
  pub devices : W

abbrev pub empty_table : {W : Type 0} → HandlerTable W
empty_table = replicate (max_irq_number + 1) none

-- `expect` on what a handler returns.
abbrev pub expect_handled : Outcome (Unit {0}) → Outcome (Unit {0})
expect_handled (ok u) = ok u
expect_handled (err e) = panic "Error handling IRQ"
expect_handled (panic e) = panic e
expect_handled unfinished = unfinished

module _ {W : Type 0} where
  -- A call on the distributor.
  abbrev pub on_gicd : {A : Type 0} → Exec (Machine Gicd) A → Exec (Machine (Gicv2 W)) A
  on_gicd f m =
      let r = f (record { kernel_state = m.kernel_state; daif = m.daif; shared = m.shared.gicd }) in
      (
        r.0,
        record {
          kernel_state = r.1.kernel_state;
          daif = r.1.daif;
          shared = record m.shared { gicd = r.1.shared };
        },
      )

  abbrev pub on_gicc : (Gicc → Gicc) → Exec (Machine (Gicv2 W)) (Unit {0})
  on_gicc f m = (ok tt, record m { shared = record m.shared { gicc = f m.shared.gicc } })

  abbrev pub on_table : {A : Type 0} → Exec (HandlerTable W) A → Exec (Gicv2 W) A
  on_table f g = let r = f g.handler_table in (r.0, record g { handler_table = r.1 })

  abbrev pub put_entry :
      Option (Option (IrqHandlerDescriptor W))
      → IrqHandlerDescriptor W
      → Exec (HandlerTable W) (Unit {0})
  put_entry none descriptor table = (panic "index out of bounds", table)
  put_entry (some (some other)) descriptor table = (err "IRQ handler already registered", table)
  put_entry (some none) descriptor table = (ok tt, set table descriptor.number (some descriptor))

  -- The closure of `register_handler`.
  unfoldable pub put_handler : IrqHandlerDescriptor W → Exec (HandlerTable W) (Unit {0})
  put_handler descriptor table = put_entry (get_elem? table descriptor.number) descriptor table

  unfoldable pub register_handler : IrqHandlerDescriptor W → Exec (Machine (Gicv2 W)) (Unit {0})
  unfolding put_handler
  register_handler descriptor = write (on_table (put_handler descriptor))

  unfoldable pub enable : ℕ → Exec (Machine (Gicv2 W)) (Unit {0})
  enable irq_number = on_gicd (Gicd.enable irq_number)

  abbrev pub call_entry : Option (Option (IrqHandlerDescriptor W)) → Exec W (Unit {0})
  call_entry none w = (panic "index out of bounds", w)
  call_entry (some none) w = (panic "No handler registered for IRQ", w)
  call_entry (some (some descriptor)) w = let r = descriptor.handler w in (expect_handled r.0, r.1)

  -- The closure that `handle_pending_irqs` gives to `read`: the table stays, the devices may change.
  unfoldable pub call_handler : ℕ → Exec (Gicv2 W) (Unit {0})
  call_handler irq_number g =
      let r = call_entry (get_elem? g.handler_table irq_number) g.devices in
      (r.0, record g { devices = r.1 })

  abbrev pub on_controller : {A : Type 0} → Exec (Gicv2 W) A → Exec (Machine (Gicv2 W)) A
  on_controller f m = let r = f m.shared in (r.0, record m { shared = r.1 })

  module _ (tock : Tock) where
    -- `DeviceDriver::init` on the core with the given id.
    unfoldable pub init : ℕ → Exec (Machine (Gicv2 W)) (Unit {0})
    unfolding boot_core_init
    init core_id = do
      (if core_id == boot_core_id then on_gicd (boot_core_init tock) else pure tt)
      on_gicc (priority_accept_all tock)
      on_gicc (Gicc.enable tock)

    unfoldable pub handle_pending_irqs : Exec (Machine (Gicv2 W)) (Unit {0})
    unfolding call_handler
    handle_pending_irqs m =
        let irq_number = pending_irq_number tock m.shared.gicc in
        let handled =
          on_controller (call_handler irq_number) >> on_gicc (mark_comleted tock irq_number) in
        if leb (max_irq_number + 1) irq_number then (ok tt, m) else handled m
