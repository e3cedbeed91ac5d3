-- ===== src/Devices/Running.antt =====
-- The board's drivers after src/driver.rs has brought them up.
use rp4os.Base.{
  ℕ, ◌<◌, ◌≡◌, refl, ap, ◌∙◌, Option, none, some, List, [], ◌∷◌, length, get_elem?, set, arith,
  get_elem?-set_present,
}
use rp4os.Base.Outcome.{Outcome, ok}
use rp4os.Base.Exec.{Exec, bind_outcome, ◌>>◌}
use rp4os.Registers.{Tock}
use rp4os.Sync.{Daif}
use rp4os.Sync.Locks.{Starting}
use rp4os.Uart.{handle}
use rp4os.Uart.Setup.{init_lem, SetUp}
use rp4os.Gpio.{fsel14, fsel15, alt_func0}
use rp4os.Gpio.Pins.{inner_map_pl011_uart_lem}
use rp4os.Gic.Gicd.{offset0}
use rp4os.Gic.Gicd.Enabling.{enable_lem, enabled}
use rp4os.Gic.Handlers.{IrqHandlerDescriptor, boot_core_id}
use rp4os.Gic.Handlers
use rp4os.Gic.Handlers.Dispatch.{register_handler_lem, registered, with_table}
use rp4os.Drivers.{DeviceDriverDescriptor, start_up, enable_irq, init_drivers_and_irqs}
use rp4os.Drivers.Order.{each, init_drivers_and_irqs-holding, holding}
use rp4os.Devices.{
  Peripherals, Core, pl011_uart, IrqManager, gicv2, on_uart, console, irq_manager, uart_descriptor,
  gpio_descriptor, controller_descriptor, pl011_uart_irq, register_uart_handler,
  register_handler_of, enable_of, uart_driver,
}
use rp4os.Devices.Bringup.{
  uart_ready, gpio_ready, controller_ready, Whole, uart-start_up, gpio-start_up,
  controller-start_up, distributor_of,
}

-- Three drivers in turn, in both passes.
three_in_turn :
    (f g : DeviceDriverDescriptor Core → Exec Core (Unit {0})) (a b c : DeviceDriverDescriptor Core)
    (m m1 m2 m3 m4 : Core)
    → f a m ≡ (ok tt, m1)
    → f b m1 ≡ (ok tt, m2)
    → f c m2 ≡ (ok tt, m3)
    → g a m3 ≡ (ok tt, m4)
    → g b m4 ≡ (ok tt, m4)
    → g c m4 ≡ (ok tt, m4)
    → (each f (a ∷ b ∷ c ∷ []) >> each g (a ∷ b ∷ c ∷ [])) m ≡ (ok tt, m4)
unfolding each
three_in_turn f g a b c m m1 m2 m3 m4 fa fb fc ga gb gc = rw (fa, fb, fc, ga, gb, gc) refl

module _ (tock : Tock) (fuel turns : ℕ) where
  open tock use {read}

  -- The board's three descriptors, in the order of their registration.
  abbrev pub board_drivers : List (DeviceDriverDescriptor Core)
  board_drivers =
      uart_descriptor tock fuel turns
      ∷ gpio_descriptor tock
      ∷ controller_descriptor tock boot_core_id
      ∷ []

  abbrev pub uart_handler : IrqHandlerDescriptor Peripherals
  uart_handler = record {
    number = pl011_uart_irq;
    name = "BCM PL011 UART";
    handler = on_uart (handle tock fuel turns);
  }

  abbrev with_handler : Core → Core
  with_handler m = with_table (set m.shared.handler_table pl011_uart_irq (some uart_handler)) m

  -- With its interrupt enabled too.
  abbrev uart_enabled : Core → Core
  uart_enabled m = (Handlers.enable pl011_uart_irq (with_handler m)).1

  module _ (m : Core) (starting : Starting m) (manager : m.shared.devices.irq_manager ≡ gicv2)
      (free : get_elem? m.shared.handler_table pl011_uart_irq ≡ some none)
      (whole : length m.shared.gicd.shared_registers.isenabler ≡ 31) where
    handler_put : Handlers.register_handler uart_handler m ≡ (ok tt, with_handler m)
    handler_put =
        register_handler_lem uart_handler m starting
        ∙ ap
            (λ (o : Option (Option (IrqHandlerDescriptor Peripherals))).
              registered o uart_handler m)
            free

    interrupt_on : Handlers.enable pl011_uart_irq (with_handler m) ≡ (ok tt, uart_enabled m)
    unfolding Handlers.enable
    interrupt_on =
        ap (λ (o : Outcome (Unit {0})). (o, uart_enabled m))
          (enable_lem pl011_uart_irq (distributor_of tock m) (omega arith) whole).0

    handler_on : register_uart_handler tock fuel turns pl011_uart_irq m ≡ (ok tt, uart_enabled m)
    unfolding register_uart_handler register_handler_of enable_of irq_manager
    handler_on =
        ap
          (λ (manager : IrqManager).
            let r = register_handler_of manager uart_handler m in
            bind_outcome r.0 r.1 (λ _ m'. enable_of (irq_manager m') pl011_uart_irq m'))
          manager
        ∙ ap
            (λ (r : Outcome (Unit {0}) × Core).
              bind_outcome r.0 r.1 (λ _ m'. enable_of (irq_manager m') pl011_uart_irq m'))
            handler_put
        ∙ ap (λ (manager : IrqManager). enable_of manager pl011_uart_irq (with_handler m)) manager
        ∙ interrupt_on

    uart-enable_irq : enable_irq (uart_descriptor tock fuel turns) m ≡ (ok tt, uart_enabled m)
    unfolding uart_descriptor uart_driver
    uart-enable_irq = rw handler_on refl

  -- What `init` of src/bsp/driver.rs leaves for the drivers, on a boot core whose target mask is in `x`.
  pub record Instantiated (x : ℕ) (m : Core) : Type 0 where
    pub starting : Starting m
    pub uart_address : ℕ
    pub uart_at : m.shared.devices.uart_static ≡ some uart_address
    pub gpio_address : ℕ
    pub gpio_at : m.shared.devices.gpio_static ≡ some gpio_address
    pub controller_addresses : ℕ × ℕ
    pub controller_at : m.shared.devices.controller_static ≡ some controller_addresses
    pub whole : Whole tock x m.shared.gicd
    pub no_handler : get_elem? m.shared.handler_table pl011_uart_irq ≡ some none

  -- What the kernel has once the drivers run.
  pub record DriversRun (before after : Core) : Type 0 where
    pub console_is : console after ≡ pl011_uart
    pub manager_is : irq_manager after ≡ gicv2
    pub uart_set_up : SetUp tock after.shared.devices.uart.registers
    pub uart_kept : after.shared.devices.uart.line.tx ≡ before.shared.devices.uart.line.tx
    pub tx_pin : read fsel14 after.shared.devices.gpio.registers.gpfsel1 ≡ alt_func0
    pub rx_pin : read fsel15 after.shared.devices.gpio.registers.gpfsel1 ≡ alt_func0
    pub handler_is : get_elem? after.shared.handler_table pl011_uart_irq ≡ some (some uart_handler)
    pub interrupt_is_on : enabled after.shared.gicd pl011_uart_irq ≡ 1
    pub still_starting : Starting after

  -- The three drivers of the board, registered in order and instantiated in the init phase with IRQs
  -- masked, come up without a panic once the UART has finished sending: then the UART is set up and
  -- is the console, the pins 14 and 15 are its own, the controller is the IRQ manager, and the
  -- UART's handler is registered for interrupt 153, which is enabled.
  pub init_drivers_and_irqs-DriversRun :
      (x : ℕ) (m : Core)
      → Instantiated x m
      → m.shared.devices.uart.line.busy_for < fuel
      → (after : Core) × (init_drivers_and_irqs (holding board_drivers 2) m ≡ (ok tt, after))
        × DriversRun m after
  unfolding console irq_manager Handlers.enable gpio_descriptor controller_descriptor
  init_drivers_and_irqs-DriversRun x m made idle =
      let (u, uart_done, cut_off, disturbed, not_busy, tx, rx, set_up, baud, icr) =
        init_lem tock fuel m.shared.devices.uart idle in
      let (g, gpio_done, tx_pin, rx_pin, low_kept, high_kept, pull14, pull15, others) =
        inner_map_pl011_uart_lem tock m.shared.devices.gpio in
      let m1 : Core = uart_ready tock fuel turns u m in
      let m2 : Core = gpio_ready tock g m1 in
      let m3 : Core = controller_ready tock (read offset0 x) m2 in
      let on =
        enable_lem pl011_uart_irq (distributor_of tock m3) (omega arith) made.whole.all_enables in
      (
        uart_enabled m3,
        ap (λ (run : Exec Core (Unit {0})). run m) (init_drivers_and_irqs-holding board_drivers 2)
            ∙ three_in_turn start_up enable_irq (uart_descriptor tock fuel turns)
                (gpio_descriptor tock) (controller_descriptor tock boot_core_id) m m1 m2 m3
                (uart_enabled m3)
                (uart-start_up tock fuel turns m u made.uart_address made.starting made.uart_at
                  uart_done)
                (gpio-start_up tock m1 g made.gpio_address made.gpio_at gpio_done)
                (controller-start_up tock x m2 made.controller_addresses made.starting made.whole
                  made.controller_at)
                (uart-enable_irq m3 made.starting refl made.no_handler made.whole.all_enables) refl
                refl,
        record {
          console_is = refl;
          manager_is = refl;
          uart_set_up = set_up;
          uart_kept = tx;
          tx_pin = tx_pin;
          rx_pin = rx_pin;
          handler_is =
              get_elem?-set_present m.shared.handler_table pl011_uart_irq (some uart_handler) none
                made.no_handler;
          interrupt_is_on = on.1 pl011_uart_irq;
          still_starting = (on.3 ∙ made.starting.0, ap (λ (d : Daif). d.i) on.2 ∙ made.starting.1);
        },
      )
