-- ===== src/Devices/Bringup.antt =====
-- The three drivers of the board brought up by src/driver.rs in the order of src/bsp/driver.rs.
use rp4os.Base.{ℕ, ◌≤◌, ◌≡◌, refl, ap, ◌∙◌, Option, some, length, get_elem?}
use rp4os.Base.Outcome.{Outcome, ok, unwrap}
use rp4os.Base.Exec.{Exec, bind_outcome, ◌>>=◌, ◌>>◌}
use rp4os.Registers.{Tock}
use rp4os.Sync.{Machine, lock}
use rp4os.Sync.Locks.{Starting, write-Starting, lock-ok}
use rp4os.Uart.{Pl011UartInner}
use rp4os.Uart
use rp4os.Gpio.{GpioInner, inner_map_pl011_uart}
use rp4os.Gic.Gicd.{Gicd, num_irqs, offset0}
use rp4os.Gic.Gicd.Routing.{routed, boot_core_init-routed}
use rp4os.Gic.Gicc.{priority_accept_all}
use rp4os.Gic.Gicc
use rp4os.Gic.Handlers.{Gicv2, IrqHandlerDescriptor, boot_core_id, on_gicc}
use rp4os.Gic.Handlers
use rp4os.Drivers.{DeviceDriverDescriptor, call_back, start_up}
use rp4os.Devices.{
  Peripherals, Core, pl011_uart, gicv2, on_devices, on_uart, on_gpio, register_console,
  set_irq_manager, uart_descriptor, gpio_descriptor, controller_descriptor, assume_init_ref,
  uart_driver, gpio_driver, controller_driver, post_init_uart, post_init_gpio,
  post_init_interrupt_controller,
}

abbrev pub with_devices : Core → Peripherals → Core
with_devices m p = record m { shared = record m.shared { devices = p } }

-- A driver whose two calls succeed.
start_up-ok :
    (d : DeviceDriverDescriptor Core) (m m1 m2 : Core)
    → d.device_driver.init m ≡ (ok tt, m1)
    → call_back d.post_init_callback m1 ≡ (ok tt, m2)
    → start_up d m ≡ (ok tt, m2)
start_up-ok d m m1 m2 first second = rw (first, second) refl

-- A static that was written is used.
assumed :
    {A : Type 0} (static : Peripherals → Option A) (k : A → Exec Core (Unit {0})) (a : A) (m : Core)
    → static m.shared.devices ≡ some a
    → (assume_init_ref static >>= k) m ≡ k a m
assumed {A = A} static k a m e =
    ap (λ (o : Option A). bind_outcome (unwrap o "undefined behaviour") m k) e

module _ (tock : Tock) (fuel turns : ℕ) where
  -- After the UART is set up and is the console.
  abbrev pub uart_ready : Pl011UartInner → Core → Core
  uart_ready u m = with_devices m (record m.shared.devices { uart = u; cur_console = pl011_uart })

  -- A closure over the UART under its lock.
  lock-uart :
      (f : Exec Pl011UartInner (Unit {0})) (m : Core) (u : Pl011UartInner)
      → f m.shared.devices.uart ≡ (ok tt, u)
      → lock (on_devices (on_uart f)) m
        ≡ (ok tt, with_devices m (record m.shared.devices { uart = u }))
  lock-uart f m u done =
      lock-ok (on_devices (on_uart f)) tt
        (record m.shared { devices = record m.shared.devices { uart = u } }) m (rw done refl)

  uart-post_init :
      (m : Core) (address : ℕ)
      → Starting m
      → m.shared.devices.uart_static ≡ some address
      → post_init_uart tock m
        ≡ (ok tt, with_devices m (record m.shared.devices { cur_console = pl011_uart }))
  unfolding post_init_uart register_console
  uart-post_init m address starting static =
      assumed (λ p. p.uart_static) (λ a. register_console pl011_uart) address m static
      ∙ write-Starting _ m starting

  pub uart-start_up :
      (m : Core) (u : Pl011UartInner) (address : ℕ)
      → Starting m
      → m.shared.devices.uart_static ≡ some address
      → Uart.init tock fuel m.shared.devices.uart ≡ (ok tt, u)
      → start_up (uart_descriptor tock fuel turns) m ≡ (ok tt, uart_ready u m)
  unfolding uart_descriptor uart_driver
  uart-start_up m u address starting static done =
      let m1 : Core = with_devices m (record m.shared.devices { uart = u }) in
      start_up-ok (uart_descriptor tock fuel turns) m m1 (uart_ready u m)
        (lock-uart (Uart.init tock fuel) m u done)
        (rw (uart-post_init m1 address starting static) refl)

module _ (tock : Tock) where
  abbrev pub gpio_ready : GpioInner → Core → Core
  gpio_ready g m = with_devices m (record m.shared.devices { gpio = g })

  with_gpio_of :
      (m : Core) (g : GpioInner)
      → inner_map_pl011_uart tock m.shared.devices.gpio ≡ (ok tt, g)
      → on_devices (on_gpio (inner_map_pl011_uart tock)) m.shared
        ≡ (ok tt, record m.shared { devices = record m.shared.devices { gpio = g } })
  with_gpio_of m g done =
      ap
        (λ (r : Outcome (Unit {0}) × GpioInner).
          (r.0, record m.shared { devices = record m.shared.devices { gpio = r.1 } }))
        done

  pub gpio-start_up :
      (m : Core) (g : GpioInner) (address : ℕ)
      → m.shared.devices.gpio_static ≡ some address
      → inner_map_pl011_uart tock m.shared.devices.gpio ≡ (ok tt, g)
      → start_up (gpio_descriptor tock) m ≡ (ok tt, gpio_ready g m)
  unfolding gpio_descriptor gpio_driver post_init_gpio
  gpio-start_up m g address static done =
      let step =
        lock-ok (on_devices (on_gpio (inner_map_pl011_uart tock))) tt
          (record m.shared { devices = record m.shared.devices { gpio = g } }) m
          (with_gpio_of m g done) in
      let post =
        assumed (λ p. p.gpio_static) (λ a. lock (on_devices (on_gpio (inner_map_pl011_uart tock))))
          address m static
        ∙ step in
      start_up-ok (gpio_descriptor tock) m m (gpio_ready g m) refl (rw post refl)

module _ (tock : Tock) where
  open tock use {read}

  abbrev pub distributor_of : Core → Machine Gicd
  distributor_of m = record { kernel_state = m.kernel_state; daif = m.daif; shared = m.shared.gicd }

  abbrev pub gicd_ready : ℕ → Gicd → Gicd
  gicd_ready mask g = record g { shared_registers = routed tock mask g.shared_registers }

  abbrev pub controller_on : ℕ → Core → Core
  controller_on mask m = record m {
    shared = record m.shared {
      gicd = gicd_ready mask m.shared.gicd;
      gicc = Gicc.enable tock (priority_accept_all tock m.shared.gicc);
    };
  }

  abbrev pub controller_ready : ℕ → Core → Core
  controller_ready mask m =
      with_devices (controller_on mask m) (record m.shared.devices { irq_manager = gicv2 })

  -- The boot core's controller has its target mask in the first banked register, at least 36
  -- interrupts, and all its registers.
  pub record Whole (x : ℕ) (g : Gicd) : Type 0 where
    pub own : get_elem? g.banked_registers.itargetsr 0 ≡ some x
    pub enough : 36 ≤ num_irqs tock g.shared_registers
    pub all_targets : length g.shared_registers.itargetsr ≡ 248
    pub all_enables : length g.shared_registers.isenabler ≡ 31

  controller-init :
      (x : ℕ) (m : Core)
      → Starting m
      → Whole x m.shared.gicd
      → Handlers.init tock boot_core_id m ≡ (ok tt, controller_on (read offset0 x) m)
  unfolding Handlers.init
  controller-init x m starting whole =
      ap
        (λ (r : Outcome (Unit {0}) × Machine Gicd).
          bind_outcome r.0
            (record {
              kernel_state = r.1.kernel_state;
              daif = r.1.daif;
              shared = record m.shared { gicd = r.1.shared };
            })
            (λ _. on_gicc (priority_accept_all tock) >> on_gicc (Gicc.enable tock)))
        (boot_core_init-routed tock x (distributor_of m) starting.0 whole.own whole.enough
          whole.all_targets)

  pub controller-start_up :
      (x : ℕ) (m : Core) (addresses : ℕ × ℕ)
      → Starting m
      → Whole x m.shared.gicd
      → m.shared.devices.controller_static ≡ some addresses
      → start_up (controller_descriptor tock boot_core_id) m
        ≡ (ok tt, controller_ready (read offset0 x) m)
  unfolding controller_descriptor controller_driver post_init_interrupt_controller set_irq_manager
  controller-start_up x m addresses starting whole static =
      let m1 : Core = controller_on (read offset0 x) m in
      let post =
        assumed (λ p. p.controller_static) (λ a. set_irq_manager gicv2) addresses m1 static
        ∙ write-Starting _ m1 starting in
      start_up-ok (controller_descriptor tock boot_core_id) m m1
        (controller_ready (read offset0 x) m) (controller-init x m starting whole) (rw post refl)
