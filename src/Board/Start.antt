-- ===== src/Board/Start.antt =====
-- From `init` of src/bsp/driver.rs to running drivers.
use rp4os.Base.{ℕ, ◌<◌, ◌≡◌, refl, ap, ◌∙◌, Bool, true, false, some, [], ◌∷◌}
use rp4os.Base.Outcome.{ok, err}
use rp4os.Base.Exec.{Exec, fail_if, ◌>>◌}
use rp4os.Registers.{Tock}
use rp4os.Sync.{Machine}
use rp4os.Sync.Locks.{Starting}
use rp4os.Mmu.Kernel.{KernelMmu}
use rp4os.Gic.Handlers.{boot_core_id}
use rp4os.Drivers.{DeviceDriverDescriptor, register_driver, init_drivers_and_irqs, new}
use rp4os.Drivers.Order.{holding}
use rp4os.Devices.{Core, uart_descriptor, gpio_descriptor, controller_descriptor}
use rp4os.Devices.Bringup.{Whole}
use rp4os.Devices.Running.{
  board_drivers, Instantiated, DriversRun, init_drivers_and_irqs-DriversRun,
}
use rp4os.Board.{
  Board, view, on_manager, instantiate_uart, instantiate_gpio, instantiate_interrupt_controller,
  set_done, init, pl011_uart_start, pl011_uart_size, gpio_start, gpio_size, gicd_start, gicd_size,
  gicc_start, gicc_size,
}
use rp4os.Board.Init.{
  Maps, with_manager, with_table, with_uart, with_gpio, with_controller, changed, uart-made,
  gpio-made, controller-made, register-held,
}

-- Seven calls that succeed one after another.
seven_in_turn :
    {S : Type 0} (a b c d e f g : Exec S (Unit {0})) (m m1 m2 m3 m4 m5 m6 m7 : S)
    → a m ≡ (ok tt, m1)
    → b m1 ≡ (ok tt, m2)
    → c m2 ≡ (ok tt, m3)
    → d m3 ≡ (ok tt, m4)
    → e m4 ≡ (ok tt, m5)
    → f m5 ≡ (ok tt, m6)
    → g m6 ≡ (ok tt, m7)
    → (a >> (b >> (c >> (d >> (e >> (f >> g)))))) m ≡ (ok tt, m7)
seven_in_turn a b c d e f g m m1 m2 m3 m4 m5 m6 m7 ha hb hc hd he hf hg =
    rw (ha, hb, hc, hd, he, hf, hg) refl

module _ (tock : Tock) (fuel turns : ℕ) (m : Machine Board) (starting : Starting m)
    (fresh : m.shared.init_done ≡ false) (empty : m.shared.drivers ≡ new)
    (uart_at gpio_at gicd_at gicc_at : ℕ) (k1 k2 k3 k4 : KernelMmu)
    (uart_maps : Maps tock "BCM PL011 UART" pl011_uart_start pl011_uart_size m m.shared.mmu uart_at
      k1)
    (gpio_maps : Maps tock "BCM GPIO" gpio_start gpio_size m k1 gpio_at k2)
    (gicd_maps : Maps tock "GICv2 GICD" gicd_start gicd_size m k2 gicd_at k3)
    (gicc_maps : Maps tock "GICV2 GICC" gicc_start gicc_size m k3 gicc_at k4) where
  abbrev uart : DeviceDriverDescriptor Core
  uart = uart_descriptor tock fuel turns

  abbrev after_uart : Machine Board
  after_uart = with_manager (holding (uart ∷ []) 4) (changed (with_uart uart_at) k1 m)

  abbrev after_gpio : Machine Board
  after_gpio =
      with_manager (holding (uart ∷ gpio_descriptor tock ∷ []) 3)
        (changed (with_gpio gpio_at) k2 after_uart)

  abbrev after_controller : Machine Board
  after_controller =
      with_manager (holding (board_drivers tock fuel turns) 2)
        (with_table (changed (with_controller (gicd_at, gicc_at)) k4 after_gpio))

  abbrev started : Machine Board
  started = record after_controller { shared = record after_controller.shared { init_done = true } }

  init-started : init tock fuel turns boot_core_id m ≡ (ok tt, started)
  unfolding init set_done new
  init-started =
      ap
        (λ (done : Bool).
          (fail_if done "Init already done"
              >> (instantiate_uart tock
                  >> (on_manager (register_driver (uart_descriptor tock fuel turns))
                      >> (instantiate_gpio tock
                          >> (on_manager (register_driver (gpio_descriptor tock))
                              >> (instantiate_interrupt_controller tock
                                  >> (on_manager
                                        (register_driver (controller_descriptor tock boot_core_id))
                                      >> set_done tock)))))))
            m)
        fresh
      ∙ seven_in_turn (instantiate_uart tock)
          (on_manager (register_driver (uart_descriptor tock fuel turns))) (instantiate_gpio tock)
          (on_manager (register_driver (gpio_descriptor tock)))
          (instantiate_interrupt_controller tock)
          (on_manager (register_driver (controller_descriptor tock boot_core_id))) (set_done tock) m
          (changed (with_uart uart_at) k1 m) after_uart (changed (with_gpio gpio_at) k2 after_uart)
          after_gpio (with_table (changed (with_controller (gicd_at, gicc_at)) k4 after_gpio))
          after_controller started (uart-made tock m uart_at k1 uart_maps)
          (register-held tock [] 4 uart (changed (with_uart uart_at) k1 m) starting refl empty)
          (gpio-made tock after_uart gpio_at k2 gpio_maps)
          (register-held tock (uart ∷ []) 3 (gpio_descriptor tock)
            (changed (with_gpio gpio_at) k2 after_uart) starting refl refl)
          (controller-made tock after_gpio gicd_at gicc_at k3 k4 gicd_maps gicc_maps)
          (register-held tock (uart ∷ gpio_descriptor tock ∷ []) 2
            (controller_descriptor tock boot_core_id)
            (with_table (changed (with_controller (gicd_at, gicc_at)) k4 after_gpio)) starting refl
            refl)
          refl

  abbrev core : Machine Board → Core
  core b = view (λ s. s.devices) b

  started-Instantiated :
      (x : ℕ) → Whole tock x m.shared.devices.gicd → Instantiated tock fuel turns x (core started)
  started-Instantiated x whole = record {
    starting = starting;
    uart_address = uart_at;
    uart_at = refl;
    gpio_address = gpio_at;
    gpio_at = refl;
    controller_addresses = (gicd_at, gicc_at);
    controller_at = refl;
    whole = whole;
    no_handler = refl;
  }

  again : init tock fuel turns boot_core_id started ≡ (err "Init already done", started)
  unfolding init
  again = refl

  -- In the init phase with IRQs masked, the first call of `init`, whose four mappings succeed, leaves
  -- each driver with the address of its mapping; a second call is refused and changes nothing. The
  -- manager can then run the drivers, once the UART has finished sending, on a boot core with a
  -- complete interrupt controller: none fails, and console, IRQ manager, pins, UART and its
  -- interrupt are as they should be.
  pub init-DriversRun :
      (x : ℕ)
      → Whole tock x m.shared.devices.gicd
      → m.shared.devices.devices.uart.line.busy_for < fuel
      → (done : Machine Board) × (init tock fuel turns boot_core_id m ≡ (ok tt, done))
        × (init tock fuel turns boot_core_id done ≡ (err "Init already done", done))
        × (done.shared.mmu ≡ k4)
        × (done.shared.devices.devices.uart_static ≡ some uart_at)
        × (done.shared.devices.devices.gpio_static ≡ some gpio_at)
        × (done.shared.devices.devices.controller_static ≡ some (gicd_at, gicc_at))
        × ((after : Core) × (init_drivers_and_irqs done.shared.drivers (view (λ s. s.devices) done)
              ≡ (ok tt, after))
            × DriversRun tock fuel turns (view (λ s. s.devices) done) after)
  init-DriversRun x whole idle = (
    started,
    init-started,
    again,
    refl,
    refl,
    refl,
    refl,
    init_drivers_and_irqs-DriversRun tock fuel turns x (core started) (started-Instantiated x whole)
        idle,
  )
