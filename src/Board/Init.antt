-- ===== src/Board/Init.antt =====
-- `init` of src/bsp/driver.rs when its mappings succeed, and the drivers run after it.
use rp4os.Base.{ℕ, suc, length, ◌+◌, ◌≡◌, refl, ap, some, List, [], ◌∷◌, ◌++◌, String}
use rp4os.Base.Outcome.{Outcome, ok}
use rp4os.Registers.{Tock}
use rp4os.Sync.{Machine}
use rp4os.Sync.Locks.{Starting}
use rp4os.Mmu.Region.{MmioDescriptor, new_descriptor}
use rp4os.Mmu.Kernel.{KernelMmu, kernel_map_mmio}
use rp4os.Gic.Handlers.{empty_table}
use rp4os.Drivers.{num_drivers, DriverManagerInner, DeviceDriverDescriptor, register_driver}
use rp4os.Drivers.Order.{holding, register_driver-free}
use rp4os.Devices.{Peripherals, Core}
use rp4os.Board.{
  Board, view, on_manager, map_device, instantiate_uart, instantiate_gpio,
  instantiate_interrupt_controller, pl011_uart_start, pl011_uart_size, gpio_start, gpio_size,
  gicd_start, gicd_size, gicc_start, gicc_size,
}

abbrev pub core_with : Machine Board → KernelMmu → Machine KernelMmu
core_with m k = record { kernel_state = m.kernel_state; daif = m.daif; shared = k }

abbrev pub with_mmu : KernelMmu → Machine Board → Machine Board
with_mmu k m = record m { shared = record m.shared { mmu = k } }

abbrev pub with_manager : DriverManagerInner Core → Machine Board → Machine Board
with_manager d m = record m { shared = record m.shared { drivers = d } }

abbrev pub with_peripherals : Peripherals → Machine Board → Machine Board
with_peripherals p m = record m {
  shared = record m.shared { devices = record m.shared.devices { devices = p } };
}

abbrev pub range : ℕ → ℕ → MmioDescriptor
range start size = record { start_addr = start; end_addr_exclusive = start + size }

-- With no handler.
abbrev pub with_table : Machine Board → Machine Board
with_table m = record m {
  shared = record m.shared { devices = record m.shared.devices { handler_table = empty_table } };
}

uart_range :
    new_descriptor pl011_uart_start pl011_uart_size ≡ ok (range pl011_uart_start pl011_uart_size)
unfolding new_descriptor
uart_range = refl

gpio_range : new_descriptor gpio_start gpio_size ≡ ok (range gpio_start gpio_size)
unfolding new_descriptor
gpio_range = refl

gicd_range : new_descriptor gicd_start gicd_size ≡ ok (range gicd_start gicd_size)
unfolding new_descriptor
gicd_range = refl

gicc_range : new_descriptor gicc_start gicc_size ≡ ok (range gicc_start gicc_size)
unfolding new_descriptor
gicc_range = refl

-- Each instantiation, with its mappings done.
abbrev pub with_uart : ℕ → Peripherals → Peripherals
with_uart address p = record p {
  uart_static = some address;
  uart = record p.uart { chars_written = 0; chars_read = 0 };
}

abbrev pub with_gpio : ℕ → Peripherals → Peripherals
with_gpio address p = record p { gpio_static = some address }

abbrev pub with_controller : ℕ × ℕ → Peripherals → Peripherals
with_controller addresses p = record p { controller_static = some addresses }

abbrev pub changed : (Peripherals → Peripherals) → KernelMmu → Machine Board → Machine Board
changed f k m = with_peripherals (f m.shared.devices.devices) (with_mmu k m)

module _ (tock : Tock) where
  -- A mapping that succeeds and changes only the mappings.
  abbrev pub Maps : String → ℕ → ℕ → Machine Board → KernelMmu → ℕ → KernelMmu → Type 0
  Maps name start size m before address after =
      kernel_map_mmio tock name (range start size) (core_with m before)
      ≡ (ok address, core_with m after)

  map_device-Maps :
      (name : String) (start size address : ℕ) (m : Machine Board) (after : KernelMmu)
      → new_descriptor start size ≡ ok (range start size)
      → Maps name start size m m.shared.mmu address after
      → map_device tock name start size m ≡ (ok address, with_mmu after m)
  unfolding map_device
  map_device-Maps name start size address m after made maps = rw (made, maps) refl

  pub register-held :
      (ds : List (DeviceDriverDescriptor Core)) (free : ℕ) (d : DeviceDriverDescriptor Core)
      (m : Machine Board)
      → Starting m
      → length ds + suc free ≡ num_drivers
      → m.shared.drivers ≡ holding ds (suc free)
      → on_manager (register_driver d) m ≡ (ok tt, with_manager (holding (ds ++ d ∷ []) free) m)
  register-held ds free d m starting slots held =
      ap
        (λ (r : Outcome (Unit {0}) × Machine (DriverManagerInner Core)). (
          r.0,
          record {
            kernel_state = r.1.kernel_state;
            daif = r.1.daif;
            shared = record m.shared { drivers = r.1.shared };
          },
        ))
        (register_driver-free ds free d (view (λ b. b.drivers) m) starting slots held)

  pub uart-made :
      (m : Machine Board) (address : ℕ) (k : KernelMmu)
      → Maps "BCM PL011 UART" pl011_uart_start pl011_uart_size m m.shared.mmu address k
      → instantiate_uart tock m ≡ (ok tt, changed (with_uart address) k m)
  unfolding instantiate_uart
  uart-made m address k maps =
      rw
        (map_device-Maps "BCM PL011 UART" pl011_uart_start pl011_uart_size address m k uart_range
          maps)
        refl

  pub gpio-made :
      (m : Machine Board) (address : ℕ) (k : KernelMmu)
      → Maps "BCM GPIO" gpio_start gpio_size m m.shared.mmu address k
      → instantiate_gpio tock m ≡ (ok tt, changed (with_gpio address) k m)
  unfolding instantiate_gpio
  gpio-made m address k maps =
      rw (map_device-Maps "BCM GPIO" gpio_start gpio_size address m k gpio_range maps) refl

  pub controller-made :
      (m : Machine Board) (gicd gicc : ℕ) (k k' : KernelMmu)
      → Maps "GICv2 GICD" gicd_start gicd_size m m.shared.mmu gicd k
      → Maps "GICV2 GICC" gicc_start gicc_size m k gicc k'
      → instantiate_interrupt_controller tock m
        ≡ (ok tt, with_table (changed (with_controller (gicd, gicc)) k' m))
  unfolding instantiate_interrupt_controller
  controller-made m gicd gicc k k' maps maps' =
      rw
        (
          map_device-Maps "GICv2 GICD" gicd_start gicd_size gicd m k gicd_range maps,
          map_device-Maps "GICV2 GICC" gicc_start gicc_size gicc (with_mmu k m) k' gicc_range maps',
        )
        refl
