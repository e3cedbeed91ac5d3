-- ===== src/Board.antt =====
-- `init` of src/bsp/driver.rs: the board's drivers are mapped, made and registered.
pub mod Init
pub mod Pairs
pub mod Mappings
pub mod Start
use rp4os.Base.{ℕ, Bool, true, some, String}
use rp4os.Base.Outcome.{Outcome, ok}
use rp4os.Base.Exec.{Exec, lift, get, fail_if, ◌>>=◌, ◌>>◌}
use rp4os.Registers.{Tock}
use rp4os.Sync.{Machine}
use rp4os.Mmu.Region.{new_descriptor}
use rp4os.Mmu.Kernel.{KernelMmu, kernel_map_mmio}
use rp4os.Gic.Handlers.{Gicv2, empty_table}
use rp4os.Drivers.{DriverManagerInner, register_driver}
use rp4os.Devices.{Peripherals, Core, uart_descriptor, gpio_descriptor, controller_descriptor}

-- `map::mmio` of src/bsp/memory/mod.rs.
abbrev pub gpio_start : ℕ
gpio_start = 0xFE20_0000

abbrev pub gpio_size : ℕ
gpio_size = 0xA0

abbrev pub pl011_uart_start : ℕ
pl011_uart_start = 0xFE20_1000

abbrev pub pl011_uart_size : ℕ
pl011_uart_size = 0x48

abbrev pub gicd_start : ℕ
gicd_start = 0xFF84_1000

abbrev pub gicd_size : ℕ
gicd_size = 0x824

abbrev pub gicc_start : ℕ
gicc_start = 0xFF84_2000

abbrev pub gicc_size : ℕ
gicc_size = 0x14

-- The statics that `init` changes: the kernel's mappings, DRIVER_MANAGER, the devices and INIT_DONE.
pub record Board : Type 0 where
  pub mmu : KernelMmu
  pub drivers : DriverManagerInner Core
  pub devices : Gicv2 Peripherals
  pub init_done : Bool

-- A call that changes one of them, on the same core.
abbrev pub view : {W D : Type 0} → (W → D) → Machine W → Machine D
view get_part m = record {
  kernel_state = m.kernel_state;
  daif = m.daif;
  shared = get_part m.shared;
}

abbrev pub zoom : {W D A : Type 0} → (W → D) → (D → W → W) → Exec (Machine D) A → Exec (Machine W) A
zoom get_part set_part f m =
    let r = f (view get_part m) in
    (
      r.0,
      record {
        kernel_state = r.1.kernel_state;
        daif = r.1.daif;
        shared = set_part r.1.shared m.shared;
      },
    )

abbrev pub on_mmu : {A : Type 0} → Exec (Machine KernelMmu) A → Exec (Machine Board) A
on_mmu = zoom (λ b. b.mmu) (λ k b. record b { mmu = k })

abbrev pub on_manager :
    {A : Type 0} → Exec (Machine (DriverManagerInner Core)) A → Exec (Machine Board) A
on_manager = zoom (λ b. b.drivers) (λ d b. record b { drivers = d })

-- What a static's `write` puts there.
abbrev pub set_peripherals : (Peripherals → Peripherals) → Exec (Machine Board) (Unit {0})
set_peripherals f m = (
  ok tt,
  record m {
    shared = record m.shared {
      devices = record m.shared.devices { devices = f m.shared.devices.devices };
    };
  },
)

abbrev new_handler_table : Exec (Machine Board) (Unit {0})
new_handler_table m = (
  ok tt,
  record m {
    shared = record m.shared { devices = record m.shared.devices { handler_table = empty_table } };
  },
)

module _ (tock : Tock) where
  -- The descriptor of a device and its mapping.
  unfoldable pub map_device : String → ℕ → ℕ → Exec (Machine Board) ℕ
  map_device name start size = do
    mmio_descriptor ← lift (new_descriptor start size)
    on_mmu (kernel_map_mmio tock name mmio_descriptor)

  -- `PL011UartInner::new` zeroes the counters.
  unfoldable pub instantiate_uart : Exec (Machine Board) (Unit {0})
  unfolding map_device
  instantiate_uart = do
    virt_addr ← map_device "BCM PL011 UART" pl011_uart_start pl011_uart_size
    set_peripherals λ p. record p {
      uart_static = some virt_addr;
      uart = record p.uart { chars_written = 0; chars_read = 0 };
    }

  unfoldable pub instantiate_gpio : Exec (Machine Board) (Unit {0})
  unfolding map_device
  instantiate_gpio = do
    virt_addr ← map_device "BCM GPIO" gpio_start gpio_size
    set_peripherals λ p. record p { gpio_static = some virt_addr }

  -- `GICv2::new` has no handler.
  unfoldable pub instantiate_interrupt_controller : Exec (Machine Board) (Unit {0})
  unfolding map_device
  instantiate_interrupt_controller = do
    gicd_virt_addr ← map_device "GICv2 GICD" gicd_start gicd_size
    gicc_virt_addr ← map_device "GICV2 GICC" gicc_start gicc_size
    set_peripherals λ p. record p { controller_static = some (gicd_virt_addr, gicc_virt_addr) }
    new_handler_table

  unfoldable pub set_done : Exec (Machine Board) (Unit {0})
  set_done m = (ok tt, record m { shared = record m.shared { init_done = true } })

  -- `init`; the statics are written by then, so the references of the descriptors are valid.
  unfoldable pub init : ℕ → ℕ → ℕ → Exec (Machine Board) (Unit {0})
  unfolding instantiate_uart instantiate_gpio instantiate_interrupt_controller set_done
  init fuel turns core_id = do
    m ← get
    fail_if m.shared.init_done "Init already done"
    instantiate_uart
    on_manager (register_driver (uart_descriptor tock fuel turns))
    instantiate_gpio
    on_manager (register_driver (gpio_descriptor tock))
    instantiate_interrupt_controller
    on_manager (register_driver (controller_descriptor tock core_id))
    set_done
