-- ===== src/Devices.antt =====
-- The devices of the board behind their drivers, with the two registries that stand between them
-- and the kernel: the console of src/console and the IRQ manager of src/exception, each with its
-- null object. The driver calls are those of src/driver.rs as the UART, the GPIO and the interrupt
-- controller implement them or inherit them.
pub mod Bringup
pub mod Running
use rp4os.Base.{ℕ, Option, none, some, List, String}
use rp4os.Base.Outcome.{Outcome, ok, panic, unwrap}
use rp4os.Base.Exec.{Exec, lift, pure, get, ◌>>=◌, ◌>>◌}
use rp4os.Registers.{Tock}
use rp4os.Sync.{Machine, lock, write}
use rp4os.Uart.{Pl011UartInner, handle}
use rp4os.Uart
use rp4os.Uart.Text.{write_str}
use rp4os.Gpio.{GpioInner, inner_map_pl011_uart}
use rp4os.Gic.Handlers.{Gicv2, IrqHandlerDescriptor, handle_pending_irqs}
use rp4os.Gic.Handlers
use rp4os.Drivers.{DeviceDriver, DeviceDriverDescriptor}

-- What CUR_CONSOLE refers to.
pub data Console : Type 0 where
  null_console pl011_uart : Console

-- What IRQ_MANAGER refers to.
pub data IrqManager : Type 0 where
  null_irq_manager gicv2 : IrqManager

-- The statics of src/bsp/driver.rs as the start addresses of their registers, none before `write`.
pub record Peripherals : Type 0 where
  pub uart : Pl011UartInner
  pub gpio : GpioInner
  pub uart_static : Option ℕ
  pub gpio_static : Option ℕ
  pub controller_static : Option (ℕ × ℕ)
  pub cur_console : Console
  pub irq_manager : IrqManager

-- The executing core with the interrupt controller and the peripherals.
abbrev pub Core : Type 0
Core = Machine (Gicv2 Peripherals)

abbrev pub on_devices : {A : Type 0} → Exec Peripherals A → Exec (Gicv2 Peripherals) A
on_devices f g = let r = f g.devices in (r.0, record g { devices = r.1 })

abbrev pub on_uart : {A : Type 0} → Exec Pl011UartInner A → Exec Peripherals A
on_uart f p = let r = f p.uart in (r.0, record p { uart = r.1 })

abbrev pub on_gpio : {A : Type 0} → Exec GpioInner A → Exec Peripherals A
on_gpio f p = let r = f p.gpio in (r.0, record p { gpio = r.1 })

-- `register_console` and `console`.
unfoldable pub register_console : Console → Exec Core (Unit {0})
register_console new_console =
    write (on_devices λ p. (ok tt, record p { cur_console = new_console }))

unfoldable pub console : Core → Console
console m = m.shared.devices.cur_console

-- `set_irq_manager` and `irq_manager`.
unfoldable pub set_irq_manager : IrqManager → Exec Core (Unit {0})
set_irq_manager new_manager =
    write (on_devices λ p. (ok tt, record p { irq_manager = new_manager }))

unfoldable pub irq_manager : Core → IrqManager
irq_manager m = m.shared.devices.irq_manager

-- `register_handler` and `enable` through the reference: `NullIRQManager` panics.
unfoldable pub register_handler_of :
    IrqManager → IrqHandlerDescriptor Peripherals → Exec Core (Unit {0})
register_handler_of null_irq_manager descriptor = lift (panic "No IRQ Manager registered yet")
register_handler_of gicv2 descriptor = Handlers.register_handler descriptor

unfoldable pub enable_of : IrqManager → ℕ → Exec Core (Unit {0})
enable_of null_irq_manager irq_number = lift (panic "No IRQ Manager registered yet")
enable_of gicv2 irq_number = Handlers.enable irq_number

-- src/bsp/execption.rs.
abbrev pub pl011_uart_irq : ℕ
pl011_uart_irq = 153

-- `assume_init_ref`, which is undefined behaviour before `write`.
abbrev pub assume_init_ref : {A : Type 0} → (Peripherals → Option A) → Exec Core A
assume_init_ref static m = (unwrap (static m.shared.devices) "undefined behaviour", m)

-- The default of `register_and_enable_irq_handler`.
abbrev pub no_irq_support : ℕ → Exec Core (Unit {0})
no_irq_support irq_number =
    lift (panic "Attempt to enable IRQ for device, but driver does not support this")

module _ (tock : Tock) where
  unfoldable pub handle_pending_irqs_of : IrqManager → Exec Core (Unit {0})
  handle_pending_irqs_of null_irq_manager = lift (panic "No IRQ Manager registered yet")
  handle_pending_irqs_of gicv2 = handle_pending_irqs tock

  module _ (fuel turns : ℕ) where
    -- `write_fmt` of a console, with the formatted text.
    unfoldable pub write_fmt_of : Console → List ℕ → Exec Core (Unit {0})
    write_fmt_of null_console text = pure tt
    write_fmt_of pl011_uart text = lock (on_devices (on_uart (write_str tock fuel text)))

    -- `_print` of src/print.rs.
    unfoldable pub print : List ℕ → Exec Core (Unit {0})
    unfolding write_fmt_of
    print text m = write_fmt_of (console m) text m

    -- `register_and_enable_irq_handler` of the UART.
    unfoldable pub register_uart_handler : ℕ → Exec Core (Unit {0})
    unfolding register_handler_of enable_of
    register_uart_handler irq_number = do
      m ← get
      register_handler_of (irq_manager m) (record {
        number = irq_number;
        name = "BCM PL011 UART";
        handler = on_uart (handle tock fuel turns);
      })
      m' ← get
      enable_of (irq_manager m') irq_number

    unfoldable pub uart_driver : DeviceDriver Core
    unfolding register_uart_handler
    uart_driver = record {
      compatible = "BCM PL011 UART";
      init = lock (on_devices (on_uart (Uart.init tock fuel)));
      register_and_enable_irq_handler = register_uart_handler;
    }

  unfoldable pub gpio_driver : DeviceDriver Core
  gpio_driver = record {
    compatible = "BCM GPIO";
    init = pure tt;
    register_and_enable_irq_handler = no_irq_support;
  }

  unfoldable pub controller_driver : ℕ → DeviceDriver Core
  controller_driver core_id = record {
    compatible = "GICv2 (ARM Generic Interrupt Controller v2)";
    init = Handlers.init tock core_id;
    register_and_enable_irq_handler = no_irq_support;
  }

  -- The post-init callbacks of src/bsp/driver.rs.
  unfoldable pub post_init_uart : Exec Core (Unit {0})
  unfolding register_console
  post_init_uart = do address ← assume_init_ref (λ p. p.uart_static); register_console pl011_uart

  unfoldable pub post_init_gpio : Exec Core (Unit {0})
  post_init_gpio = do
    address ← assume_init_ref (λ p. p.gpio_static)
    lock (on_devices (on_gpio (inner_map_pl011_uart tock)))

  unfoldable pub post_init_interrupt_controller : Exec Core (Unit {0})
  unfolding set_irq_manager
  post_init_interrupt_controller = do
    addresses ← assume_init_ref (λ p. p.controller_static)
    set_irq_manager gicv2

  -- The descriptors that `init` of src/bsp/driver.rs registers.
  unfoldable pub uart_descriptor : ℕ → ℕ → DeviceDriverDescriptor Core
  unfolding uart_driver post_init_uart
  uart_descriptor fuel turns = record {
    device_driver = uart_driver fuel turns;
    post_init_callback = some post_init_uart;
    irq_number = some pl011_uart_irq;
  }

  unfoldable pub gpio_descriptor : DeviceDriverDescriptor Core
  unfolding gpio_driver post_init_gpio
  gpio_descriptor = record {
    device_driver = gpio_driver;
    post_init_callback = some post_init_gpio;
    irq_number = none;
  }

  unfoldable pub controller_descriptor : ℕ → DeviceDriverDescriptor Core
  unfolding controller_driver post_init_interrupt_controller
  controller_descriptor core_id = record {
    device_driver = controller_driver core_id;
    post_init_callback = some post_init_interrupt_controller;
    irq_number = none;
  }
