-- ===== src/Examples/Serial.antt =====
-- The serial port with two characters waiting, and a kernel with up to five drivers.
use rp4os.Base.{ℕ, ◌+◌, ◌*◌, ◌/◌, ◌%◌, ◌^◌, ◌≡◌, refl, some, false, List, [], ◌∷◌, ◌++◌, arith}
use rp4os.Base.Outcome.{ok}
use rp4os.Registers.Concrete.{concrete}
use rp4os.Sync.{Machine}
use rp4os.Uart.{Pl011UartInner, init, handle}
use rp4os.Uart.Echo.{handle-echo}
use rp4os.Uart.Setup.{SetUp, baud_rate, init_lem}
use rp4os.Drivers.{DeviceDriverDescriptor, DriverManagerInner, new, init_drivers_and_irqs}
use rp4os.Drivers.Order.{register_drivers}
use rp4os.Drivers.Calls.{in_turn, after_call, init_calls, irq_calls, init_drivers_and_irqs-order}
use rp4os.Uart.Text.{write_str, clear_rx, write_str_lem, clear_rx_lem}
use rp4os.Gpio.{
  GpioInner, inner_map_pl011_uart, fsel14, fsel15, pull_up, gpio_pup_pdn_cntrl14,
  gpio_pup_pdn_cntrl15,
}
use rp4os.Gpio.Pins.{inner_map_pl011_uart_lem}
use rp4os.Examples.{masked_daif}

-- "OK" waits, the receive interrupt is pending, and a character is still being sent.
abbrev port : Pl011UartInner
port = record {
  registers = record {
    ibrd = 0;
    fbrd = 0;
    lcr_h = 0;
    latched_ibrd = 0;
    latched_fbrd = 0;
    cr = 0x301;
    ifls = 0;
    imsc = 0;
    mis = 16;
    icr = 0;
  };
  line = record {
    rx = 79 ∷ 75 ∷ [];
    tx = 62 ∷ [];
    full_for = 2;
    busy_for = 3;
    delay = 4;
    cut_off = false;
    disturbed = false;
  };
  chars_written = 1;
  chars_read = 0;
}

handle-echo_example :
    (after : Pl011UartInner) × (handle concrete 5 3 port ≡ (ok tt, after))
    × (after.line.tx ≡ 62 ∷ 79 ∷ 75 ∷ [])
    × (after.line.rx ≡ [])
    × (after.chars_read ≡ 2)
    × (after.chars_written ≡ 3)
    × (after.registers.icr ≡ 0)
handle-echo_example =
    handle-echo concrete 5 3 port refl (omega arith) (omega arith) (omega arith) (omega arith)
      (omega arith)

init_lem_example :
    (after : Pl011UartInner) × (init concrete 4 port ≡ (ok tt, after))
    × (after.line.cut_off ≡ false)
    × (after.line.disturbed ≡ false)
    × (after.line.busy_for ≡ 0)
    × (after.line.tx ≡ 62 ∷ [])
    × (after.line.rx ≡ 79 ∷ 75 ∷ [])
    × SetUp concrete after.registers
    × (baud_rate concrete after.registers ≡ 923076)
    × (after.registers.icr ≡ 0)
init_lem_example = init_lem concrete 4 port (omega arith)

-- "a", a line end and "b".
write_str_lem_example :
    (after : Pl011UartInner) × (write_str concrete 5 (97 ∷ 10 ∷ 98 ∷ []) port ≡ (ok tt, after))
    × (after.line.tx ≡ 62 ∷ 97 ∷ 13 ∷ 10 ∷ 98 ∷ [])
    × (after.chars_written ≡ 5)
    × (after.line.rx ≡ 79 ∷ 75 ∷ [])
    × (after.registers ≡ port.registers)
write_str_lem_example =
    write_str_lem concrete 5 (97 ∷ 10 ∷ 98 ∷ []) port (omega arith) (omega arith) (omega arith)

abbrev with_port : Pl011UartInner → Machine Pl011UartInner
with_port u = record { kernel_state = 1; daif = masked_daif; shared = u }

clear_rx_lem_example :
    (after : Pl011UartInner) × (clear_rx concrete 5 3 (with_port port) ≡ (ok tt, with_port after))
    × (after.line.rx ≡ [])
    × (after.chars_read ≡ 2)
    × (after.line.tx ≡ 62 ∷ [])
clear_rx_lem_example = clear_rx_lem concrete 5 3 (with_port port) (omega arith) (omega arith)

-- All pins but 14 and 15 are outputs.
abbrev pins : GpioInner
pins = record { registers = record { gpfsel1 = 0x0924_0249; gpio_pup_pdn_cntrl_reg0 = 0 } }

inner_map_pl011_uart_lem_example :
    (after : GpioInner) × (inner_map_pl011_uart concrete pins ≡ (ok tt, after))
    × (concrete.read fsel14 after.registers.gpfsel1 ≡ 4)
    × (concrete.read fsel15 after.registers.gpfsel1 ≡ 4)
    × (after.registers.gpfsel1 / 2 ^ 0 % 2 ^ 12 ≡ 0x249)
    × (after.registers.gpfsel1 / 2 ^ 18 % 2 ^ 14 ≡ 0x249)
    × (concrete.read gpio_pup_pdn_cntrl14 after.registers.gpio_pup_pdn_cntrl_reg0 ≡ pull_up)
    × (concrete.read gpio_pup_pdn_cntrl15 after.registers.gpio_pup_pdn_cntrl_reg0 ≡ pull_up)
    × (after.registers.gpio_pup_pdn_cntrl_reg0 % 2 ^ 28 ≡ 0)
inner_map_pl011_uart_lem_example = inner_map_pl011_uart_lem concrete pins

-- Drivers that note what is called: `10 n` for the initialization, `10 n + 1` for the callback and
-- the interrupt's number for its registration.
abbrev driver : ℕ → DeviceDriverDescriptor (List ℕ)
driver n = record {
  device_driver = record {
    compatible = "a driver";
    init = λ w. (ok tt, w ++ (10 * n) ∷ []);
    register_and_enable_irq_handler = λ irq w. (ok tt, w ++ irq ∷ []);
  };
  post_init_callback = some λ w. (ok tt, w ++ (10 * n + 1) ∷ []);
  irq_number = some (150 + n);
}

abbrev no_drivers : Machine (DriverManagerInner (List ℕ))
no_drivers = record { kernel_state = 0; daif = masked_daif; shared = new }

init_drivers_and_irqs-order_example :
    (after : Machine (DriverManagerInner (List ℕ))) × (register_drivers
        (driver 1 ∷ driver 2 ∷ [])
        no_drivers
      ≡ (ok tt, after))
    × (init_drivers_and_irqs after.shared [] ≡ (ok tt, 10 ∷ 11 ∷ 20 ∷ 21 ∷ 151 ∷ 152 ∷ []))
unfolding in_turn after_call init_calls irq_calls
init_drivers_and_irqs-order_example =
    init_drivers_and_irqs-order (driver 1 ∷ driver 2 ∷ []) no_drivers [] (refl, refl) refl
      (omega arith)
