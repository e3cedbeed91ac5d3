-- ===== src/Gpio.antt =====
-- The GPIO driver of src/bsp/drivers/bcm2xxx_gpio.rs, its registers as 32-bit values.
pub mod Pins
use rp4os.Base.{ℕ}
use rp4os.Base.Outcome.{Outcome, ok}
use rp4os.Base.Exec.{Exec, get, put, ◌>>=◌, ◌>>◌}
use rp4os.Registers.{Field, field, Tock}
use rp4os.Sync.{Machine, lock}

abbrev pub fsel15 : Field
fsel15 = field 15 3

abbrev pub fsel14 : Field
fsel14 = field 12 3

abbrev pub alt_func0 : ℕ
alt_func0 = 0b100

abbrev pub gpio_pup_pdn_cntrl15 : Field
gpio_pup_pdn_cntrl15 = field 30 2

abbrev pub gpio_pup_pdn_cntrl14 : Field
gpio_pup_pdn_cntrl14 = field 28 2

abbrev pub pull_up : ℕ
pull_up = 0b01

-- The registers that the driver writes.
pub record RegisterBlock : Type 0 where
  pub gpfsel1 : ℕ
  pub gpio_pup_pdn_cntrl_reg0 : ℕ

pub record GpioInner : Type 0 where
  pub registers : RegisterBlock

module _ (tock : Tock) where
  open tock use {val, plus, write, modify}

  unfoldable pub disable_pud_14_15_bcm2711 : Exec GpioInner (Unit {0})
  disable_pud_14_15_bcm2711 gpio = (
    ok tt,
    record gpio {
      registers = record gpio.registers {
        gpio_pup_pdn_cntrl_reg0 =
            write (plus (val gpio_pup_pdn_cntrl15 pull_up) (val gpio_pup_pdn_cntrl14 pull_up));
      };
    },
  )

  unfoldable pub inner_map_pl011_uart : Exec GpioInner (Unit {0})
  unfolding disable_pud_14_15_bcm2711
  inner_map_pl011_uart = do
    gpio ← get
    put (record gpio {
      registers = record gpio.registers {
        gpfsel1 =
            modify 32 (plus (val fsel15 alt_func0) (val fsel14 alt_func0)) gpio.registers.gpfsel1;
      };
    })
    disable_pud_14_15_bcm2711

  -- `GPIO::map_pl011_uart`, under the lock.
  unfoldable pub map_pl011_uart : Exec (Machine GpioInner) (Unit {0})
  unfolding inner_map_pl011_uart
  map_pl011_uart = lock inner_map_pl011_uart
