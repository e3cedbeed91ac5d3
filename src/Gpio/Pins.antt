-- ===== src/Gpio/Pins.antt =====
-- What the GPIO driver of src/bsp/drivers/bcm2xxx_gpio.rs does to the pins.
use rp4os.Base.{ℕ, ◌-◌, ◌/◌, ◌%◌, ◌^◌, ◌≡◌, refl, ◌∙◌, bit_and, bit_or}
use rp4os.Base.Bits.{bit_and-low, bit_and-zero, bit_or-zero, zero-bit_or}
use native.Mathlib.Nat.{mod-mod}
use rp4os.Base.Bits.Masks.{masked_part}
use rp4os.Base.Outcome.{ok}
use rp4os.Registers.{Tock}
use rp4os.Gpio.{
  GpioInner, fsel14, fsel15, alt_func0, gpio_pup_pdn_cntrl14, gpio_pup_pdn_cntrl15, pull_up,
  inner_map_pl011_uart,
}

module _ (tock : Tock) where
  open tock use {
    val, plus, write, read, modify, mask, mask-val, mask-plus, write-val, write-plus, modify_lem,
    read_lem,
  }

  select_uart : ℕ → ℕ
  select_uart x = modify 32 (plus (val fsel15 alt_func0) (val fsel14 alt_func0)) x

  select_uart_lem : (x : ℕ) → select_uart x ≡ bit_or (bit_and x 0xFFFC_0FFF) 0x2_4000
  unfolding select_uart
  select_uart_lem x =
      rw
        (
          modify_lem 32 (plus (val fsel15 alt_func0) (val fsel14 alt_func0)) x,
          mask-plus (val fsel15 alt_func0) (val fsel14 alt_func0),
          mask-val fsel15 alt_func0,
          mask-val fsel14 alt_func0,
          write-plus (val fsel15 alt_func0) (val fsel14 alt_func0),
          write-val fsel15 alt_func0,
          write-val fsel14 alt_func0,
        )
        refl

  part :
      (k n x : ℕ)
      → select_uart x / 2 ^ k % 2 ^ n
        ≡ bit_or
            (bit_and (x / 2 ^ k % 2 ^ n) (0xFFFC_0FFF / 2 ^ k % 2 ^ n))
            (0x2_4000 / 2 ^ k % 2 ^ n)
  part k n x = rw (select_uart_lem x) (masked_part k n x 0xFFFC_0FFF 0x2_4000)

  pulls : ℕ
  pulls = write (plus (val gpio_pup_pdn_cntrl15 pull_up) (val gpio_pup_pdn_cntrl14 pull_up))

  pulls_lem : pulls ≡ 0x5000_0000
  unfolding pulls
  pulls_lem =
      rw
        (
          write-plus (val gpio_pup_pdn_cntrl15 pull_up) (val gpio_pup_pdn_cntrl14 pull_up),
          write-val gpio_pup_pdn_cntrl15 pull_up,
          write-val gpio_pup_pdn_cntrl14 pull_up,
        )
        refl

  kept :
      (k n x : ℕ)
      → 0xFFFC_0FFF / 2 ^ k % 2 ^ n ≡ 2 ^ n - 1
      → 0x2_4000 / 2 ^ k % 2 ^ n ≡ 0
      → select_uart x / 2 ^ k % 2 ^ n ≡ x / 2 ^ k % 2 ^ n
  kept k n x clear set =
      rw (part k n x, clear, set, bit_or-zero, bit_and-low n (x / 2 ^ k % 2 ^ n)) (mod-mod _ _)

  chosen :
      (k n x v : ℕ)
      → 0xFFFC_0FFF / 2 ^ k % 2 ^ n ≡ 0
      → 0x2_4000 / 2 ^ k % 2 ^ n ≡ v
      → select_uart x / 2 ^ k % 2 ^ n ≡ v
  chosen k n x v clear set = rw (part k n x, clear, set, bit_and-zero, zero-bit_or) refl

  -- The pins 14 and 15 are handed to the UART and every other pin of the function select register
  -- keeps its function. The pull register is written whole: the two pins get their pull-up, although
  -- the function is called `disable_pud`, and all other pins of the register get no resistor.
  pub inner_map_pl011_uart_lem :
      (gpio : GpioInner)
      → (after : GpioInner) × (inner_map_pl011_uart tock gpio ≡ (ok tt, after))
        × (read fsel14 after.registers.gpfsel1 ≡ alt_func0)
        × (read fsel15 after.registers.gpfsel1 ≡ alt_func0)
        × (after.registers.gpfsel1 / 2 ^ 0 % 2 ^ 12 ≡ gpio.registers.gpfsel1 / 2 ^ 0 % 2 ^ 12)
        × (after.registers.gpfsel1 / 2 ^ 18 % 2 ^ 14 ≡ gpio.registers.gpfsel1 / 2 ^ 18 % 2 ^ 14)
        × (read gpio_pup_pdn_cntrl14 after.registers.gpio_pup_pdn_cntrl_reg0 ≡ pull_up)
        × (read gpio_pup_pdn_cntrl15 after.registers.gpio_pup_pdn_cntrl_reg0 ≡ pull_up)
        × (after.registers.gpio_pup_pdn_cntrl_reg0 % 2 ^ 28 ≡ 0)
  unfolding inner_map_pl011_uart select_uart pulls
  inner_map_pl011_uart_lem gpio =
      let x = gpio.registers.gpfsel1 in
      (
        record gpio {
          registers = record { gpfsel1 = select_uart x; gpio_pup_pdn_cntrl_reg0 = pulls };
        },
        refl,
        read_lem fsel14 (select_uart x) ∙ chosen 12 3 x alt_func0 refl refl,
        read_lem fsel15 (select_uart x) ∙ chosen 15 3 x alt_func0 refl refl,
        kept 0 12 x refl refl,
        kept 18 14 x refl refl,
        rw (read_lem gpio_pup_pdn_cntrl14 pulls, pulls_lem) refl,
        rw (read_lem gpio_pup_pdn_cntrl15 pulls, pulls_lem) refl,
        rw pulls_lem refl,
      )
