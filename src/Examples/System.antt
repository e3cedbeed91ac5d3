-- ===== src/Examples/System.antt =====
-- The system registers at the start of the kernel, and a panic.
use rp4os.Base.{ℕ, ◌++◌, ◌≡◌, refl, false, true, some, [], ◌∷◌, arith}
use rp4os.Registers.Concrete.{concrete}
use rp4os.Registers.{field}
use rp4os.Sync.{Machine}
use rp4os.Mmu.Enable.{
  Aarch64, SystemRegisters, setting, enabled, failed, already_enabled, is_enabled,
  enable_mmu_and_caching,
}
use rp4os.Mmu.Enable.Enabling.{Translating, in_order, enable_mmu_and_caching_lem}
use rp4os.Panic.{PanicState, Message, panic_handler}
use rp4os.Panic.Stopping.{Stopped, tx_of, panic_handler-Stopped}
use rp4os.Examples.Boards.{board, peripherals}
use rp4os.Devices.{pl011_uart}

abbrev pub cpu : Aarch64
cpu = record {
  attr1_normal_outer_write_back = setting 12 4 0b1111;
  attr1_normal_inner_write_back = setting 8 4 0b1111;
  attr0_device_early_write_ack = setting 0 8 0b0000_0100;
  tbi0_used = setting 37 1 0;
  ips_bits_40 = setting 32 3 0b010;
  tg0_kib_64 = setting 14 2 0b01;
  sh0_inner = setting 12 2 0b11;
  orgn0_write_back = setting 10 2 0b01;
  irgn0_write_back = setting 8 2 0b01;
  epd0_enable_ttbr0_walks = setting 7 1 0;
  a1_ttbr0 = setting 22 1 0;
  epd1_disable_ttbr1_walks = setting 23 1 1;
  t0sz = field 0 6;
  tgran64_supported = setting 24 4 0;
  m_enable = setting 0 1 1;
  c_cacheable = setting 2 1 1;
  i_cacheable = setting 12 1 1;
  set_baddr = λ addr old. addr;
  baddr = λ x. x;
  outer_is = refl;
  inner_is = refl;
  device_is = refl;
  tbi0_is = refl;
  ips_is = refl;
  tg0_is = refl;
  sh0_is = refl;
  orgn0_is = refl;
  irgn0_is = refl;
  epd0_is = refl;
  a1_is = refl;
  epd1_is = refl;
  t0sz_is = refl;
  tgran64_is = refl;
  m_is = refl;
  c_is = refl;
  i_is = refl;
  baddr-set = λ addr old aligned fits. refl;
}

-- The reserved bits of SCTLR_EL1 are set, the MMU is off.
abbrev pub reset : SystemRegisters
reset = record {
  mair_el1 = 0;
  ttbr0_el1 = 0;
  tcr_el1 = 0;
  sctlr_el1 = 0x30D0_0800;
  vbar_el1 = 0;
  id_aa64mmfr0_el1 = 0x1124;
  steps = [];
}

pub mmu_off : is_enabled concrete cpu reset ≡ false
unfolding is_enabled
mmu_off = refl

enable_mmu_and_caching_lem_example :
    (after : SystemRegisters) × (enable_mmu_and_caching concrete cpu 0xA_0000 reset
      ≡ (enabled, after))
    × Translating concrete cpu 0xA_0000 after
    × (after.steps ≡ reset.steps ++ in_order concrete cpu after)
    × (after.vbar_el1 ≡ reset.vbar_el1)
    × ((other_addr : ℕ)
        → enable_mmu_and_caching concrete cpu other_addr after ≡ (failed already_enabled, after))
enable_mmu_and_caching_lem_example =
    enable_mmu_and_caching_lem concrete cpu 0xA_0000 reset mmu_off refl refl (omega arith)

-- The first panic, with the UART as the console: it prints a line, and printing then panics.
abbrev panicking : Machine PanicState
panicking = record {
  kernel_state = 1;
  daif = record { d = false; a = false; i = false; f = false };
  shared = record {
    devices = record board.shared.devices {
      devices = record peripherals { cur_console = pl011_uart };
    };
    panic_in_progress = false;
  };
}

abbrev half_message : ℕ → Message
half_message depth = record { text = 80 ∷ 10 ∷ []; panics = true }

panic_handler-Stopped_example :
    (last : Machine PanicState) × (panic_handler concrete 8 8 half_message 2 panicking ≡ some last)
    × Stopped last
    × (tx_of last ≡ 80 ∷ 13 ∷ 10 ∷ [])
unfolding rp4os.Devices.console
panic_handler-Stopped_example =
    panic_handler-Stopped concrete 8 8 half_message 0 panicking
      (record { now = omega arith; after_each = omega arith; count_fits = omega arith })
