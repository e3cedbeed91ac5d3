-- ===== src/Examples/Boards.antt =====
-- The board at the start of the kernel: its four devices mapped, its drivers made and run, and an
-- interrupt of the UART taken.
use rp4os.Base.{◌≡◌, refl, sym, none, some, false, [], ◌∷◌, arith}
use rp4os.Base.Outcome.{ok, err}
use rp4os.Registers.Concrete.{concrete}
use rp4os.Sync.{Machine}
use rp4os.Mmu.Kernel.{KernelMmu, kernel_map_mmio}
use rp4os.Mmu.Region.{MmioDescriptor}
use rp4os.Gic.Gicd.{num_irqs}
use rp4os.Gic.Handlers.{boot_core_id, empty_table}
use rp4os.Drivers.{new, init_drivers_and_irqs}
use rp4os.Devices.{
  Core, Peripherals, null_console, null_irq_manager, gicv2, irq_manager, pl011_uart_irq,
}
use rp4os.Devices.Bringup.{Whole}
use rp4os.Devices.Running.{DriversRun}
use rp4os.Board.{
  Board, view, init, pl011_uart_start, pl011_uart_size, gpio_start, gpio_size, gicd_start,
  gicd_size, gicc_start, gicc_size,
}
use rp4os.Board.Init.{Maps, range}
use rp4os.Board.Start.{init-DriversRun}
use rp4os.Gic.Gicc.{pending_irq_number}
use rp4os.Gic.Handlers.Dispatch.{completed}
use rp4os.Uart.{Pl011UartInner}
use rp4os.Exception.{take_exception, current_elx_irq}
use rp4os.Exception.Echo.{take_exception-echo}
use rp4os.Examples.{at_start, masked_daif}
use rp4os.Examples.Interrupts.{gicd}

-- Two characters wait in the UART, which is still sending for three polls.
abbrev pub peripherals : Peripherals
peripherals = record {
  uart = record {
    registers = record {
      ibrd = 0;
      fbrd = 0;
      lcr_h = 0;
      latched_ibrd = 0;
      latched_fbrd = 0;
      cr = 0;
      ifls = 0;
      imsc = 0;
      mis = 16;
      icr = 0;
    };
    line = record {
      rx = 104 ∷ 105 ∷ [];
      tx = [];
      full_for = 0;
      busy_for = 3;
      delay = 2;
      cut_off = false;
      disturbed = false;
    };
    chars_written = 0;
    chars_read = 0;
  };
  gpio = record { registers = record { gpfsel1 = 0; gpio_pup_pdn_cntrl_reg0 = 0 } };
  uart_static = none;
  gpio_static = none;
  controller_static = none;
  cur_console = null_console;
  irq_manager = null_irq_manager;
}

abbrev pub board : Machine Board
board = record {
  kernel_state = 0;
  daif = masked_daif;
  shared = record {
    mmu = at_start.shared;
    drivers = new;
    devices = record {
      gicd = gicd;
      gicc = record { ctlr = 0; pmr = 0; iar = 153; eoir = [] };
      handler_table = empty_table;
      devices = peripherals;
    };
    init_done = false;
  };
}

-- The mappings after each device.
abbrev after : KernelMmu → Machine KernelMmu
after k = record { kernel_state = 0; daif = masked_daif; shared = k }

abbrev k1 : KernelMmu
k1 =
    (kernel_map_mmio concrete "BCM PL011 UART" (range pl011_uart_start pl011_uart_size)
      at_start).1.shared

abbrev k2 : KernelMmu
k2 = (kernel_map_mmio concrete "BCM GPIO" (range gpio_start gpio_size) (after k1)).1.shared

abbrev k3 : KernelMmu
k3 = (kernel_map_mmio concrete "GICv2 GICD" (range gicd_start gicd_size) (after k2)).1.shared

abbrev k4 : KernelMmu
k4 = (kernel_map_mmio concrete "GICV2 GICC" (range gicc_start gicc_size) (after k3)).1.shared

all_map :
    Maps concrete "BCM PL011 UART" pl011_uart_start pl011_uart_size board at_start.shared 0x10_1000
      k1
    × Maps concrete "BCM GPIO" gpio_start gpio_size board k1 0x10_0000 k2
    × Maps concrete "GICv2 GICD" gicd_start gicd_size board k2 0x11_1000 k3
    × Maps concrete "GICV2 GICC" gicc_start gicc_size board k3 0x11_2000 k4
unfolding rp4os.Mmu.Kernel.kernel_map_mmio rp4os.Mmu.Region.region_from_descriptor
    rp4os.Memory.Address.align_down_page rp4os.Memory.Align.align_down
    rp4os.Mmu.Region.page_from_address rp4os.Memory.Address.is_page_aligned
    rp4os.Memory.Align.is_aligned rp4os.Memory.Address.align_up_page rp4os.Memory.Align.align_up
    rp4os.Mmu.Kernel.kernel_try_add_device_record_mmio_user rp4os.Sync.write
    rp4os.Mmu.Records.try_add_user rp4os.Mmu.Kernel.map_new_device rp4os.Mmu.Region.num_pages
    rp4os.Mmu.Region.steps_between rp4os.Sync.lock rp4os.Mmu.PageAlloc.alloc
    rp4os.Memory.Address.address_add rp4os.Memory.Address.offset_into_page
    rp4os.Memory.Align.is_power_of_two rp4os.Mmu.Kernel.kernel_add_mapping_record
    rp4os.Mmu.Kernel.kernel_map_at_unchecked rp4os.Mmu.Records.add rp4os.Mmu.Records.add_user
    rp4os.Mmu.Records.new_entry rp4os.Mmu.Records.sort rp4os.Mmu.Region.checked_offset
    rp4os.Mmu.Region.page_from_usize rp4os.Mmu.Region.size rp4os.Mmu.Region.take_first_n_pages
    rp4os.Mmu.Table.map_at rp4os.Mmu.Table.region_pairs rp4os.Sync.exec_with_irq_masked
    rp4os.Sync.is_init rp4os.Sync.local_irq_enabled rp4os.Sync.local_irq_mask
    rp4os.Sync.local_irq_mask_and_save rp4os.Sync.local_irq_restore rp4os.Sync.state
    rp4os.Mmu.Table.map_pages rp4os.Mmu.Table.set_descriptor
    rp4os.Mmu.Table.lvl2_lvl3_index_from_page_addr rp4os.Mmu.Descriptor.is_valid
    rp4os.Mmu.Descriptor.new_zeroed rp4os.Mmu.Records.unwrap_all rp4os.Mmu.Records.size
all_map = (refl, refl, refl, refl)

abbrev pub whole : Whole concrete 1 board.shared.devices.gicd
unfolding num_irqs
whole = record { own = refl; enough = omega arith; all_targets = refl; all_enables = refl }

abbrev booted :
    (done : Machine Board) × (init concrete 8 8 boot_core_id board ≡ (ok tt, done))
    × (init concrete 8 8 boot_core_id done ≡ (err "Init already done", done))
    × (done.shared.mmu ≡ k4)
    × (done.shared.devices.devices.uart_static ≡ some 0x10_1000)
    × (done.shared.devices.devices.gpio_static ≡ some 0x10_0000)
    × (done.shared.devices.devices.controller_static ≡ some (0x11_1000, 0x11_2000))
    × ((running : Core) × (init_drivers_and_irqs done.shared.drivers (view (λ s. s.devices) done)
          ≡ (ok tt, running))
        × DriversRun concrete 8 8 (view (λ s. s.devices) done) running)
booted =
    init-DriversRun concrete 8 8 board (refl, refl) refl refl 0x10_1000 0x10_0000 0x11_1000
      0x11_2000 k1 k2 k3 k4 all_map.0 all_map.1 all_map.2 all_map.3 1 whole (omega arith)

init-DriversRun_example :
    (done : Machine Board) × (init concrete 8 8 boot_core_id board ≡ (ok tt, done))
    × (init concrete 8 8 boot_core_id done ≡ (err "Init already done", done))
    × (done.shared.mmu ≡ k4)
    × (done.shared.devices.devices.uart_static ≡ some 0x10_1000)
    × (done.shared.devices.devices.gpio_static ≡ some 0x10_0000)
    × (done.shared.devices.devices.controller_static ≡ some (0x11_1000, 0x11_2000))
    × ((running : Core) × (init_drivers_and_irqs done.shared.drivers (view (λ s. s.devices) done)
          ≡ (ok tt, running))
        × DriversRun concrete 8 8 (view (λ s. s.devices) done) running)
init-DriversRun_example =
    init-DriversRun concrete 8 8 board (refl, refl) refl refl 0x10_1000 0x10_0000 0x11_1000
      0x11_2000 k1 k2 k3 k4 all_map.0 all_map.1 all_map.2 all_map.3 1 whole (omega arith)

abbrev running : Core
running = booted.7.0

-- The UART's interrupt is pending, and two characters wait.
abbrev interrupted : Core
interrupted = record running {
  shared = record running.shared {
    gicc = record { ctlr = 1; pmr = 255; iar = 153; eoir = [] };
    devices = record peripherals { irq_manager = gicv2 };
  };
}

pending : pending_irq_number concrete interrupted.shared.gicc ≡ pl011_uart_irq
unfolding pending_irq_number
pending = refl

manager : irq_manager interrupted ≡ irq_manager running
unfolding irq_manager
manager = sym booted.7.2.manager_is

take_exception-echo_example :
    (u : Pl011UartInner) × (take_exception concrete current_elx_irq interrupted ≡ (
      ok tt,
      completed concrete pl011_uart_irq
          (record peripherals { irq_manager = gicv2; uart = u })
          interrupted,
    ))
    × (u.line.tx ≡ 104 ∷ 105 ∷ [])
    × (u.line.rx ≡ [])
take_exception-echo_example =
    take_exception-echo concrete 8 8 (view (λ s. s.devices) booted.0) running interrupted booted.7.2
      refl manager pending refl (omega arith) (omega arith) (omega arith) (omega arith)
      (omega arith)
