-- ===== src/Examples/Interrupts.antt =====
-- An interrupt controller with 256 interrupts and the UART's handler.
use rp4os.Base.{
  ℕ, ◌+◌, ◌%◌, ◌≤◌, ◌<◌, ◌≡◌, refl, ltb, ◌==◌, if◌then◌else◌, some, [], ◌∷◌, replicate, set, arith,
}
use rp4os.Base.Outcome.{ok, err}
use rp4os.Registers.Concrete.{concrete}
use rp4os.Sync.{Machine}
use rp4os.Gic.Gicd.{Gicd, enable, boot_core_init, ctlr_enable, num_irqs}
use rp4os.Gic.Gicd.Enabling.{enabled, enable_lem}
use rp4os.Gic.Gicd.Routing.{target, boot_core_init_lem}
use rp4os.Gic.Gicc.{pending_irq_number}
use rp4os.Gic.Handlers.{IrqHandlerDescriptor, Gicv2, empty_table, handle_pending_irqs}
use rp4os.Gic.Handlers.Dispatch.{
  with_table, register_all, handled, register_handler_lem, handle_pending_irqs-registered,
}
use rp4os.Examples.{masked_daif}

-- ITLinesNumber is 7, and the core is the first.
abbrev pub gicd : Gicd
gicd = record {
  shared_registers = record {
    ctlr = 0;
    typer = 7;
    isenabler = replicate 31 0;
    itargetsr = replicate 248 0;
  };
  banked_registers = record { isenabler = 0; itargetsr = replicate 8 1 };
}

abbrev distributor : Machine Gicd
distributor = record { kernel_state = 0; daif = masked_daif; shared = gicd }

-- The UART's interrupt on the board is 153.
enable_lem_example :
    ((enable 153 distributor).0 ≡ ok tt)
    × ((k : ℕ)
        → enabled (enable 153 distributor).1.shared k ≡ (if 153 == k then 1 else enabled gicd k))
    × ((enable 153 distributor).1.daif ≡ masked_daif)
    × ((enable 153 distributor).1.kernel_state ≡ 0)
enable_lem_example = enable_lem 153 distributor (omega arith) refl

boot_core_init_lem_example :
    ((boot_core_init concrete distributor).0 ≡ ok tt)
    × (concrete.read ctlr_enable
          (boot_core_init concrete distributor).1.shared.shared_registers.ctlr
        ≡ 1)
    × ((k : ℕ)
        → 32 ≤ k
        → k < 1024
        → target (boot_core_init concrete distributor).1.shared.shared_registers k ≡ (
            if ltb (k + 4) (num_irqs concrete gicd.shared_registers)
            then 1 % 256
            else target gicd.shared_registers k))
unfolding num_irqs
boot_core_init_lem_example = boot_core_init_lem concrete 1 distributor refl refl (omega arith) refl

-- The handler counts the characters that arrive, and fails from the tenth on.
abbrev uart_descriptor : IrqHandlerDescriptor ℕ
uart_descriptor = record {
  number = 153;
  name = "BCM PL011 UART";
  handler = λ n. if ltb n 10 then (ok tt, n + 1) else (err "RX FIFO full", n);
}

abbrev controller : Machine (Gicv2 ℕ)
controller = record {
  kernel_state = 0;
  daif = masked_daif;
  shared = record {
    gicd = gicd;
    gicc = record { ctlr = 1; pmr = 255; iar = 153; eoir = [] };
    handler_table = empty_table;
    devices = 3;
  };
}

abbrev with_uart : Machine (Gicv2 ℕ)
with_uart = with_table (set empty_table 153 (some uart_descriptor)) controller

one_registered : register_all (uart_descriptor ∷ []) controller ≡ (ok tt, with_uart)
unfolding register_all
one_registered = rw (register_handler_lem uart_descriptor controller (refl, refl)) refl

pending : pending_irq_number concrete with_uart.shared.gicc ≡ 153
unfolding pending_irq_number
pending = refl

handle_pending_irqs-registered_example :
    handle_pending_irqs concrete with_uart ≡ handled concrete (ok tt) 4 with_uart
handle_pending_irqs-registered_example =
    handle_pending_irqs-registered concrete (uart_descriptor ∷ []) controller with_uart with_uart 0
      uart_descriptor (refl, refl) one_registered refl (omega arith) refl pending
