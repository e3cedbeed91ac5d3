-- ===== src/Exception/Echo.antt =====
-- An interrupt of the UART from the vector of src/arch/aarch64/exception/vector.rs to the driver.
use rp4os.Base.{ℕ, ◌≤◌, ◌<◌, ◌≡◌, ap, ◌∙◌, true, [], ◌++◌, map, length, get_elem?, arith, u64_mod}
use rp4os.Base.Outcome.{Outcome, ok, panic}
use rp4os.Registers.{Tock}
use rp4os.Uart.{Pl011UartInner, rx_pending}
use rp4os.Uart.Echo.{handle-echo, low_byte}
use rp4os.Gic.Gicc.{pending_irq_number}
use rp4os.Gic.Handlers.{HandlerTable, handle_pending_irqs}
use rp4os.Gic.Handlers.Dispatch.{completed, handle-outcome}
use rp4os.Devices.{
  Peripherals, Core, IrqManager, null_irq_manager, irq_manager, pl011_uart_irq,
  handle_pending_irqs_of,
}
use rp4os.Devices.Running.{DriversRun, uart_handler}
use rp4os.Exception.{current_elx_irq, take_exception, elx_irq}

module _ (tock : Tock) where
  -- Before the drivers have run, an interrupt panics in the null manager.
  elx_irq-null :
      (m : Core)
      → irq_manager m ≡ null_irq_manager
      → take_exception tock current_elx_irq m ≡ (panic "No IRQ Manager registered yet", m)
  unfolding take_exception elx_irq handle_pending_irqs_of irq_manager
  elx_irq-null m e = ap (λ (r : IrqManager). handle_pending_irqs_of tock r m) e

  -- Once the board's drivers run, and as long as the handler table and the IRQ manager stay, the
  -- UART's interrupt taken by the core at its own exception level sends every received character
  -- back in order and empties the queue, with as many polls and turns as that needs, and signals
  -- its completion to the controller; nothing else changes but the UART.
  pub take_exception-echo :
      (fuel turns : ℕ) (before after now : Core)
      → DriversRun tock fuel turns before after
      → now.shared.handler_table ≡ after.shared.handler_table
      → irq_manager now ≡ irq_manager after
      → pending_irq_number tock now.shared.gicc ≡ pl011_uart_irq
      → rx_pending tock now.shared.devices.uart.registers.mis ≡ true
      → length now.shared.devices.uart.line.rx < turns
      → now.shared.devices.uart.line.full_for ≤ now.shared.devices.uart.line.delay
      → now.shared.devices.uart.line.delay < fuel
      → now.shared.devices.uart.chars_read < u64_mod
      → now.shared.devices.uart.chars_written < u64_mod
      → (u : Pl011UartInner) × (take_exception tock current_elx_irq now
          ≡ (ok tt, completed tock pl011_uart_irq (record now.shared.devices { uart = u }) now))
        × (u.line.tx
            ≡ now.shared.devices.uart.line.tx ++ map low_byte now.shared.devices.uart.line.rx)
        × (u.line.rx ≡ [])
  unfolding take_exception elx_irq handle_pending_irqs_of
  take_exception-echo fuel turns before after now run table manager pending rx enough room spin
        reads writes =
      let (u, echoed, tx, empty, reads', writes', icr) =
        handle-echo tock fuel turns now.shared.devices.uart rx enough room spin reads writes in
      let entry =
        ap (λ (t : HandlerTable Peripherals). get_elem? t pl011_uart_irq) table ∙ run.handler_is in
      let handled' : handle_pending_irqs tock now ≡ (
        ok tt,
        completed tock (pending_irq_number tock now.shared.gicc)
            (record now.shared.devices { uart = u }) now,
      ) =
        handle-outcome tock (ok tt) (record now.shared.devices { uart = u }) now
          (uart_handler tock fuel turns) (rw pending (ground arith)) (rw pending entry)
          (ap
            (λ (r : Outcome (Unit {0}) × Pl011UartInner).
              (r.0, record now.shared.devices { uart = r.1 }))
            echoed) in
      (
        u,
        ap (λ (r : IrqManager). handle_pending_irqs_of tock r now) (manager ∙ run.manager_is)
            ∙ handled'
            ∙ ap (λ (n : ℕ). (ok tt, completed tock n (record now.shared.devices { uart = u }) now))
                pending,
        tx,
        empty,
      )
