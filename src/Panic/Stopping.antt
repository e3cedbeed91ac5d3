-- ===== src/Panic/Stopping.antt =====
-- The panic handler of src/panic.rs comes to its end when its printing does.
use mathlib.Core.List.{append-nil}
use rp4os.Base.{
  ℕ, suc, ◌≤◌, ◌<◌, ◌≡◌, refl, sym, ap, ◌∙◌, ◌++◌, [], u64_mod, Bool, Bool-cases, inl, inr,
  if◌then◌else◌, true, false, some, List,
}
use rp4os.Base.Outcome.{Outcome, ok}
use rp4os.Registers.{Tock}
use rp4os.Sync.{Machine, Daif, local_irq_mask}
use rp4os.Sync.Locks.{lock-ok}
use rp4os.Uart.{Pl011UartInner}
use rp4os.Uart.Text.{write_str, write_str_lem, crlf}
use rp4os.Gic.Handlers.{Gicv2}
use rp4os.Devices.{
  Peripherals, Console, null_console, pl011_uart, Core, print, console, write_fmt_of, on_devices,
  on_uart,
}
use rp4os.Panic.{
  PanicState, Message, returns, waits_forever, panic_prevent_reenter, panic_handler, after_print,
  after_guard,
}

abbrev with_uart : Pl011UartInner → Gicv2 Peripherals → Gicv2 Peripherals
with_uart u g = record g { devices = record g.devices { uart = u } }

-- Waiting forever with IRQs masked and the flag set.
abbrev pub Stopped : Machine PanicState → Type 0
Stopped m = (m.daif.i ≡ true) × (m.shared.panic_in_progress ≡ true)

abbrev with_flag : Machine PanicState → Machine PanicState
with_flag m = record m { shared = record m.shared { panic_in_progress = true } }

abbrev pub core_of : Machine PanicState → Core
core_of m = record { kernel_state = m.kernel_state; daif = m.daif; shared = m.shared.devices }

reenter :
    (m : Machine PanicState)
    → m.shared.panic_in_progress ≡ true
    → panic_prevent_reenter m ≡ (waits_forever, m)
unfolding panic_prevent_reenter
reenter m going = ap (λ (b : Bool). if b then (waits_forever, m) else (returns, with_flag m)) going

enter :
    (m : Machine PanicState)
    → m.shared.panic_in_progress ≡ false
    → panic_prevent_reenter m ≡ (returns, with_flag m)
unfolding panic_prevent_reenter
enter m fresh = ap (λ (b : Bool). if b then (waits_forever, m) else (returns, with_flag m)) fresh

-- What a console sends of a text.
abbrev pub shown : Console → List ℕ → List ℕ
shown null_console text = []
shown pl011_uart text = crlf text

abbrev pub tx_of : Machine PanicState → List ℕ
tx_of m = m.shared.devices.devices.uart.line.tx

-- The UART always gets room for the next character within so many polls.
pub record GetsRoom (fuel : ℕ) (u : Pl011UartInner) : Type 0 where
  pub now : u.line.full_for ≤ u.line.delay
  pub after_each : u.line.delay < fuel
  pub count_fits : u.chars_written < u64_mod

module _ (tock : Tock) (fuel turns : ℕ) where
  -- Printing with room comes back, and leaves all but the UART as it was.
  print-shown :
      (text : List ℕ) (m : Core)
      → GetsRoom fuel m.shared.devices.uart
      → (after : Core) × (print tock fuel turns text m ≡ (ok tt, after))
        × (after.daif ≡ m.daif)
        × (after.shared.devices.uart.line.tx
            ≡ m.shared.devices.uart.line.tx ++ shown (console m) text)
  unfolding print write_fmt_of
  print-shown text m room = by_console (console m)
    where
      by_console :
          (c : Console)
          → (after : Core) × (write_fmt_of tock fuel turns c text m ≡ (ok tt, after))
            × (after.daif ≡ m.daif)
            × (after.shared.devices.uart.line.tx ≡ m.shared.devices.uart.line.tx ++ shown c text)
      by_console null_console = (m, refl, refl, sym (append-nil m.shared.devices.uart.line.tx))
      by_console pl011_uart =
          let (u, e, tx, count, rx, regs) =
            write_str_lem tock fuel text m.shared.devices.uart room.now room.after_each
              room.count_fits in
          (
            record m { shared = with_uart u m.shared },
            lock-ok (on_devices (on_uart (write_str tock fuel text))) tt (with_uart u m.shared) m
                (ap (λ (r : Outcome (Unit {0}) × Pl011UartInner). (r.0, with_uart r.1 m.shared)) e),
            refl,
            tx,
          )

  module _ (message : ℕ → Message) where
    -- A panic during a panic only stops.
    nested :
        (depth : ℕ) (m : Machine PanicState)
        → m.shared.panic_in_progress ≡ true
        → panic_handler tock fuel turns message (suc depth) m ≡ some (local_irq_mask m)
    unfolding panic_handler local_irq_mask
    nested depth m going =
        ap
          (after_guard tock fuel turns (panic_handler tock fuel turns message depth)
            (message depth))
          (reenter (local_irq_mask m) going)

    -- The first panic prints.
    first :
        (depth : ℕ) (m : Machine PanicState)
        → m.shared.panic_in_progress ≡ false
        → panic_handler tock fuel turns message (suc depth) m
          ≡ after_guard tock fuel turns
              (panic_handler tock fuel turns message depth)
              (message depth)
              (returns, with_flag (local_irq_mask m))
    unfolding panic_handler local_irq_mask
    first depth m fresh =
        ap
          (after_guard tock fuel turns (panic_handler tock fuel turns message depth)
            (message depth))
          (enter (local_irq_mask m) fresh)

    -- The state after the characters of the first panic.
    abbrev on_devices_of : Core → Machine PanicState
    on_devices_of after = record {
      kernel_state = after.kernel_state;
      daif = after.daif;
      shared = record { devices = after.shared; panic_in_progress = true };
    }

    by_message :
        (depth : ℕ) (panics : Bool) (m : Machine PanicState)
        → Stopped m
        → (last : Machine PanicState) × (after_print tock fuel turns
              (panic_handler tock fuel turns message (suc depth))
              panics
              (ok tt)
              m
            ≡ some last)
          × Stopped last
          × (tx_of last ≡ tx_of m)
    unfolding local_irq_mask
    by_message depth false m stopped = (m, refl, stopped, refl)
    by_message depth true m stopped =
        (local_irq_mask m, nested depth m stopped.1, (refl, stopped.1), refl)

    by_first :
        (depth : ℕ) (m : Machine PanicState)
        → GetsRoom fuel m.shared.devices.devices.uart
        → (last : Machine PanicState) × (after_guard tock fuel turns
              (panic_handler tock fuel turns message (suc depth))
              (message (suc depth))
              (returns, with_flag (local_irq_mask m))
            ≡ some last)
          × Stopped last
          × (tx_of last ≡ tx_of m ++ shown (console (core_of m)) (message (suc depth)).text)
    unfolding local_irq_mask console
    by_first depth m room =
        let (after, e, daif, tx) =
          print-shown (message (suc depth)).text (core_of (with_flag (local_irq_mask m))) room in
        let (last, ends, stopped, same) =
          by_message depth (message (suc depth)).panics (on_devices_of after)
            (ap (λ (d : Daif). d.i) daif, refl) in
        (
          last,
          ap
                (λ (r : Outcome (Unit {0}) × Core).
                  after_print tock fuel turns (panic_handler tock fuel turns message (suc depth))
                    (message (suc depth)).panics r.0 (on_devices_of r.1))
                e
              ∙ ends,
          stopped,
          same ∙ tx,
        )

    -- If the UART gets room for each character within the polls that the run has for it, the handler
    -- ends after at most two rounds, whether or not printing its message panics half way, and
    -- also when the panic happens during another one: it waits forever with IRQs masked. A first
    -- panic has then sent the characters of its message to the console, with a carriage return
    -- before each line end, and a panic during another one sends nothing.
    pub panic_handler-Stopped :
        (depth : ℕ) (m : Machine PanicState)
        → GetsRoom fuel m.shared.devices.devices.uart
        → (last : Machine PanicState) × (panic_handler tock fuel turns message (suc (suc depth)) m
            ≡ some last)
          × Stopped last
          × (tx_of last ≡ (
              if m.shared.panic_in_progress
              then tx_of m
              else tx_of m ++ shown (console (core_of m)) (message (suc depth)).text))
    unfolding local_irq_mask
    panic_handler-Stopped depth m room = elim (Bool-cases m.shared.panic_in_progress) [
      | inl going ↦ (local_irq_mask m, nested (suc depth) m going, (refl, going), rw going refl)
      | inr fresh ↦
          let (last, e, stopped, tx) = by_first depth m room in
          (
            last,
            first (suc depth) m fresh ∙ e,
            stopped,
            tx
                ∙ ap
                    (λ (b : Bool).
                      if b
                      then tx_of m
                      else tx_of m ++ shown (console (core_of m)) (message (suc depth)).text)
                    (sym fresh),
          )
    ]
