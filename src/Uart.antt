-- ===== src/Uart.antt =====
-- The serial port of src/bsp/drivers/bcm2xxx_pl011.rs. The device behind the registers is the
-- PL011: a receive queue, the characters sent, and for how many polls of the flag register it stays
-- full or busy; it is full again for `delay` polls after each character.
pub mod Echo
pub mod Setup
pub mod Text
use rp4os.Base.{
  ℕ, zero, suc, ◌+◌, ◌-◌, ◌%◌, ◌^◌, Bool, true, false, not, ◌==◌, ◌||◌, ◌&&◌, if◌then◌else◌, Option,
  none, some, List, [], ◌∷◌, ◌++◌, wrapping_add,
}
use rp4os.Base.Outcome.{Outcome, ok, err, panic, unfinished}
use rp4os.Base.Exec.{Exec, pure, get, put, ◌>>=◌, ◌>>◌}
use rp4os.Registers.{Field, field, Tock}

abbrev pub txff : Field
txff = field 5 1

abbrev pub rxfe : Field
rxfe = field 4 1

abbrev pub busy : Field
busy = field 3 1

abbrev pub baud_divint : Field
baud_divint = field 0 16

abbrev pub baud_divfrac : Field
baud_divfrac = field 0 6

abbrev pub wlen : Field
wlen = field 5 2

abbrev pub fen : Field
fen = field 4 1

abbrev pub rxe : Field
rxe = field 9 1

abbrev pub txe : Field
txe = field 8 1

abbrev pub uarten : Field
uarten = field 0 1

abbrev pub rxiflsel : Field
rxiflsel = field 3 5

abbrev pub rtim : Field
rtim = field 6 1

abbrev pub rxim : Field
rxim = field 4 1

abbrev pub rtmis : Field
rtmis = field 6 1

abbrev pub rxmis : Field
rxmis = field 4 1

abbrev pub icr_all : Field
icr_all = field 0 11

-- The registers that the driver writes, with the masked interrupt status, which it reads. The device
-- works with the divisor that stood in IBRD and FBRD when LCR_H was last written.
pub record Registers : Type 0 where
  pub ibrd : ℕ
  pub fbrd : ℕ
  pub lcr_h : ℕ
  pub latched_ibrd : ℕ
  pub latched_fbrd : ℕ
  pub cr : ℕ
  pub ifls : ℕ
  pub imsc : ℕ
  pub mis : ℕ
  pub icr : ℕ

-- The characters waiting, the first of them first, and those sent, in order. `cut_off` tells that the
-- device was turned off while it was sending, which loses characters, and `disturbed` that LCR_H
-- was written while it was on, which the device does not allow.
pub record Line : Type 0 where
  pub rx : List ℕ
  pub tx : List ℕ
  pub full_for : ℕ
  pub busy_for : ℕ
  pub delay : ℕ
  pub cut_off : Bool
  pub disturbed : Bool

pub record Pl011UartInner : Type 0 where
  pub registers : Registers
  pub line : Line
  pub chars_written : ℕ
  pub chars_read : ℕ

pub data BlockingMode : Type 0 where
  blocking non_blocking : BlockingMode

abbrev flag_empty : List ℕ → ℕ
flag_empty [] = 16
flag_empty (c ∷ cs) = 0

abbrev flag_of : ℕ → ℕ → ℕ
flag_of zero bit = 0
flag_of (suc n) bit = bit

-- The flag register: BUSY, RXFE and TXFF.
abbrev pub fr : Line → ℕ
fr line = flag_of line.busy_for 8 + flag_empty line.rx + flag_of line.full_for 32

-- Time passes while the flags are polled.
abbrev pub poll : Line → Line
poll line = record line { full_for = line.full_for - 1; busy_for = line.busy_for - 1 }

abbrev pub on_line : {A : Type 0} → Exec Line A → Exec Pl011UartInner A
on_line f u = let r = f u.line in (r.0, record u { line = r.1 })

-- `DR.set`.
abbrev pub send : ℕ → Line → Line
send c line = record line { tx = line.tx ++ (c ∷ []); full_for = line.delay }

-- `DR.get`.
abbrev pub received : List ℕ → ℕ
received [] = 0
received (c ∷ cs) = c

abbrev pub rest : List ℕ → List ℕ
rest [] = []
rest (c ∷ cs) = cs

-- Bit 0 of CR is UARTEN.
abbrev pub turned_on : ℕ → Bool
turned_on cr = not (cr % 2 == 0)

abbrev pub is_sending : ℕ → Bool
is_sending zero = false
is_sending (suc n) = true

-- A write to each register, with what the device does.
abbrev pub write_cr : ℕ → Pl011UartInner → Pl011UartInner
write_cr value u = record u {
  registers = record u.registers { cr = value };
  line = record u.line {
    cut_off = u.line.cut_off || (not (turned_on value) && is_sending u.line.busy_for);
  };
}

abbrev pub write_icr : ℕ → Pl011UartInner → Pl011UartInner
write_icr value u = record u { registers = record u.registers { icr = value } }

abbrev pub write_ibrd : ℕ → Pl011UartInner → Pl011UartInner
write_ibrd value u = record u { registers = record u.registers { ibrd = value } }

abbrev pub write_fbrd : ℕ → Pl011UartInner → Pl011UartInner
write_fbrd value u = record u { registers = record u.registers { fbrd = value } }

abbrev pub write_lcr_h : ℕ → Pl011UartInner → Pl011UartInner
write_lcr_h value u = record u {
  registers = record u.registers {
    lcr_h = value;
    latched_ibrd = u.registers.ibrd;
    latched_fbrd = u.registers.fbrd;
  };
  line = record u.line { disturbed = u.line.disturbed || turned_on u.registers.cr };
}

abbrev pub write_ifls : ℕ → Pl011UartInner → Pl011UartInner
write_ifls value u = record u { registers = record u.registers { ifls = value } }

abbrev pub write_imsc : ℕ → Pl011UartInner → Pl011UartInner
write_imsc value u = record u { registers = record u.registers { imsc = value } }

module _ (tock : Tock) where
  open tock use {val, plus, write, matches_all, read}

  -- `while FR.matches_all(flag) { nop() }`, for at most so many polls.
  pub spin_while : Field → ℕ → Exec Line (Unit {0})
  spin_while flag zero line = (unfinished, line)
  spin_while flag (suc fuel) line =
      let later = spin_while flag fuel (poll line) in
      if matches_all (val flag 1) (fr line) then later else (ok tt, line)

  unfoldable pub write_char : ℕ → ℕ → Exec Pl011UartInner (Unit {0})
  unfolding spin_while
  write_char fuel c = do
    on_line (spin_while txff fuel)
    u ← get
    put (record u { line = send c u.line; chars_written = wrapping_add u.chars_written 1 })

  unfoldable pub flush : ℕ → Exec Pl011UartInner (Unit {0})
  unfolding spin_while
  flush fuel = on_line (spin_while busy fuel)

  -- One character out of the data register.
  abbrev pub take_char : Exec Pl011UartInner (Option ℕ)
  take_char u = (
    ok (some (received u.line.rx % 2 ^ 8)),
    record u {
      line = record u.line { rx = rest u.line.rx };
      chars_read = wrapping_add u.chars_read 1;
    },
  )

  abbrev wait_mode : BlockingMode → ℕ → Exec Pl011UartInner (Option ℕ)
  wait_mode blocking fuel = on_line (spin_while rxfe fuel) >> take_char
  wait_mode non_blocking fuel = pure none

  unfoldable pub read_char : ℕ → BlockingMode → Exec Pl011UartInner (Option ℕ)
  unfolding spin_while
  read_char fuel blocking_mode u =
      if matches_all (val rxfe 1) (fr u.line) then wait_mode blocking_mode fuel u else take_char u

  -- The register writes of `init` after `flush`, one after another.
  unfoldable pub set_up : Pl011UartInner → Pl011UartInner
  set_up u =
      let off = write_cr 0 u in
      let cleared = write_icr (write (val icr_all 0)) off in
      let divided =
        write_fbrd (write (val baud_divfrac 16)) (write_ibrd (write (val baud_divint 3)) cleared) in
      let latched = write_lcr_h (write (plus (val wlen 0b11) (val fen 1))) divided in
      let levels = write_ifls (write (val rxiflsel 0b000)) latched in
      let unmasked = write_imsc (write (plus (val rxim 1) (val rtim 1))) levels in
      write_cr (write (plus (plus (val uarten 1) (val txe 1)) (val rxe 1))) unmasked

  unfoldable pub init : ℕ → Exec Pl011UartInner (Unit {0})
  unfolding flush set_up
  init fuel = do flush fuel; u ← get; put (set_up u)

  -- `while let Some(c) = read_char(NonBlocking) { write_char(c) }`, for at most so many turns.
  pub echo : ℕ → ℕ → Exec Pl011UartInner (Unit {0})
  unfolding read_char write_char
  echo fuel zero u = (unfinished, u)
  echo fuel (suc turns) u =
      (read_char fuel non_blocking >>= λ c. elim c [
        | none ↦ pure tt
        | some c ↦ write_char fuel c >> echo fuel turns
      ])
        u

  -- `matches_any(RXMIS::SET + RTMIS::SET)`
  abbrev pub rx_pending : ℕ → Bool
  rx_pending mis = tock.is_set rxmis mis || tock.is_set rtmis mis

  -- `IRQHandler::handle`, the closure under the lock.
  unfoldable pub handle : ℕ → ℕ → Exec Pl011UartInner (Unit {0})
  unfolding echo
  handle fuel turns = do
    u ← get
    put (write_icr (write (val icr_all 0)) u)
    if rx_pending u.registers.mis then echo fuel turns else pure tt
