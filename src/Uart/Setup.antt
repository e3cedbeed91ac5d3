-- ===== src/Uart/Setup.antt =====
-- `init` of src/bsp/drivers/bcm2xxx_pl011.rs: what the device is set up for.
use rp4os.Base.{
  ℕ, zero, suc, ◌+◌, ◌*◌, ◌/◌, ◌%◌, ◌^◌, ◌<◌, ◌≡◌, refl, ◌∙◌, Bool, true, false, ◌||◌, List, [],
  ◌∷◌, arith, ◌==◌,
}
use rp4os.Base.Bits.{bit_or-zero, zero-bit_or}
use rp4os.Base.Outcome.{ok}
use rp4os.Registers.{Tock}
use rp4os.Registers.Fields.{read-write-plus, read-write-val}
use rp4os.Uart.{
  Pl011UartInner, Registers, Line, busy, fr, flag_of, flag_empty, init, set_up, baud_divint,
  baud_divfrac, wlen, fen, rxe, txe, uarten, rxim, rtim, rxiflsel, icr_all,
}
use rp4os.Uart.Echo.{waited, is_full, spin-flag}

module _ (tock : Tock) where
  open tock use {
    val, read, write, write-val, write-plus, plus, matches_all, matches_all-val, read_lem,
  }

  matches-busy : (line : Line) → matches_all (val busy 1) (fr line) ≡ is_full line.busy_for
  unfolding is_full
  matches-busy line =
      rw (matches_all-val busy 1 (fr line), read_lem busy (fr line))
        (by_flags line.busy_for line.rx line.full_for)
    where
      by_flags :
          (b : ℕ) (rx : List ℕ) (f : ℕ)
          → ((flag_of b 8 + flag_empty rx + flag_of f 32) / 2 ^ 3 % 2 ^ 1 == 1 % 2 ^ 1) ≡ is_full b
      by_flags zero [] zero = refl
      by_flags zero [] (suc f) = refl
      by_flags zero (c ∷ cs) zero = refl
      by_flags zero (c ∷ cs) (suc f) = refl
      by_flags (suc b) [] zero = refl
      by_flags (suc b) [] (suc f) = refl
      by_flags (suc b) (c ∷ cs) zero = refl
      by_flags (suc b) (c ∷ cs) (suc f) = refl

  ruleset fields = (read-write-plus, read-write-val, bit_or-zero, zero-bit_or)

  -- What the device reads in the control registers: words of eight bits with the queues on, an
  -- interrupt at an eighth full and at a timeout, receiver, transmitter and device on.
  abbrev pub SetUp : Registers → Type 0
  SetUp r =
      (read wlen r.lcr_h ≡ 3)
      × (read fen r.lcr_h ≡ 1)
      × (read rxiflsel r.ifls ≡ 0)
      × (read rxim r.imsc ≡ 1)
      × (read rtim r.imsc ≡ 1)
      × (read uarten r.cr ≡ 1)
      × (read txe r.cr ≡ 1)
      × (read rxe r.cr ≡ 1)

  -- The rate for a clock of 48 MHz, from the divisor that the device works with, in sixty-fourths.
  abbrev pub baud_rate : Registers → ℕ
  baud_rate r =
      48_000_000
      * 64
      / (16 * (read baud_divint r.latched_ibrd * 64 + read baud_divfrac r.latched_fbrd))

  set_up-SetUp : (u : Pl011UartInner) → SetUp (set_up tock u).registers
  unfolding set_up
  set_up-SetUp u = simp fields (omega arith)

  set_up-baud_rate : (u : Pl011UartInner) → baud_rate (set_up tock u).registers ≡ 923076
  unfolding set_up
  set_up-baud_rate u =
      rw
        (
          read-write-val tock baud_divint baud_divint 3,
          read-write-val tock baud_divfrac baud_divfrac 16,
        )
        refl

  abbrev enable_all : ℕ
  enable_all = write (plus (plus (val uarten 1) (val txe 1)) (val rxe 1))

  enable_all_lem : enable_all ≡ 0x301
  enable_all_lem = simp (write-plus, write-val) refl

  or-false : (b : Bool) → (b || false) ≡ b
  or-false true = refl
  or-false false = refl

  -- An idle device is set up without harm.
  set_up-Unharmed :
      (u : Pl011UartInner)
      → u.line.busy_for ≡ 0
      → ((set_up tock u).line.cut_off ≡ u.line.cut_off)
        × ((set_up tock u).line.disturbed ≡ u.line.disturbed)
        × ((set_up tock u).line.busy_for ≡ 0)
        × ((set_up tock u).line.tx ≡ u.line.tx)
        × ((set_up tock u).line.rx ≡ u.line.rx)
        × ((set_up tock u).registers.icr ≡ 0)
  unfolding set_up
  set_up-Unharmed u sent = (
    rw (enable_all_lem, sent) (or-false (u.line.cut_off || false) ∙ or-false u.line.cut_off),
    or-false u.line.disturbed,
    sent,
    refl,
    refl,
    write-val icr_all 0,
  )

  abbrev flushed : Pl011UartInner → Pl011UartInner
  flushed u = record u { line = waited u.line.busy_for u.line }

  init-flushed :
      (fuel : ℕ) (u : Pl011UartInner)
      → u.line.busy_for < fuel
      → init tock fuel u ≡ (ok tt, set_up tock (flushed u))
  unfolding init
  init-flushed fuel u h =
      rw (spin-flag tock busy (λ line. line.busy_for) matches-busy (λ line. refl) fuel u.line h)
        refl

  -- Whatever state the device is in, with enough polls for it to become idle, `init` succeeds. It
  -- never turns the device off while it is sending, so that nothing queued is lost, and never
  -- writes LCR_H while the device is on. The device is then idle, and works at 923076 baud (within
  -- 0.2 % of 921600) by the divisor that the last LCR_H write latched; it is set up for eight
  -- bits, queues and receive interrupts, and on. What was sent and what waits stays, and the
  -- value written to the interrupt clear register has no bit set.
  pub init_lem :
      (fuel : ℕ) (u : Pl011UartInner)
      → u.line.busy_for < fuel
      → (after : Pl011UartInner) × (init tock fuel u ≡ (ok tt, after))
        × (after.line.cut_off ≡ u.line.cut_off)
        × (after.line.disturbed ≡ u.line.disturbed)
        × (after.line.busy_for ≡ 0)
        × (after.line.tx ≡ u.line.tx)
        × (after.line.rx ≡ u.line.rx)
        × SetUp after.registers
        × (baud_rate after.registers ≡ 923076)
        × (after.registers.icr ≡ 0)
  init_lem fuel u h =
      let (cut_off, disturbed, idle, tx, rx, icr) = set_up-Unharmed (flushed u) (omega arith) in
      (
        set_up tock (flushed u),
        init-flushed fuel u h,
        cut_off,
        disturbed,
        idle,
        tx,
        rx,
        set_up-SetUp (flushed u),
        set_up-baud_rate (flushed u),
        icr,
      )
