-- ===== src/Uart/Echo.antt =====
-- The interrupt handler of src/bsp/drivers/bcm2xxx_pl011.rs sends back what was received.
use mathlib.Core.List.{append-nil, append_assoc}
use native.Mathlib.Nat.{le_refl}
use rp4os.Base.{
  ℕ, zero, suc, ◌+◌, ◌-◌, ◌/◌, ◌%◌, ◌^◌, ◌≤◌, ◌<◌, ◌≡◌, refl, ap, sym, ◌∙◌, Bool, true, false, ◌==◌,
  if◌then◌else◌, none, some, List, [], ◌∷◌, ◌++◌, map, length, arith, u64_mod, wrapping_add,
}
use rp4os.Base.Outcome.{ok}
use rp4os.Registers.{Tock, Field}
use rp4os.Uart.{
  Pl011UartInner, Line, Registers, txff, rxfe, fr, poll, flag_of, flag_empty, spin_while,
  write_char, read_char, echo, handle, rx_pending, send, non_blocking, icr_all,
}

-- The line after `n` polls.
abbrev pub waited : ℕ → Line → Line
waited n line = record line { full_for = line.full_for - n; busy_for = line.busy_for - n }

unfoldable pub is_full : ℕ → Bool
is_full zero = false
is_full (suc n) = true

is_empty : List ℕ → Bool
is_empty [] = true
is_empty (c ∷ cs) = false

same_line :
    (line : Line) {a b c d : ℕ}
    → a ≡ c
    → b ≡ d
    → ◌≡◌ {A = Line}
        (record line { full_for = a; busy_for = b })
        (record line { full_for = c; busy_for = d })
same_line line p q = rw (p, q) refl

-- A character left the receive queue.
unfoldable pub taken : List ℕ → Pl011UartInner → Pl011UartInner
taken cs u = record u { line = record u.line { rx = cs }; chars_read = wrapping_add u.chars_read 1 }

-- A character is sent after the wait.
unfoldable pub written : ℕ → Pl011UartInner → Pl011UartInner
written c u = record u {
  line = send c (waited u.line.full_for u.line);
  chars_written = wrapping_add u.chars_written 1;
}

-- The waiting characters are taken and sent one after another.
echoed : List ℕ → Pl011UartInner → Pl011UartInner
echoed [] u = u
echoed (c ∷ cs) u = echoed cs (written (c % 2 ^ 8) (taken cs u))

abbrev pub low_byte : ℕ → ℕ
low_byte c = c % 2 ^ 8

echoed-counts :
    (cs : List ℕ) (u : Pl011UartInner)
    → u.line.rx ≡ cs
    → u.chars_read < u64_mod
    → u.chars_written < u64_mod
    → ((echoed cs u).line.rx ≡ [])
      × ((echoed cs u).line.tx ≡ u.line.tx ++ map low_byte cs)
      × ((echoed cs u).chars_read ≡ (u.chars_read + length cs) % u64_mod)
      × ((echoed cs u).chars_written ≡ (u.chars_written + length cs) % u64_mod)
      × ((echoed cs u).registers ≡ u.registers)
unfolding echoed taken written
echoed-counts [] u e r w = (e, sym (append-nil u.line.tx), omega arith, omega arith, refl)
echoed-counts (c ∷ cs) u e r w =
    let (rx, tx, reads, writes, regs) =
      echoed-counts cs (written (c % 2 ^ 8) (taken cs u)) refl (omega arith) (omega arith) in
    (
      rx,
      tx ∙ append_assoc u.line.tx (c % 2 ^ 8 ∷ []) (map low_byte cs),
      omega arith,
      omega arith,
      regs,
    )

module _ (tock : Tock) where
  open tock use {val, write, matches_all, matches_all-val, read_lem, write-val}

  matches-txff : (line : Line) → matches_all (val txff 1) (fr line) ≡ is_full line.full_for
  unfolding is_full
  matches-txff line =
      rw (matches_all-val txff 1 (fr line), read_lem txff (fr line))
        (by_flags line.busy_for line.rx line.full_for)
    where
      by_flags :
          (b : ℕ) (rx : List ℕ) (f : ℕ)
          → ((flag_of b 8 + flag_empty rx + flag_of f 32) / 2 ^ 5 % 2 ^ 1 == 1 % 2 ^ 1) ≡ is_full f
      by_flags zero [] zero = refl
      by_flags zero [] (suc f) = refl
      by_flags zero (c ∷ cs) zero = refl
      by_flags zero (c ∷ cs) (suc f) = refl
      by_flags (suc b) [] zero = refl
      by_flags (suc b) [] (suc f) = refl
      by_flags (suc b) (c ∷ cs) zero = refl
      by_flags (suc b) (c ∷ cs) (suc f) = refl

  matches-rxfe : (line : Line) → matches_all (val rxfe 1) (fr line) ≡ is_empty line.rx
  unfolding is_empty
  matches-rxfe line =
      rw (matches_all-val rxfe 1 (fr line), read_lem rxfe (fr line))
        (by_flags line.busy_for line.rx line.full_for)
    where
      by_flags :
          (b : ℕ) (rx : List ℕ) (f : ℕ)
          → ((flag_of b 8 + flag_empty rx + flag_of f 32) / 2 ^ 4 % 2 ^ 1 == 1 % 2 ^ 1)
            ≡ is_empty rx
      by_flags zero [] zero = refl
      by_flags zero [] (suc f) = refl
      by_flags zero (c ∷ cs) zero = refl
      by_flags zero (c ∷ cs) (suc f) = refl
      by_flags (suc b) [] zero = refl
      by_flags (suc b) [] (suc f) = refl
      by_flags (suc b) (c ∷ cs) zero = refl
      by_flags (suc b) (c ∷ cs) (suc f) = refl

  -- A flag that stays set for a number of polls is waited for in as many.
  module _ (flag : Field) (count : Line → ℕ)
      (shown : (line : Line) → matches_all (val flag 1) (fr line) ≡ is_full (count line))
      (falls : (line : Line) → count (poll line) ≡ count line - 1) where
    again :
        (n : ℕ) (line : Line)
        → count line ≡ suc n
        → waited (count (poll line)) (poll line) ≡ waited (suc n) line
    again n line e = same_line line (omega (arith, falls line)) (omega (arith, falls line))

    pub spin-flag :
        (fuel : ℕ) (line : Line)
        → count line < fuel
        → spin_while tock flag fuel line ≡ (ok tt, waited (count line) line)
    unfolding spin_while is_full
    spin-flag zero line h = absurd (omega arith)
    spin-flag (suc fuel) line h =
        rw (shown line) (by_count (count line) refl λ k. spin-flag fuel (poll line) k)
      where
        by_count :
            (n : ℕ)
            → count line ≡ n
            → (count (poll line) < fuel
                → spin_while tock flag fuel (poll line)
                  ≡ (ok tt, waited (count (poll line)) (poll line)))
            → (if is_full n then spin_while tock flag fuel (poll line) else (ok tt, line))
              ≡ (ok tt, waited n line)
        by_count zero e later = ap (λ r. (ok tt, r)) (same_line line (omega arith) (omega arith))
        by_count (suc n) e later =
            later (omega (arith, falls line)) ∙ ap (λ r. (ok tt, r)) (again n line e)

  pub read_char-empty :
      (fuel : ℕ) (u : Pl011UartInner)
      → u.line.rx ≡ []
      → read_char tock fuel non_blocking u ≡ (ok none, u)
  unfolding read_char is_empty
  read_char-empty fuel u e = rw (matches-rxfe u.line, e) refl

  pub read_char-waiting :
      (fuel c : ℕ) (cs : List ℕ) (u : Pl011UartInner)
      → u.line.rx ≡ c ∷ cs
      → read_char tock fuel non_blocking u ≡ (ok (some (c % 2 ^ 8)), taken cs u)
  unfolding read_char is_empty taken
  read_char-waiting fuel c cs u e = rw (matches-rxfe u.line, e) refl

  pub write_char_lem :
      (fuel c : ℕ) (u : Pl011UartInner)
      → u.line.full_for < fuel
      → write_char tock fuel c u ≡ (ok tt, written c u)
  unfolding write_char written
  write_char_lem fuel c u h =
      rw (spin-flag txff (λ line. line.full_for) matches-txff (λ line. refl) fuel u.line h) refl

  echo_lem :
      (fuel turns : ℕ) (cs : List ℕ) (u : Pl011UartInner)
      → u.line.rx ≡ cs
      → length cs < turns
      → u.line.full_for ≤ u.line.delay
      → u.line.delay < fuel
      → echo tock fuel turns u ≡ (ok tt, echoed cs u)
  unfolding echo echoed written taken
  echo_lem fuel zero cs u e enough room spin = absurd (omega arith)
  echo_lem fuel (suc turns) [] u e enough room spin = rw (read_char-empty fuel u e) refl
  echo_lem fuel (suc turns) (c ∷ cs) u e enough room spin =
      rw
        (
          read_char-waiting fuel c cs u e,
          write_char_lem fuel (c % 2 ^ 8) (taken cs u) (omega arith),
        )
        (echo_lem fuel turns cs (written (c % 2 ^ 8) (taken cs u)) refl (omega arith) (le_refl _)
          spin)

  -- The interrupt handler, with a receive interrupt pending, polls enough for the transmit queue to
  -- have room after each character and turns enough for what is waiting: it succeeds and sends
  -- the low byte of every waiting character back in order, once each; none waits any more, both
  -- counts go up by their number (wrapping), and the value written to the interrupt clear register
  -- has no bit set.
  pub handle-echo :
      (fuel turns : ℕ) (u : Pl011UartInner)
      → rx_pending tock u.registers.mis ≡ true
      → length u.line.rx < turns
      → u.line.full_for ≤ u.line.delay
      → u.line.delay < fuel
      → u.chars_read < u64_mod
      → u.chars_written < u64_mod
      → (after : Pl011UartInner) × (handle tock fuel turns u ≡ (ok tt, after))
        × (after.line.tx ≡ u.line.tx ++ map low_byte u.line.rx)
        × (after.line.rx ≡ [])
        × (after.chars_read ≡ (u.chars_read + length u.line.rx) % u64_mod)
        × (after.chars_written ≡ (u.chars_written + length u.line.rx) % u64_mod)
        × (after.registers.icr ≡ 0)
  unfolding handle
  handle-echo fuel turns u pending enough room spin reads writes =
      let icr = write (val icr_all 0) in
      let start : Pl011UartInner = record u { registers = record u.registers { icr = icr } } in
      let (rx, tx, r, w, regs) = echoed-counts u.line.rx start refl reads writes in
      (
        echoed u.line.rx start,
        rw pending (echo_lem fuel turns u.line.rx start refl enough room spin),
        tx,
        rx,
        r,
        w,
        ap (λ (x : Registers). x.icr) regs ∙ write-val icr_all 0,
      )
