-- ===== src/Uart/Text.antt =====
-- Strings and the receive queue in src/bsp/drivers/bcm2xxx_pl011.rs: `write_str`, which the print
-- macros use, and `clear_rx`, which empties the queue.
use mathlib.Core.List.{append-nil, append_assoc}
use native.Mathlib.Nat.{le_refl}
use rp4os.Base.{
  ℕ, zero, suc, ◌+◌, ◌%◌, ◌^◌, ◌≤◌, ◌<◌, ◌≡◌, refl, sym, ◌∙◌, ◌==◌, Bool-cases, inl, inr,
  if◌then◌else◌, none, some, List, [], ◌∷◌, ◌++◌, length, arith, u64_mod,
}
use rp4os.Base.Outcome.{ok, unfinished}
use rp4os.Base.Exec.{Exec, pure, ◌>>=◌, ◌>>◌}
use rp4os.Registers.{Tock}
use rp4os.Sync.{Machine, lock}
use rp4os.Sync.Locks.{lock-ok}
use rp4os.Uart.{Pl011UartInner, write_char, read_char, non_blocking}
use rp4os.Uart.Echo.{written, taken, read_char-empty, read_char-waiting, write_char_lem}

abbrev pub newline : ℕ
newline = 10

abbrev pub carriage_return : ℕ
carriage_return = 13

module _ (tock : Tock) where
  -- `fmt::Write::write_str`, a string as its characters.
  unfoldable pub write_str : ℕ → List ℕ → Exec Pl011UartInner (Unit {0})
  write_str fuel [] = pure tt
  write_str fuel (c ∷ s) =
      (if c == newline then write_char tock fuel carriage_return else pure tt)
      >> (write_char tock fuel c >> write_str fuel s)

  -- `while read_char(NonBlocking).is_some() {}`, each call under the lock, for at most so many turns.
  pub clear_rx : ℕ → ℕ → Exec (Machine Pl011UartInner) (Unit {0})
  clear_rx fuel zero m = (unfinished, m)
  clear_rx fuel (suc turns) m =
      (lock (read_char tock fuel non_blocking) >>= λ c. elim c [
        | none ↦ pure tt
        | some c ↦ clear_rx fuel turns
      ])
        m

-- Each line end with a carriage return before it.
abbrev pub crlf : List ℕ → List ℕ
crlf [] = []
crlf (c ∷ s) = if c == newline then carriage_return ∷ c ∷ crlf s else c ∷ crlf s

-- The characters are sent one after another.
sent : List ℕ → Pl011UartInner → Pl011UartInner
sent [] u = u
sent (c ∷ cs) u = sent cs (written c u)

sent-counts :
    (cs : List ℕ) (u : Pl011UartInner)
    → u.chars_written < u64_mod
    → ((sent cs u).line.tx ≡ u.line.tx ++ cs)
      × ((sent cs u).chars_written ≡ (u.chars_written + length cs) % u64_mod)
      × ((sent cs u).line.rx ≡ u.line.rx)
      × ((sent cs u).registers ≡ u.registers)
unfolding sent written
sent-counts [] u w = (sym (append-nil u.line.tx), omega arith, refl, refl)
sent-counts (c ∷ cs) u w =
    let (tx, count, rx, regs) = sent-counts cs (written c u) (omega arith) in
    (tx ∙ append_assoc u.line.tx (c ∷ []) cs, omega arith, rx, regs)

module _ (tock : Tock) (fuel : ℕ) where
  write_str-sent :
      (s : List ℕ) (u : Pl011UartInner)
      → u.line.full_for ≤ u.line.delay
      → u.line.delay < fuel
      → write_str tock fuel s u ≡ (ok tt, sent (crlf s) u)
  unfolding write_str sent written
  write_str-sent [] u room spin = refl
  write_str-sent (c ∷ s) u room spin = elim (Bool-cases (c == newline)) [
    | inl e ↦
        let first : Pl011UartInner = written carriage_return u in
        rw
          (
            e,
            write_char_lem tock fuel carriage_return u (omega arith),
            write_char_lem tock fuel c first spin,
          )
          (write_str-sent s (written c first) (le_refl _) spin)
    | inr e ↦
        rw (e, write_char_lem tock fuel c u (omega arith))
          (write_str-sent s (written c u) (le_refl _) spin)
  ]

  -- With enough polls for the transmit queue to have room after each character, `write_str` succeeds
  -- and sends the characters of the string in order, each line end with a carriage return before
  -- it; the count of characters written goes up by all that are sent (wrapping), and what waits
  -- to be read stays.
  pub write_str_lem :
      (s : List ℕ) (u : Pl011UartInner)
      → u.line.full_for ≤ u.line.delay
      → u.line.delay < fuel
      → u.chars_written < u64_mod
      → (after : Pl011UartInner) × (write_str tock fuel s u ≡ (ok tt, after))
        × (after.line.tx ≡ u.line.tx ++ crlf s)
        × (after.chars_written ≡ (u.chars_written + length (crlf s)) % u64_mod)
        × (after.line.rx ≡ u.line.rx)
        × (after.registers ≡ u.registers)
  write_str_lem s u room spin w =
      let (tx, count, rx, regs) = sent-counts (crlf s) u w in
      (sent (crlf s) u, write_str-sent s u room spin, tx, count, rx, regs)

  abbrev dropped : List ℕ → Pl011UartInner → Pl011UartInner
  dropped [] u = u
  dropped (c ∷ cs) u = dropped cs (taken cs u)

  dropped-counts :
      (cs : List ℕ) (u : Pl011UartInner)
      → u.line.rx ≡ cs
      → u.chars_read < u64_mod
      → ((dropped cs u).line.rx ≡ [])
        × ((dropped cs u).chars_read ≡ (u.chars_read + length cs) % u64_mod)
        × ((dropped cs u).line.tx ≡ u.line.tx)
  unfolding taken
  dropped-counts [] u e r = (e, omega arith, refl)
  dropped-counts (c ∷ cs) u e r =
      let (rx, count, tx) = dropped-counts cs (taken cs u) refl (omega arith) in
      (rx, omega arith, tx)

  abbrev with_uart : Machine Pl011UartInner → Pl011UartInner → Machine Pl011UartInner
  with_uart m u = record m { shared = u }

  clear_rx-dropped :
      (cs : List ℕ) (turns : ℕ) (m : Machine Pl011UartInner)
      → m.shared.line.rx ≡ cs
      → length cs < turns
      → clear_rx tock fuel turns m ≡ (ok tt, with_uart m (dropped cs m.shared))
  unfolding clear_rx taken
  clear_rx-dropped cs zero m e enough = absurd (omega arith)
  clear_rx-dropped [] (suc turns) m e enough =
      rw
        (lock-ok (read_char tock fuel non_blocking) none m.shared m
          (read_char-empty tock fuel m.shared e))
        refl
  clear_rx-dropped (c ∷ cs) (suc turns) m e enough =
      rw
        (lock-ok (read_char tock fuel non_blocking) (some (c % 2 ^ 8)) (taken cs m.shared) m
          (read_char-waiting tock fuel c cs m.shared e))
        (clear_rx-dropped cs turns (with_uart m (taken cs m.shared)) refl (omega arith))

  -- With more turns than characters waiting, `clear_rx` comes to an end: it has read every one of
  -- them, nothing waits any more, the count of characters read goes up by their number
  -- (wrapping), nothing is sent, and the interrupt mask is as before.
  pub clear_rx_lem :
      (turns : ℕ) (m : Machine Pl011UartInner)
      → length m.shared.line.rx < turns
      → m.shared.chars_read < u64_mod
      → (after : Pl011UartInner) × (clear_rx tock fuel turns m
          ≡ (ok tt, record m { shared = after }))
        × (after.line.rx ≡ [])
        × (after.chars_read ≡ (m.shared.chars_read + length m.shared.line.rx) % u64_mod)
        × (after.line.tx ≡ m.shared.line.tx)
  clear_rx_lem turns m enough r =
      let (rx, count, tx) = dropped-counts m.shared.line.rx m.shared refl r in
      (
        dropped m.shared.line.rx m.shared,
        clear_rx-dropped m.shared.line.rx turns m refl enough,
        rx,
        count,
        tx,
      )
