-- ===== src/Panic.antt =====
-- The panic handler of src/panic.rs.
pub mod Stopping
use rp4os.Base.{ℕ, zero, suc, Bool, true, Option, none, some, List, if◌then◌else◌}
use rp4os.Base.Outcome.{Outcome, ok, err, panic, unfinished}
use rp4os.Base.Exec.{Exec}
use rp4os.Registers.{Tock}
use rp4os.Sync.{Machine, local_irq_mask}
use rp4os.Gic.Handlers.{Gicv2}
use rp4os.Devices.{Peripherals, Core, print}

-- The statics, with PANIC_IN_PROGRESS.
pub record PanicState : Type 0 where
  pub devices : Gicv2 Peripherals
  pub panic_in_progress : Bool

-- Whether a call comes back.
pub data Progress : Type 0 where
  returns waits_forever : Progress

unfoldable pub panic_prevent_reenter : Machine PanicState → Progress × Machine PanicState
panic_prevent_reenter m =
    if m.shared.panic_in_progress
    then (waits_forever, m)
    else (returns, record m { shared = record m.shared { panic_in_progress = true } })

-- A call on the devices.
abbrev pub on_core : Exec Core (Unit {0}) → Exec (Machine PanicState) (Unit {0})
on_core f m =
    let r =
      f (record { kernel_state = m.kernel_state; daif = m.daif; shared = m.shared.devices }) in
    (
      r.0,
      record {
        kernel_state = r.1.kernel_state;
        daif = r.1.daif;
        shared = record m.shared { devices = r.1.shared };
      },
    )

-- The state in which the core waits forever, or none when the run does not reach it: the handler is
-- still printing or has started again too often.
abbrev pub Waiting : Type 0
Waiting = Option (Machine PanicState)

-- What `println` prints in the handler: the characters that it writes, and whether it panics after
-- them, for which formatting gives it the chance.
pub record Message : Type 0 where
  pub text : List ℕ
  pub panics : Bool

module _ (tock : Tock) (fuel turns : ℕ) where
  -- After the characters: a panic of `println` starts the handler again, and so does the `unwrap` of an
  -- error. Printing that goes on for ever does not come here.
  abbrev pub after_print :
      (Machine PanicState → Waiting) → Bool → Outcome (Unit {0}) → Machine PanicState → Waiting
  after_print again panics (ok u) m = if panics then again m else some m
  after_print again panics (err e) m = again m
  after_print again panics (panic e) m = again m
  after_print again panics unfinished m = none

  abbrev pub after_guard :
      (Machine PanicState → Waiting) → Message → Progress × Machine PanicState → Waiting
  after_guard again message (waits_forever, m) = some m
  after_guard again message (returns, m) =
      let r = on_core (print tock fuel turns message.text) m in
      after_print again message.panics r.0 r.1

  -- `panic`, with the message of each panic, for at most so many panics.
  pub panic_handler : (ℕ → Message) → ℕ → Machine PanicState → Waiting
  unfolding panic_prevent_reenter
  panic_handler message zero m = none
  panic_handler message (suc depth) m =
      after_guard (panic_handler message depth) (message depth)
        (panic_prevent_reenter (local_irq_mask m))
