-- ===== src/Sync.antt =====
-- The kernel's state manager (src/state.rs), the interrupt mask (src/exception,
-- src/arch/aarch64/exception/mod.rs) and the two pseudo-locks (src/synchronization.rs).
pub mod Locks
use rp4os.Base.{ℕ, Bool, true, false, ◌==◌, if◌then◌else◌}
use rp4os.Base.Outcome.{Outcome, ok, err, panic, unfinished}
use rp4os.Base.Exec.{Exec, lift, get, ◌>>=◌, ◌>>◌}
use rp4os.Base.Outcome

pub data State : Type 0 where
  init single_core_main multi_core_main : State

-- The interrupt mask bits; `true` is masked.
pub record Daif : Type 0 where
  pub d : Bool
  pub a : Bool
  pub i : Bool
  pub f : Bool

-- The executing core with the kernel's state byte, and what the statics hold.
pub record Machine (D : Type 0) : Type 0 where
  pub kernel_state : ℕ
  pub daif : Daif
  pub shared : D

abbrev is_init_state : State → Bool
is_init_state init = true
is_init_state _ = false

module _ {D : Type 0} where
  -- `StateManager::state`.
  unfoldable pub state : Machine D → Outcome State
  state m =
      if m.kernel_state == 0
      then ok init
      else if m.kernel_state == 1
      then ok single_core_main
      else if m.kernel_state == 2
      then ok multi_core_main
      else panic "Invalid KERNEL_STATE"

  unfoldable pub is_init : Machine D → Outcome Bool
  unfolding state
  is_init m = Outcome.◌>>=◌ (state m) λ s. ok (is_init_state s)

  -- `compare_exchange(INIT, SINGLE_CORE_MAIN)`.
  unfoldable pub transition_to_single_core_main : Exec (Machine D) (Unit {0})
  transition_to_single_core_main m =
      if m.kernel_state == 0
      then (ok tt, record m { kernel_state = 1 })
      else (panic "transition_to_single_core_main() called while state != Init", m)

  -- `Irq::is_set`: true while IRQs are masked, whatever the name says.
  unfoldable pub local_irq_enabled : Machine D → Bool
  local_irq_enabled m = m.daif.i

  unfoldable pub local_irq_mask : Machine D → Machine D
  local_irq_mask m = record m { daif = record daif { i = true } }
    where
      open m use {daif}

  unfoldable pub local_irq_unmask : Machine D → Machine D
  local_irq_unmask m = record m { daif = record daif { i = false } }
    where
      open m use {daif}

  unfoldable pub local_irq_mask_and_save : Machine D → Daif × Machine D
  unfolding local_irq_mask
  local_irq_mask_and_save m = (m.daif, local_irq_mask m)

  unfoldable pub local_irq_restore : Daif → Machine D → Machine D
  local_irq_restore saved m = record m { daif = saved }

  -- A panic in the closure does not come back, nor does a loop that goes on.
  restore_after : {A : Type 0} → Daif → Outcome A → Machine D → Outcome A × Machine D
  unfolding local_irq_restore
  restore_after saved (ok a) m = (ok a, local_irq_restore saved m)
  restore_after saved (err e) m = (err e, local_irq_restore saved m)
  restore_after saved (panic e) m = (panic e, m)
  restore_after saved unfinished m = (unfinished, m)

  unfoldable pub exec_with_irq_masked : {A : Type 0} → Exec (Machine D) A → Exec (Machine D) A
  unfolding local_irq_mask_and_save restore_after
  exec_with_irq_masked f m =
      let (saved, masked) = local_irq_mask_and_save m in
      let r = f masked in restore_after saved r.0 r.1

  -- A closure over the locked data.
  abbrev pub on_shared : {A : Type 0} → Exec D A → Exec (Machine D) A
  on_shared f m = let r = f m.shared in (r.0, record m { shared = r.1 })

  -- `IRQSafeNullLock::lock`.
  unfoldable pub lock : {A : Type 0} → Exec D A → Exec (Machine D) A
  unfolding exec_with_irq_masked
  lock f = exec_with_irq_masked (on_shared f)

  -- `InitStateLock::write`.
  unfoldable pub write : {A : Type 0} → Exec D A → Exec (Machine D) A
  unfolding is_init local_irq_enabled
  write f = do
    m ← get
    init_phase ← lift (is_init m)
    lift (Outcome.assert init_phase "InitStateLock::write called after kernel init phase")
    lift (Outcome.assert (local_irq_enabled m) "InitStateLock::write called with IRQs unmasked")
    on_shared f

  -- `InitStateLock::read`.
  unfoldable pub read : {A : Type 0} → (D → Outcome A) → Exec (Machine D) A
  read f m = (f m.shared, m)
