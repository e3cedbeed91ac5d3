-- ===== src/Sync/Locks.antt =====
-- What the locks guarantee to their closures and to their callers.
use rp4os.Base.{ap, ◌∙◌, true, ◌≡◌, refl, ◌==◌, if◌then◌else◌, leb, arith}
use rp4os.Base.Outcome.{Outcome, ok, err, panic, unfinished}
use rp4os.Base.Exec.{Exec}
use rp4os.Sync.{
  Machine, lock, write, on_shared, restore_after, exec_with_irq_masked, local_irq_mask,
  local_irq_restore, transition_to_single_core_main,
}

-- The call comes back, with a value or an error.
abbrev pub Returns : {A : Type 0} → Outcome A → Type 0
Returns (ok a) = Unit
Returns (err e) = Unit
Returns (panic e) = ⊥
Returns unfinished = ⊥

-- The state with IRQs masked.
abbrev pub masked : {D : Type 0} → Machine D → Machine D
masked m = record m { daif = record m.daif { i = true } }

module _ {D A : Type 0} where
  -- Whatever the closure does to the mask, it runs with IRQs masked and everything else as it was.
  -- If it then comes back with a value or an error, that is passed on, the mask is what it was
  -- before the call, and all else is as the closure left it. A call directly inside such a call
  -- gives and leaves the same as one call: its end does not unmask IRQs for the outer one.
  pub exec_with_irq_masked_lem :
      (f : Exec (Machine D) A) (m : Machine D)
      → Returns (f (masked m)).0
      → (exec_with_irq_masked f m ≡ ((f (masked m)).0, record (f (masked m)).1 { daif = m.daif }))
        × (exec_with_irq_masked (exec_with_irq_masked f) m ≡ exec_with_irq_masked f m)
  unfolding exec_with_irq_masked local_irq_mask restore_after local_irq_restore
  exec_with_irq_masked_lem f m back =
      (cases (f (masked m)).0 (f (masked m)).1 back, nested (f (masked m)).0 (f (masked m)).1)
    where
      cases :
          (o : Outcome A) (after : Machine D)
          → Returns o
          → restore_after m.daif o after ≡ (o, record after { daif = m.daif })
      cases (ok a) after back = refl
      cases (err e) after back = refl
      cases (panic e) after back = elim back [ ]
      cases unfinished after back = elim back [ ]

      nested :
          (o : Outcome A) (after : Machine D)
          → (let r = restore_after (masked m).daif o after in restore_after m.daif r.0 r.1)
            ≡ restore_after m.daif o after
      nested (ok a) after = refl
      nested (err e) after = refl
      nested (panic e) after = refl
      nested unfinished after = refl

  -- `lock` gives the closure's result, changes the data as the closure does and nothing else: in
  -- particular the interrupt mask is what it was, if the closure comes back.
  pub lock_lem :
      (f : Exec D A) (m : Machine D)
      → Returns (f m.shared).0
      → lock f m ≡ ((f m.shared).0, record m { shared = (f m.shared).1 })
  unfolding lock
  lock_lem f m back = (exec_with_irq_masked_lem (on_shared f) m back).0

  -- With IRQs masked before, they are masked after, also when the closure panics.
  pub lock-masked : (f : Exec D A) (m : Machine D) → m.daif.i ≡ true → (lock f m).1.daif.i ≡ true
  unfolding lock exec_with_irq_masked
  lock-masked f m masked =
      cases (on_shared f (local_irq_mask m)).0 (on_shared f (local_irq_mask m)).1 local_irq_mask_lem
    where
      local_irq_mask_lem : (on_shared f (local_irq_mask m)).1.daif.i ≡ true
      local_irq_mask_lem = refl

      cases :
          (o : Outcome A) (after : Machine D)
          → after.daif.i ≡ true
          → (restore_after m.daif o after).1.daif.i ≡ true
      cases (ok a) after kept = masked
      cases (err e) after kept = masked
      cases (panic e) after kept = kept
      cases unfinished after kept = kept

  -- A closure that succeeds.
  pub lock-ok :
      (f : Exec D A) (a : A) (after : D) (m : Machine D)
      → f m.shared ≡ (ok a, after)
      → lock f m ≡ (ok a, record m { shared = after })
  lock-ok f a after m e =
      lock_lem f m (rw e tt) ∙ ap (λ (r : Outcome A × D). (r.0, record m { shared = r.1 })) e

  -- `write` runs its closure in the init phase with IRQs masked, and panics with everything
  -- unchanged at any other time.
  pub write_lem :
      (f : Exec D A) (m : Machine D)
      → write f m ≡ (
          if m.kernel_state == 0
          then if m.daif.i
            then on_shared f m
            else (panic "InitStateLock::write called with IRQs unmasked", m)
          else if leb 3 m.kernel_state
          then (panic "Invalid KERNEL_STATE", m)
          else (panic "InitStateLock::write called after kernel init phase", m))
  unfolding write
  write_lem f m = ground arith

  -- The transition out of the init phase works once, and from then on no `write` changes anything.
  pub write_after_transition :
      (f : Exec D A) (m m' : Machine D)
      → transition_to_single_core_main m ≡ (ok tt, m')
      → (write f m' ≡ (panic "InitStateLock::write called after kernel init phase", m'))
        × ((transition_to_single_core_main m').1 ≡ m')
        × ((transition_to_single_core_main m').0
            ≡ panic "transition_to_single_core_main() called while state != Init")
  unfolding transition_to_single_core_main
  write_after_transition f m m' h = (ground (arith, write_lem f m'), ground arith, ground arith)

-- The init phase with IRQs masked.
abbrev pub Starting : {D : Type 0} → Machine D → Type 0
Starting m = (m.kernel_state ≡ 0) × (m.daif.i ≡ true)

pub write-Starting :
    {D A : Type 0} (f : Exec D A) (m : Machine D) → Starting m → write f m ≡ on_shared f m
write-Starting f m (starting, masked) = write_lem f m ∙ ground arith
