-- ===== src/Examples/Locks.antt =====
-- A counter behind the locks.
use rp4os.Base.{ℕ, ◌+◌, ◌≡◌, refl, true, false}
use rp4os.Base.Outcome.{ok, panic}
use rp4os.Base.Exec.{Exec}
use rp4os.Sync.{Machine, exec_with_irq_masked, write, transition_to_single_core_main}
use rp4os.Sync.Locks.{exec_with_irq_masked_lem, write_after_transition}

-- The core with IRQs unmasked in the init phase.
abbrev unmasked : Machine ℕ
unmasked = record {
  kernel_state = 0;
  daif = record { d = true; a = true; i = false; f = true };
  shared = 7;
}

-- It changes the mask too.
abbrev unmask_and_count : Exec (Machine ℕ) ℕ
unmask_and_count m =
    (ok m.shared, record m { shared = m.shared + 1; daif = record m.daif { i = false; f = false } })

exec_with_irq_masked_lem_example :
    (exec_with_irq_masked unmask_and_count unmasked ≡ (ok 7, record unmasked { shared = 8 }))
    × (exec_with_irq_masked (exec_with_irq_masked unmask_and_count) unmasked
        ≡ exec_with_irq_masked unmask_and_count unmasked)
exec_with_irq_masked_lem_example = exec_with_irq_masked_lem unmask_and_count unmasked tt

abbrev increment : Exec ℕ ℕ
increment n = (ok n, n + 1)

write_after_transition_example :
    (write increment (record unmasked { kernel_state = 1 }) ≡ (
      panic "InitStateLock::write called after kernel init phase",
      record unmasked { kernel_state = 1 },
    ))
    × ((transition_to_single_core_main (record unmasked { kernel_state = 1 })).1
        ≡ record unmasked { kernel_state = 1 })
    × ((transition_to_single_core_main (record unmasked { kernel_state = 1 })).0
        ≡ panic "transition_to_single_core_main() called while state != Init")
unfolding transition_to_single_core_main
write_after_transition_example =
    write_after_transition increment unmasked (record unmasked { kernel_state = 1 }) refl
