-- ===== src/Mmu/Region/Offsets.antt =====
-- `checked_offset` and the `Step` instance of page addresses, as arithmetic on pages.
use mathlib.Core.Logic.{◌↔◌}
use rp4os.Base.{
  ℕ, ◌+◌, ◌-◌, ◌*◌, ◌%◌, ◌^◌, ◌≤◌, ◌<◌, ◌≡◌, none, some, ltb, leb, if◌then◌else◌, u64_mod, arith,
}
use rp4os.Memory.Address.{ms_kernel}
use rp4os.Mmu.Region.{checked_offset, steps_between, forward_checked, backward_checked}

-- An offset that is a non-negative `isize`.
pub checked_offset_forward :
    (page n : ℕ)
    → page < u64_mod
    → n < 2 ^ 63
    → checked_offset page n
      ≡ (if ltb (page + n * ms_kernel) u64_mod then some (page + n * ms_kernel) else none)
unfolding checked_offset
checked_offset_forward page n fits small = ground arith

pub backward_checked_lem :
    (page n : ℕ)
    → page < u64_mod
    → n < 2 ^ 63
    → backward_checked page n
      ≡ (if leb (n * ms_kernel) page then some (page - n * ms_kernel) else none)
unfolding backward_checked checked_offset
backward_checked_lem page n fits small = ground arith

-- A count that does not fit an `isize` counts backwards.
pub checked_offset_negative :
    (page n : ℕ)
    → page < u64_mod
    → 0 < n
    → n * ms_kernel ≤ page
    → checked_offset page (u64_mod - n) ≡ some (page - n * ms_kernel)
unfolding checked_offset
checked_offset_negative page n fits pos room = ground arith

-- `Step`: for two page addresses and a count below 2 ^ 63, going `n` pages forward from `start`
-- arrives at `end` exactly when `steps_between` counts `n` pages between them.
pub forward-steps :
    (start end n : ℕ)
    → start % ms_kernel ≡ 0
    → end % ms_kernel ≡ 0
    → start < u64_mod
    → end < u64_mod
    → n < 2 ^ 63
    → (forward_checked start n ≡ some end) ↔ (steps_between start end ≡ some n)
unfolding forward_checked steps_between
forward-steps start end n a b fits fits' small = (
  λ h. ground (arith, checked_offset_forward start n fits small),
  λ h. ground (arith, checked_offset_forward start n fits small),
)

-- For a count below 2 ^ 63, going back undoes going forward.
pub backward-forward :
    (start end n : ℕ)
    → start < u64_mod
    → n < 2 ^ 63
    → forward_checked start n ≡ some end
    → backward_checked end n ≡ some start
unfolding forward_checked
backward-forward start end n fits small h =
    ground (arith, checked_offset_forward start n fits small, backward_checked_lem end n)
