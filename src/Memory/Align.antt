-- ===== src/Memory/Align.antt =====
-- The alignment helpers of src/lib.rs, on 64-bit `usize` values.
pub mod Laws
use rp4os.Base.{
  ℕ, ◌-◌, ◌<◌, bit_and, Bool, true, false, ◌&&◌, ltb, ◌==◌, wrapping_add, wrapping_sub, complement,
}
use rp4os.Base.Outcome.{Outcome, ok, assert, ◌>>=◌, ◌>>◌}

-- `usize::is_power_of_two`: exactly one bit is set.
unfoldable pub is_power_of_two : ℕ → Bool
is_power_of_two n = ltb 0 n && bit_and n (n - 1) == 0

unfoldable pub is_aligned : ℕ → ℕ → Outcome Bool
unfolding is_power_of_two
is_aligned ptr alignment = do
  assert (is_power_of_two alignment) "assertion failed: alignment.is_power_of_two()"
  ok (bit_and ptr (alignment - 1) == 0)

unfoldable pub align_down : ℕ → ℕ → Outcome ℕ
unfolding is_power_of_two
align_down ptr alignment = do
  assert (is_power_of_two alignment) "assertion failed: alignment.is_power_of_two()"
  ok (bit_and ptr (complement (alignment - 1)))

unfoldable pub align_up : ℕ → ℕ → Outcome ℕ
unfolding is_power_of_two
align_up ptr alignment = do
  assert (is_power_of_two alignment) "assertion failed: alignment.is_power_of_two()"
  ok (bit_and (wrapping_sub (wrapping_add ptr alignment) 1) (complement (alignment - 1)))
