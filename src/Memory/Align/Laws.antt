-- ===== src/Memory/Align/Laws.antt =====
-- The alignment helpers at a power of two, as arithmetic.
use native.Mathlib.Nat.{
  div-add-mod, mul-mod_right, mul-add-mod_self_left, mod-le, one-le-pow, pow-le-pow_right, mod_self,
  mod-lt, mod-eq_of_lt,
}
use rp4os.Base.{
  ℕ, ◌+◌, ◌-◌, ◌*◌, ◌/◌, ◌%◌, ◌^◌, ◌≤◌, ◌<◌, bit_and, true, ◌≡◌, refl, ap, ◌∙◌, arith, ◌==◌,
  u64_mod, if◌then◌else◌, Bool-cases, inl, inr,
}
use rp4os.Base.Bits.{bit_and-low, bit_and-high}
use rp4os.Base.Outcome.{ok}
use rp4os.Memory.Align.{is_power_of_two, is_aligned, align_down, align_up}

pub is_power_of_two-pow : (k : ℕ) → is_power_of_two (2 ^ k) ≡ true
unfolding is_power_of_two
is_power_of_two-pow k =
    ground (arith, one-le-pow k 2 (omega arith), bit_and-low k (2 ^ k), mod_self (2 ^ k))

-- At a power of two, `is_aligned` tells whether the address is a multiple of it.
pub is_aligned-pow : (ptr k : ℕ) → is_aligned ptr (2 ^ k) ≡ ok (ptr % 2 ^ k == 0)
unfolding is_aligned
is_aligned-pow ptr k = rw (is_power_of_two-pow k, bit_and-low k ptr) refl

align_mask :
    (ptr k : ℕ)
    → ptr < u64_mod
    → k ≤ 64
    → bit_and ptr (u64_mod - 1 - (2 ^ k - 1)) ≡ ptr - ptr % 2 ^ k
align_mask ptr k fits small =
    let mask : u64_mod - 1 - (2 ^ k - 1) ≡ u64_mod - 2 ^ k =
      omega (arith, one-le-pow k 2 (omega arith)) in
    rw mask (bit_and-high k 64 ptr small fits)

-- `align_down` gives the largest multiple of `2 ^ k` that is not above the address.
pub align_down-pow :
    (ptr k : ℕ) → ptr < u64_mod → k ≤ 64 → align_down ptr (2 ^ k) ≡ ok (ptr - ptr % 2 ^ k)
unfolding align_down
align_down-pow ptr k fits small = rw (is_power_of_two-pow k) (ap ok (align_mask ptr k fits small))

pub align_up-pow :
    (ptr k : ℕ)
    → ptr + (2 ^ k - 1) < u64_mod
    → k ≤ 63
    → align_up ptr (2 ^ k) ≡ ok (ptr + (2 ^ k - 1) - (ptr + (2 ^ k - 1)) % 2 ^ k)
unfolding align_up
align_up-pow ptr k fits small =
    let bits = one-le-pow k 2 (omega arith) in
    let top : 2 ^ k ≤ 2 ^ 63 = pow-le-pow_right {n = 2} (omega arith) small in
    let carried : ((ptr + 2 ^ k) % u64_mod + u64_mod - 1) % u64_mod ≡ ptr + (2 ^ k - 1) =
      omega arith in
    rw (is_power_of_two-pow k, carried)
      (ap ok (align_mask (ptr + (2 ^ k - 1)) k fits (omega arith)))

floor_multiple : (x m : ℕ) → (x - x % m) % m ≡ 0
floor_multiple x m =
    let whole : x - x % m ≡ m * (x / m) = omega (arith, div-add-mod x m) in
    rw whole (mul-mod_right m (x / m))

-- Rounding up, by the remainder of the address itself.
ceil_multiple :
    (x m : ℕ) → 0 < m → x + (m - 1) - (x + (m - 1)) % m ≡ (if x % m == 0 then x else x - x % m + m)
ceil_multiple x m pos = elim (Bool-cases (x % m == 0)) [
  | inl exact ↦
      let split : x + (m - 1) ≡ m * (x / m) + (m - 1) = ground (arith, div-add-mod x m) in
      let rest : (x + (m - 1)) % m ≡ m - 1 =
        ap (λ (t : ℕ). t % m) split
        ∙ mul-add-mod_self_left m (x / m) (m - 1)
        ∙ mod-eq_of_lt (omega arith) in
      rw exact (omega (arith, rest))
  | inr inexact ↦
      let positive : 0 < x % m = ground arith in
      let split : x + (m - 1) ≡ m * (x / m + 1) + (x % m - 1) = omega (arith, div-add-mod x m) in
      let rest : (x + (m - 1)) % m ≡ x % m - 1 =
        ap (λ (t : ℕ). t % m) split
        ∙ mul-add-mod_self_left m (x / m + 1) (x % m - 1)
        ∙ mod-eq_of_lt (omega (arith, mod-lt x {m = m} pos)) in
      rw inexact (omega (arith, rest, mod-lt x {m = m} pos, mod-le x m))
]

-- For an alignment `2 ^ k` with `k` at most 63 and an address that many below 2 ^ 64, its
-- aligned neighbours: both are multiples of the alignment, the address lies between them, they
-- are less than one alignment away from it, and they are one exactly when `is_aligned` says so.
pub align_neighbours :
    (ptr k : ℕ)
    → ptr + (2 ^ k - 1) < u64_mod
    → k ≤ 63
    → (lo hi : ℕ) × (align_down ptr (2 ^ k) ≡ ok lo)
      × (align_up ptr (2 ^ k) ≡ ok hi)
      × (lo % 2 ^ k ≡ 0)
      × (hi % 2 ^ k ≡ 0)
      × (lo ≤ ptr)
      × (ptr < lo + 2 ^ k)
      × (ptr ≤ hi)
      × (hi < ptr + 2 ^ k)
      × (is_aligned ptr (2 ^ k) ≡ ok (lo == hi))
align_neighbours ptr k fits small =
    let pos = one-le-pow k 2 (omega arith) in
    let up = ptr + (2 ^ k - 1) in
    let below = mod-lt ptr {m = 2 ^ k} pos in
    let below' = mod-lt up {m = 2 ^ k} pos in
    (
      ptr - ptr % 2 ^ k,
      up - up % 2 ^ k,
      align_down-pow ptr k (omega arith) (omega arith),
      align_up-pow ptr k fits small,
      floor_multiple ptr (2 ^ k),
      floor_multiple up (2 ^ k),
      omega arith,
      omega (arith, below, mod-le ptr (2 ^ k)),
      omega (arith, below', mod-le up (2 ^ k)),
      omega (arith, pos),
      rw (is_aligned-pow ptr k, ceil_multiple ptr (2 ^ k) pos)
          (ground (arith, below, mod-le ptr (2 ^ k))),
    )
