-- ===== src/Base/Bits/Masks.antt =====
-- Shifts and low parts go through `&`, and what clearing bits and setting others leaves.
use Prim.Native.Nat.{ℕ, zero, suc, ◌+◌, ◌*◌, ◌/◌, ◌%◌, ◌^◌, min, bit_and, bit_or}
use mathlib.Core.Path.{◌≡◌, refl}
use native.Mathlib.Nat.{div-one, mod-one}
use native.Mathlib.Omega.{arith}
use rp4os.Base.Bits.{bit_and_digit, div-pow-suc, mod-pow-suc, bit_or-div, bit_or-mod}

pub bit_and-div : (k a b : ℕ) → bit_and a b / 2 ^ k ≡ bit_and (a / 2 ^ k) (b / 2 ^ k)
bit_and-div zero a b = rw (div-one, div-one, div-one) refl
bit_and-div (suc k) a b =
    let halved : bit_and a b / 2 ≡ bit_and (a / 2) (b / 2) = omega (arith, bit_and_digit a b) in
    rw (div-pow-suc (bit_and a b) k, div-pow-suc a k, div-pow-suc b k, halved)
      (bit_and-div k (a / 2) (b / 2))

pub bit_and-mod : (k a b : ℕ) → bit_and a b % 2 ^ k ≡ bit_and (a % 2 ^ k) (b % 2 ^ k)
bit_and-mod zero a b = rw (mod-one, mod-one, mod-one) refl
bit_and-mod (suc k) a b =
    rw (mod-pow-suc (bit_and a b) k, mod-pow-suc a k, mod-pow-suc b k)
      (digits_of (a / 2 % 2 ^ k) (b / 2 % 2 ^ k) (bit_and-mod k (a / 2) (b / 2)))
  where
    digits_of :
        (x y : ℕ)
        → bit_and (a / 2) (b / 2) % 2 ^ k ≡ bit_and x y
        → 2 * (bit_and a b / 2 % 2 ^ k) + bit_and a b % 2 ≡ bit_and (2 * x + a % 2) (2 * y + b % 2)
    digits_of x y e =
        let halved : bit_and a b / 2 ≡ bit_and (a / 2) (b / 2) = omega (arith, bit_and_digit a b) in
        let left : (2 * x + a % 2) / 2 ≡ x = omega arith in
        let right : (2 * y + b % 2) / 2 ≡ y = omega arith in
        let digit = bit_and_digit (2 * x + a % 2) (2 * y + b % 2) in
        let split : bit_and (2 * x + a % 2) (2 * y + b % 2)
            ≡ 2 * bit_and x y + min ((2 * x + a % 2) % 2) ((2 * y + b % 2) % 2) =
          rw (left, right) at digit in
        rw halved (omega (arith, split, bit_and_digit a b))

-- The part of `n` bits at `k` of `x & clear | set`.
pub masked_part :
    (k n x clear set : ℕ)
    → bit_or (bit_and x clear) set / 2 ^ k % 2 ^ n
      ≡ bit_or (bit_and (x / 2 ^ k % 2 ^ n) (clear / 2 ^ k % 2 ^ n)) (set / 2 ^ k % 2 ^ n)
masked_part k n x clear set =
    rw (bit_or-div k (bit_and x clear) set, bit_and-div k x clear)
      (rw
        (
          bit_or-mod n (bit_and (x / 2 ^ k) (clear / 2 ^ k)) (set / 2 ^ k),
          bit_and-mod n (x / 2 ^ k) (clear / 2 ^ k),
        )
        refl)
