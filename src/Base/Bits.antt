-- ===== src/Base/Bits.antt =====
-- `&` and `|` at variables: the digit recursion behind the native operations, and what it says
-- of masks, shifts and fields.
pub mod Masks
use Prim.Native.Nat.{
  ℕ, zero, suc, ◌+◌, ◌-◌, ◌*◌, ◌/◌, ◌%◌, ◌^◌, ◌≤◌, ◌<◌, min, max, bit_and, bit_or, digits, bitwise,
  bit_and-bitwise, bit_or-bitwise,
}
use mathlib.Core.Path.{◌≡◌, refl, ap, sym, ◌∙◌}
use mathlib.Core.Logic.{◌≢◌}
use native.Mathlib.Nat.{
  le_refl, pow-succ', one-le-pow, div-div-eq-div-mul, mul-add-mod_self_left, mod-eq_of_lt,
  div-add-mod, mod-lt, div-one, mod-one, div_self, div-eq_of_lt,
}
use native.Mathlib.Omega.{arith}

module _ (right : ℕ → ℕ) (digit : ℕ → ℕ → ℕ) where
  -- Any fuel that is not below the first operand gives the same digits.
  more_fuel : (m n a b : ℕ) → a ≤ m → a ≤ n → digits right digit m a b ≡ digits right digit n a b
  more_fuel zero zero a b h k = refl
  more_fuel zero (suc n) zero b h k = refl
  more_fuel zero (suc n) (suc a) b h k = absurd (omega arith)
  more_fuel (suc m) zero zero b h k = refl
  more_fuel (suc m) zero (suc a) b h k = absurd (omega arith)
  more_fuel (suc m) (suc n) zero b h k = refl
  more_fuel (suc m) (suc n) (suc a) b h k =
      rw (more_fuel m n (suc a / 2) (b / 2) (omega arith) (omega arith))

  bitwise_digit :
      (a b : ℕ)
      → bitwise right digit (suc a) b
        ≡ bitwise right digit (suc a / 2) (b / 2) * 2 + digit (suc a % 2) (b % 2)
  bitwise_digit a b =
      omega (arith, more_fuel a (suc a / 2) (suc a / 2) (b / 2) (omega arith) (le_refl _))

pub bit_or_digit : (a b : ℕ) → bit_or a b ≡ 2 * bit_or (a / 2) (b / 2) + max (a % 2) (b % 2)
bit_or_digit zero b = simp bit_or-bitwise (omega arith)
bit_or_digit (suc a) b = omega (
  arith,
  bit_or-bitwise (suc a) b,
  bit_or-bitwise (suc a / 2) (b / 2),
  bitwise_digit (λ y. y) max a b,
)

pub bit_and_digit : (a b : ℕ) → bit_and a b ≡ 2 * bit_and (a / 2) (b / 2) + min (a % 2) (b % 2)
bit_and_digit zero b = simp bit_and-bitwise (omega arith)
bit_and_digit (suc a) b = omega (
  arith,
  bit_and-bitwise (suc a) b,
  bit_and-bitwise (suc a / 2) (b / 2),
  bitwise_digit (λ y. 0) min a b,
)

-- Dropping the lowest digit first.
pub div-pow-suc : (a k : ℕ) → a / 2 ^ suc k ≡ a / 2 / 2 ^ k
div-pow-suc a k = rw (pow-succ' 2 k) (sym (div-div-eq-div-mul a 2 (2 ^ k)))

pub mod-pow-suc : (a k : ℕ) → a % 2 ^ suc k ≡ 2 * (a / 2 % 2 ^ k) + a % 2
mod-pow-suc a k = rw (pow-succ' 2 k) (
    regroup (a / 2 / 2 ^ k) (a / 2 % 2 ^ k) (div-add-mod (a / 2) (2 ^ k))
      (mod-lt (a / 2) (one-le-pow k 2 (omega arith))))
  where
    regroup : (q r : ℕ) → 2 ^ k * q + r ≡ a / 2 → r < 2 ^ k → a % (2 * 2 ^ k) ≡ 2 * r + a % 2
    regroup q r e small =
        let whole : a ≡ 2 * 2 ^ k * q + (2 * r + a % 2) = omega arith in
        let left : a % (2 * 2 ^ k) ≡ (2 * 2 ^ k * q + (2 * r + a % 2)) % (2 * 2 ^ k) =
          ap (λ (t : ℕ). t % (2 * 2 ^ k)) whole in
        left ∙ mul-add-mod_self_left (2 * 2 ^ k) q (2 * r + a % 2) ∙ mod-eq_of_lt (omega arith)

pub bit_or-zero : (a : ℕ) → bit_or a 0 ≡ a
bit_or-zero a = up_to a a (le_refl _)
  where
    up_to : (n b : ℕ) → b ≤ n → bit_or b 0 ≡ b
    up_to n zero h = refl
    up_to zero (suc b) h = absurd (omega arith)
    up_to (suc n) (suc b) h =
        omega (arith, bit_or_digit (suc b) 0, up_to n (suc b / 2) (omega arith))

pub bit_and-zero : (a : ℕ) → bit_and a 0 ≡ 0
bit_and-zero a = up_to a a (le_refl _)
  where
    up_to : (n b : ℕ) → b ≤ n → bit_and b 0 ≡ 0
    up_to n zero h = refl
    up_to zero (suc b) h = absurd (omega arith)
    up_to (suc n) (suc b) h =
        omega (arith, bit_and_digit (suc b) 0, up_to n (suc b / 2) (omega arith))

pub zero-bit_or : (b : ℕ) → bit_or 0 b ≡ b
zero-bit_or b = bit_or-bitwise 0 b

-- Shifts and low parts go through `|`.
pub bit_or-div : (k a b : ℕ) → bit_or a b / 2 ^ k ≡ bit_or (a / 2 ^ k) (b / 2 ^ k)
bit_or-div zero a b = rw (div-one, div-one, div-one) refl
bit_or-div (suc k) a b =
    rw (div-pow-suc (bit_or a b) k, div-pow-suc a k, div-pow-suc b k, halved)
      (bit_or-div k (a / 2) (b / 2))
  where
    halved : bit_or a b / 2 ≡ bit_or (a / 2) (b / 2)
    halved = omega (arith, bit_or_digit a b)

pub bit_or-mod : (k a b : ℕ) → bit_or a b % 2 ^ k ≡ bit_or (a % 2 ^ k) (b % 2 ^ k)
bit_or-mod zero a b = rw (mod-one, mod-one, mod-one) refl
bit_or-mod (suc k) a b =
    rw (mod-pow-suc (bit_or a b) k, mod-pow-suc a k, mod-pow-suc b k)
      (digits_of (a / 2 % 2 ^ k) (b / 2 % 2 ^ k) (bit_or-mod k (a / 2) (b / 2)))
  where
    digits_of :
        (x y : ℕ)
        → bit_or (a / 2) (b / 2) % 2 ^ k ≡ bit_or x y
        → 2 * (bit_or a b / 2 % 2 ^ k) + bit_or a b % 2 ≡ bit_or (2 * x + a % 2) (2 * y + b % 2)
    digits_of x y e =
        let halved : bit_or a b / 2 ≡ bit_or (a / 2) (b / 2) = omega (arith, bit_or_digit a b) in
        let left : (2 * x + a % 2) / 2 ≡ x = omega arith in
        let right : (2 * y + b % 2) / 2 ≡ y = omega arith in
        let digit = bit_or_digit (2 * x + a % 2) (2 * y + b % 2) in
        let split : bit_or (2 * x + a % 2) (2 * y + b % 2)
            ≡ 2 * bit_or x y + max ((2 * x + a % 2) % 2) ((2 * y + b % 2) % 2) =
          rw (left, right) at digit in
        rw halved (omega (arith, split, bit_or_digit a b))

-- `& (2 ^ k - 1)` keeps the low part, `& !(2 ^ k - 1)` clears it.
pub bit_and-low : (k a : ℕ) → bit_and a (2 ^ k - 1) ≡ a % 2 ^ k
bit_and-low zero a = rw (bit_and-zero a, mod-one) refl
bit_and-low (suc k) a =
    let bits = one-le-pow k 2 (omega arith) in
    let half : (2 ^ suc k - 1) / 2 ≡ 2 ^ k - 1 = omega (arith, pow-succ' 2 k) in
    let digit = bit_and_digit a (2 ^ suc k - 1) in
    let digit' : bit_and a (2 ^ suc k - 1)
        ≡ 2 * bit_and (a / 2) (2 ^ k - 1) + min (a % 2) ((2 ^ suc k - 1) % 2) =
      rw half at digit in
    omega (arith, digit', bit_and-low k (a / 2), mod-pow-suc a k, pow-succ' 2 k)

pub bit_and-high : (k w a : ℕ) → k ≤ w → a < 2 ^ w → bit_and a (2 ^ w - 2 ^ k) ≡ a - a % 2 ^ k
bit_and-high zero w a h fits =
    rw mod-one (omega (arith, bit_and-low w a, mod-eq_of_lt {n = a} {m = 2 ^ w} fits))
bit_and-high (suc k) zero a h fits = absurd (omega arith)
bit_and-high (suc k) (suc w) a h fits =
    let half : (2 ^ suc w - 2 ^ suc k) / 2 ≡ 2 ^ w - 2 ^ k =
      omega (arith, pow-succ' 2 k, pow-succ' 2 w) in
    let digit = bit_and_digit a (2 ^ suc w - 2 ^ suc k) in
    let digit' : bit_and a (2 ^ suc w - 2 ^ suc k)
        ≡ 2 * bit_and (a / 2) (2 ^ w - 2 ^ k) + min (a % 2) ((2 ^ suc w - 2 ^ suc k) % 2) =
      rw half at digit in
    let rest : bit_and (a / 2) (2 ^ w - 2 ^ k) ≡ a / 2 - a / 2 % 2 ^ k =
      bit_and-high k w (a / 2) (omega arith) (omega (arith, pow-succ' 2 w)) in
    omega (arith, digit', rest, mod-pow-suc a k, pow-succ' 2 k, pow-succ' 2 w)

-- The bit of number `j`.
abbrev pub bit : ℕ → ℕ → ℕ
bit a j = a / 2 ^ j % 2

pub bit-bit_or : (a b j : ℕ) → bit (bit_or a b) j ≡ max (bit a j) (bit b j)
bit-bit_or a b j = rw (bit_or-div j a b) (omega (arith, bit_or_digit (a / 2 ^ j) (b / 2 ^ j)))

pub bit-pow_self : (i : ℕ) → bit (2 ^ i) i ≡ 1
bit-pow_self i = rw (div_self (one-le-pow i 2 (omega arith))) refl

pub bit-pow_ne : (i j : ℕ) → i ≢ j → bit (2 ^ i) j ≡ 0
bit-pow_ne zero zero h = absurd (h refl)
bit-pow_ne zero (suc j) h =
    rw
      (div-eq_of_lt {n = 1} {m = 2 ^ suc j}
        (omega (arith, pow-succ' 2 j, one-le-pow j 2 (omega arith))))
      refl
bit-pow_ne (suc i) zero h = rw (div-one, pow-succ' 2 i) (omega arith)
bit-pow_ne (suc i) (suc j) h =
    let half : 2 ^ suc i / 2 ≡ 2 ^ i = omega (arith, pow-succ' 2 i) in
    rw (div-pow-suc (2 ^ suc i) j, half) (bit-pow_ne i j (λ e. h (ap suc e)))
