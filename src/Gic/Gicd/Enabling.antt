-- ===== src/Gic/Gicd/Enabling.antt =====
-- What `enable` of src/bsp/drivers/gicv2/gicd.rs changes in the enable registers.
use rp4os.Base.{
  ℕ, ◌-◌, ◌/◌, ◌%◌, ◌^◌, ◌≤◌, ◌<◌, ◌≡◌, refl, ap, sym, ◌∙◌, bit_or, true, false, Option, none, some,
  leb, List, length, get_elem?, set, get_elem?_lt, get_elem?-set_self, get_elem?-set_ne,
  if◌then◌else◌, arith, ◌==◌, Bool-cases, ==_iff, le→leb, leb→le, ◌⊎◌, inl, inr,
}
use rp4os.Base.Bits.{bit, bit-bit_or, bit-pow_self, bit-pow_ne}
use rp4os.Base.Outcome.{ok}
use rp4os.Sync.{Machine}
use rp4os.Sync.Locks.{lock_lem}
use rp4os.Gic.Gicd.{Gicd, enable, set_bit, on_shared_registers, on_isenabler}

-- The architecture's bit for an interrupt: bit `k % 32` of GICD_ISENABLER`k / 32`, the first of
-- which is banked.
abbrev pub isenabler_bit : Option ℕ → ℕ → ℕ
isenabler_bit none j = 0
isenabler_bit (some r) j = bit r j

abbrev pub enabled : Gicd → ℕ → ℕ
enabled g k =
    if leb k 31
    then bit g.banked_registers.isenabler (k % 32)
    else isenabler_bit (get_elem? g.shared_registers.isenabler (k / 32 - 1)) (k % 32)

with_bit : (r i j : ℕ) → bit (bit_or r (2 ^ i)) j ≡ (if i == j then 1 else bit r j)
with_bit r i j = elim (Bool-cases (i == j)) [
  | inl e ↦ rw e (at_same ((==_iff i j).0 e))
  | inr e ↦ rw e (omega (arith, bit-bit_or r (2 ^ i) j, bit-pow_ne i j (λ p. differs p e)))
]
  where
    at_same : i ≡ j → bit (bit_or r (2 ^ i)) j ≡ 1
    at_same p = rw p (omega (arith, bit-bit_or r (2 ^ j) j, bit-pow_self j))

    differs : i ≡ j → (i == j) ≡ false → ⊥
    differs p e = ground arith

set_bit-inside :
    (i n r : ℕ) (registers : List ℕ)
    → get_elem? registers i ≡ some r
    → set_bit i n registers ≡ (ok tt, set registers i (bit_or r n))
unfolding set_bit
set_bit-inside i n r registers h = rw (set_bit, h) refl

isenabler_bit-set :
    (i n r j k : ℕ) (registers : List ℕ)
    → get_elem? registers i ≡ some r
    → i < length registers
    → isenabler_bit (get_elem? (set registers i (bit_or r (2 ^ n))) j) k ≡ (
        if i == j then (if n == k then 1 else bit r k) else isenabler_bit (get_elem? registers j) k)
isenabler_bit-set i n r j k registers h small = elim (Bool-cases (i == j)) [
  | inl e ↦
      rw (e, sym ((==_iff i j).0 e), get_elem?-set_self registers i (bit_or r (2 ^ n)) small)
        (with_bit r n k)
  | inr e ↦ rw (e, get_elem?-set_ne registers i j (bit_or r (2 ^ n)) (λ p. differs p e)) refl
]
  where
    differs : i ≡ j → (i == j) ≡ false → ⊥
    differs p e = ground arith

with_private : ℕ → Gicd → Gicd
with_private n g = record g {
  banked_registers = record g.banked_registers {
    isenabler = bit_or g.banked_registers.isenabler (2 ^ (n % 32));
  };
}

with_shared : ℕ → ℕ → Gicd → Gicd
with_shared n r g = record g {
  shared_registers = record g.shared_registers {
    isenabler = set g.shared_registers.isenabler (n / 32 - 1) (bit_or r (2 ^ (n % 32)));
  };
}

enable-private :
    (n : ℕ) (m : Machine Gicd)
    → n ≤ 31
    → enable n m ≡ (ok tt, record m { shared = with_private n m.shared })
unfolding enable with_private
enable-private n m small = rw (le→leb n 31 small) refl

enable-shared :
    (n r : ℕ) (m : Machine Gicd)
    → leb n 31 ≡ false
    → get_elem? m.shared.shared_registers.isenabler (n / 32 - 1) ≡ some r
    → enable n m ≡ (ok tt, record m { shared = with_shared n r m.shared })
unfolding enable with_shared
enable-shared n r m large h =
    let inner =
      set_bit-inside (n / 32 - 1) (2 ^ (n % 32)) r m.shared.shared_registers.isenabler h in
    rw large (
      lock_lem (on_shared_registers (on_isenabler (set_bit (n / 32 - 1) (2 ^ (n % 32))))) m
        (rw inner tt)
      ∙ rw inner refl)

private-enabled :
    (n k : ℕ) (g : Gicd)
    → n ≤ 31
    → enabled (with_private n g) k ≡ (if n == k then 1 else enabled g k)
unfolding with_private
private-enabled n k g small = elim (Bool-cases (leb k 31)) [
  | inl e ↦ rw e (with_bit g.banked_registers.isenabler (n % 32) (k % 32) ∙ ground arith)
  | inr e ↦ rw e (ground arith)
]

shared-enabled :
    (n k r : ℕ) (g : Gicd)
    → leb n 31 ≡ false
    → n / 32 - 1 < length g.shared_registers.isenabler
    → get_elem? g.shared_registers.isenabler (n / 32 - 1) ≡ some r
    → enabled (with_shared n r g) k ≡ (if n == k then 1 else enabled g k)
unfolding with_shared
shared-enabled n k r g large small h = elim (Bool-cases (leb k 31)) [
  | inl e ↦ rw e (ground arith)
  | inr e ↦ rw e (
      isenabler_bit-set (n / 32 - 1) (n % 32) r (k / 32 - 1) (k % 32) g.shared_registers.isenabler h
        small
      ∙ joined (Bool-cases (n / 32 - 1 == k / 32 - 1)) e)
]
  where
    index : ℕ → Option ℕ
    index i = get_elem? g.shared_registers.isenabler i

    old :
        (n / 32 - 1 == k / 32 - 1) ≡ true
        → isenabler_bit (index (k / 32 - 1)) (k % 32) ≡ bit r (k % 32)
    old c =
        ap (λ (i : ℕ). isenabler_bit (index i) (k % 32))
          (sym ((==_iff (n / 32 - 1) (k / 32 - 1)).0 c))
        ∙ ap (λ (o : Option ℕ). isenabler_bit o (k % 32)) h

    joined :
        ((n / 32 - 1 == k / 32 - 1) ≡ true) ⊎ ((n / 32 - 1 == k / 32 - 1) ≡ false)
        → leb k 31 ≡ false
        → (if n / 32 - 1 == k / 32 - 1
            then (if n % 32 == k % 32 then 1 else bit r (k % 32))
            else isenabler_bit (index (k / 32 - 1)) (k % 32))
          ≡ (if n == k then 1 else isenabler_bit (index (k / 32 - 1)) (k % 32))
    joined (inl c) e = rw (old c) (ground arith)
    joined (inr c) e = ground arith

-- `enable` of any interrupt number that the 31 shared registers and the banked one cover (so of
-- every `IRQNumber`) does not panic and sets the architecture's enable bit of that interrupt and of
-- no other one; the interrupt mask and the kernel's state are what they were.
pub enable_lem :
    (n : ℕ) (m : Machine Gicd)
    → n < 1024
    → length m.shared.shared_registers.isenabler ≡ 31
    → ((enable n m).0 ≡ ok tt)
      × ((k : ℕ) → enabled (enable n m).1.shared k ≡ (if n == k then 1 else enabled m.shared k))
      × ((enable n m).1.daif ≡ m.daif)
      × ((enable n m).1.kernel_state ≡ m.kernel_state)
enable_lem n m bound whole = elim (Bool-cases (leb n 31)) [
  | inl e ↦
      let step = enable-private n m (leb→le n 31 e) in
      rw step (refl, λ k. private-enabled n k m.shared (leb→le n 31 e), refl, refl)
  | inr e ↦
      let index : n / 32 - 1 < length m.shared.shared_registers.isenabler = ground arith in
      let (r, h) = get_elem?_lt m.shared.shared_registers.isenabler (n / 32 - 1) index in
      rw (enable-shared n r m e h) (refl, λ k. shared-enabled n k r m.shared e index h, refl, refl)
]
