-- ===== src/Loader/Transfer.antt =====
-- The sender of boot_console/src/main.rs and the loader of kernelloader/main.rs together.
use native.Mathlib.Nat.{
  div-add-mod, div-eq_of_lt, mod-eq_of_lt, mul-div_left, mul-mod_left, one-le-pow,
}
use rp4os.Base.{
  ℕ, zero, suc, ◌+◌, ◌*◌, ◌/◌, ◌%◌, ◌^◌, ◌≤◌, ◌<◌, ◌≡◌, refl, ap, sym, ◌∙◌, bit_or, false, ◌==◌,
  some, List, [], ◌∷◌, ◌++◌, length, get_elem?, arith, ◌⊎◌, inl,
}
use rp4os.Base.Bits.{bit_or-div, bit_or-mod, zero-bit_or, bit_or-zero, bit_and-low}
use rp4os.Base.Outcome.{err}
use rp4os.Loader.{
  Memory, Loaded, kernel_load_start_signal, kernel_load_size_ack_signal, kernel_load_ack_signal,
  kernel_addr, write_volatile, wait_start, read_size, read_kernel, load, size_byte, send_kernel,
}

-- `|` of parts that do not overlap is their sum.
bit_or-disjoint : (k a b : ℕ) → a < 2 ^ k → bit_or a (b * 2 ^ k) ≡ a + b * 2 ^ k
bit_or-disjoint k a b small =
    let high : bit_or a (b * 2 ^ k) / 2 ^ k ≡ b =
      bit_or-div k a (b * 2 ^ k)
      ∙ rw (div-eq_of_lt {n = a} {m = 2 ^ k} small, mul-div_left b (one-le-pow k 2 (omega arith)))
          (zero-bit_or b) in
    let low : bit_or a (b * 2 ^ k) % 2 ^ k ≡ a =
      bit_or-mod k a (b * 2 ^ k)
      ∙ rw (mod-eq_of_lt {n = a} {m = 2 ^ k} small, mul-mod_left b (2 ^ k)) (bit_or-zero a) in
    joined (div-add-mod (bit_or a (b * 2 ^ k)) (2 ^ k)) high low
  where
    joined : {x q r : ℕ} → 2 ^ k * q + r ≡ x → q ≡ b → r ≡ a → x ≡ a + b * 2 ^ k
    joined e p q = sym e ∙ rw (p, q) (omega arith)

size_byte_lem : (len i : ℕ) → size_byte len i ≡ len / 2 ^ (8 * i) % 2 ^ 8
size_byte_lem len i = bit_and-low 8 (len / 2 ^ (8 * i))

-- The four bytes of a size are put together again.
size_bytes :
    (n b0 b1 b2 b3 : ℕ)
    → n < 2 ^ 32
    → b0 ≡ n % 2 ^ 8
    → b1 ≡ n / 2 ^ 8 % 2 ^ 8
    → b2 ≡ n / 2 ^ 16 % 2 ^ 8
    → b3 ≡ n / 2 ^ 24 % 2 ^ 8
    → bit_or (bit_or (bit_or b0 (b1 * 2 ^ 8)) (b2 * 2 ^ 16)) (b3 * 2 ^ 24) ≡ n
size_bytes n b0 b1 b2 b3 small e0 e1 e2 e3 =
    let one = bit_or-disjoint 8 b0 b1 (omega arith) in
    rw one (
      rw (bit_or-disjoint 16 (b0 + b1 * 2 ^ 8) b2 (omega arith))
        (bit_or-disjoint 24 (b0 + b1 * 2 ^ 8 + b2 * 2 ^ 16) b3 (omega arith) ∙ omega arith))

read_size_lem :
    (n : ℕ) (input : List ℕ)
    → n < 2 ^ 32
    → read_size (size_byte n 0 ∷ size_byte n 1 ∷ size_byte n 2 ∷ size_byte n 3 ∷ input)
      ≡ some (n, input)
unfolding read_size
read_size_lem n input small =
    ap (λ (x : ℕ). some (x, input))
      (size_bytes n (size_byte n 0 % 2 ^ 8) (size_byte n 1 % 2 ^ 8) (size_byte n 2 % 2 ^ 8)
        (size_byte n 3 % 2 ^ 8) small (omega (arith, size_byte_lem n 0))
        (omega (arith, size_byte_lem n 1)) (omega (arith, size_byte_lem n 2))
        (omega (arith, size_byte_lem n 3)))

-- Characters of which none is the start signal.
abbrev pub Quiet : List ℕ → Type 0
Quiet [] = Unit {0}
Quiet (c ∷ noise) = ((c % 2 ^ 8 == kernel_load_start_signal) ≡ false) × Quiet noise

wait_start-Quiet :
    (noise input : List ℕ)
    → Quiet noise
    → wait_start (noise ++ kernel_load_start_signal ∷ input) ≡ some input
unfolding wait_start
wait_start-Quiet [] input h = refl
wait_start-Quiet (c ∷ noise) input h = rw h.0 (wait_start-Quiet noise input h.1)

-- The memory after the bytes were stored from `addr` on.
stored : List ℕ → ℕ → Memory → Memory
stored [] addr memory = memory
stored (c ∷ kernel) addr memory = stored kernel (addr + 1) (write_volatile addr (c % 2 ^ 8) memory)

read_kernel_lem :
    (kernel more : List ℕ) (addr : ℕ) (memory : Memory)
    → read_kernel (length kernel) addr memory (kernel ++ more)
      ≡ some (stored kernel addr memory, more)
unfolding read_kernel stored
read_kernel_lem [] more addr memory = refl
read_kernel_lem (c ∷ kernel) more addr memory =
    read_kernel_lem kernel more (addr + 1) (write_volatile addr (c % 2 ^ 8) memory)

stored_outside :
    (kernel : List ℕ) (addr a : ℕ) (memory : Memory)
    → (a < addr) ⊎ (addr + length kernel ≤ a)
    → stored kernel addr memory a ≡ memory a
unfolding stored
stored_outside [] addr a memory h = refl
stored_outside (c ∷ kernel) addr a memory h =
    stored_outside kernel (addr + 1) a (write_volatile addr (c % 2 ^ 8) memory) (ground arith)
    ∙ ground arith

stored_inside :
    (kernel : List ℕ) (addr i b : ℕ) (memory : Memory)
    → get_elem? kernel i ≡ some b
    → stored kernel addr memory (addr + i) ≡ b % 2 ^ 8
unfolding stored
stored_inside [] addr i b memory h = absurd (ground arith)
stored_inside (c ∷ kernel) addr zero b memory h =
    stored_outside kernel (addr + 1) (addr + 0) (write_volatile addr (c % 2 ^ 8) memory)
      (inl (omega arith))
    ∙ ground arith
stored_inside (c ∷ kernel) addr (suc i) b memory h =
    let shift : addr + suc i ≡ addr + 1 + i = omega arith in
    rw shift (stored_inside kernel (addr + 1) i b (write_volatile addr (c % 2 ^ 8) memory) h)

abbrev pub Bytes : List ℕ → Type 0
Bytes kernel = (i b : ℕ) → get_elem? kernel i ≡ some b → b < 2 ^ 8

-- An image of fewer than 2 ^ 32 bytes that `send_kernel` sends, after any noise without a start
-- signal, is loaded byte for byte at the load address, no other memory changes, and the loader
-- takes no more of its input than was sent. The sender nevertheless reports a failure: its
-- buffer still holds the acknowledgement of the size when the last one is appended to it.
pub send_kernel-load :
    (kernel noise more : List ℕ) (memory : Memory)
    → Bytes kernel
    → Quiet noise
    → length kernel < 2 ^ 32
    → (loaded : Loaded) × (load memory
          (noise ++ ((send_kernel kernel loaded.size_reply loaded.reply).1 ++ more))
        ≡ some loaded)
      × ((i b : ℕ) → get_elem? kernel i ≡ some b → loaded.memory (kernel_addr + i) ≡ b)
      × ((a : ℕ)
          → (a < kernel_addr) ⊎ (kernel_addr + length kernel ≤ a)
          → loaded.memory a ≡ memory a)
      × (loaded.input ≡ more)
      × ((send_kernel kernel loaded.size_reply loaded.reply).0
          ≡ err "Did not receive responce to kernel successuf upload")
unfolding load send_kernel
send_kernel-load kernel noise more memory bytes quiet small = (
  record {
    memory = stored kernel kernel_addr memory;
    size_reply = kernel_load_size_ack_signal ∷ [];
    reply = kernel_load_ack_signal ∷ [];
    input = more;
  },
  rw
      (
        wait_start-Quiet noise _ quiet,
        read_size_lem (length kernel) (kernel ++ more) small,
        read_kernel_lem kernel more kernel_addr memory,
      )
      refl,
  λ i b at. stored_inside kernel kernel_addr i b memory at ∙ omega (arith, bytes i b at),
  λ a outside. stored_outside kernel kernel_addr a memory outside,
  refl,
  refl,
)
