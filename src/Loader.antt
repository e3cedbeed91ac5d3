-- ===== src/Loader.antt =====
-- The transfer of a kernel image: the sender of boot_console/src/main.rs and the receiving side of
-- kernelloader/main.rs. A byte that has not arrived yet is waited for, so a run on too short an
-- input does not end: `none`.
pub mod Transfer
use rp4os.Base.{
  ℕ, zero, suc, ◌+◌, ◌*◌, ◌/◌, ◌%◌, ◌^◌, bit_or, bit_and, Bool, true, false, ◌&&◌, ◌==◌,
  if◌then◌else◌, Option, none, some, and_then, List, [], ◌∷◌, ◌++◌, length,
}
use rp4os.Base.Outcome.{Outcome, ok, err}

abbrev pub kernel_load_start_signal : ℕ
kernel_load_start_signal = 0x01

abbrev pub kernel_load_size_ack_signal : ℕ
kernel_load_size_ack_signal = 0x2

abbrev pub kernel_load_ack_signal : ℕ
kernel_load_ack_signal = 0x3

-- `board_default_load_addr`.
abbrev pub kernel_addr : ℕ
kernel_addr = 0x8_0000

abbrev pub Memory : Type 0
Memory = ℕ → ℕ

abbrev pub write_volatile : ℕ → ℕ → Memory → Memory
write_volatile addr byte memory a = if a == addr then byte else memory a

-- What `read_char` gives, and the input behind it.
abbrev pub read_char : List ℕ → Option (ℕ × List ℕ)
read_char [] = none
read_char (c ∷ input) = some (c % 2 ^ 8, input)

-- `while read_char() != KERNEL_LOAD_START_SIGNAL {}`
pub wait_start : List ℕ → Option (List ℕ)
wait_start [] = none
wait_start (c ∷ input) =
    let later = wait_start input in
    if c % 2 ^ 8 == kernel_load_start_signal then some input else later

-- The size, its lowest byte first, as a `u32`.
unfoldable pub read_size : List ℕ → Option (ℕ × List ℕ)
read_size input = and_then (read_char input) λ (b0, input).
    and_then (read_char input) λ (b1, input). and_then (read_char input) λ (b2, input).
      and_then (read_char input) λ (b3, input).
        some (bit_or (bit_or (bit_or b0 (b1 * 2 ^ 8)) (b2 * 2 ^ 16)) (b3 * 2 ^ 24), input)

-- The loop that stores the image, from its byte at `addr` on.
pub read_kernel : ℕ → ℕ → Memory → List ℕ → Option (Memory × List ℕ)
read_kernel zero addr memory input = some (memory, input)
read_kernel (suc count) addr memory [] = none
read_kernel (suc count) addr memory (c ∷ input) =
    read_kernel count (addr + 1) (write_volatile addr (c % 2 ^ 8) memory) input

pub record Loaded : Type 0 where
  pub memory : Memory
  -- What the loader has sent: to the size, and to the whole image.
  pub size_reply : List ℕ
  pub reply : List ℕ
  pub input : List ℕ

-- `kernel_main` of the loader, up to its jump to the image.
unfoldable pub load : Memory → List ℕ → Option Loaded
unfolding wait_start read_kernel
load memory input = and_then (wait_start input) λ input. and_then (read_size input) λ (size, input).
    and_then (read_kernel size kernel_addr memory input) λ (memory, input). some (record {
      memory = memory;
      size_reply = kernel_load_size_ack_signal ∷ [];
      reply = kernel_load_ack_signal ∷ [];
      input = input;
    })

-- The size's bytes in the order of the loop.
abbrev pub size_byte : ℕ → ℕ → ℕ
size_byte len i = bit_and (len / 2 ^ (8 * i)) 0xFF

abbrev pub size_message : List ℕ → List ℕ
size_message kernel =
    kernel_load_start_signal
    ∷ size_byte (length kernel) 0
    ∷ size_byte (length kernel) 1
    ∷ size_byte (length kernel) 2
    ∷ size_byte (length kernel) 3
    ∷ []

-- `buff == [signal]`
abbrev pub is_signal : ℕ → List ℕ → Bool
is_signal signal [] = false
is_signal signal (c ∷ []) = c == signal
is_signal signal (c ∷ d ∷ buff) = false

-- `send_kernel`, with what the two reads of the serial line give; `read_to_end` appends to the
-- buffer. The second component is what was sent.
unfoldable pub send_kernel : List ℕ → List ℕ → List ℕ → Outcome (Unit {0}) × List ℕ
send_kernel kernel first_read second_read =
    let buff = [] ++ first_read in
    let buff' = buff ++ second_read in
    if is_signal kernel_load_size_ack_signal buff
    then (if is_signal kernel_load_ack_signal buff'
        then (ok tt, size_message kernel ++ kernel)
        else (
          err "Did not receive responce to kernel successuf upload",
          size_message kernel ++ kernel,
        ))
    else (err "Did not receive responce to kernel size", size_message kernel)
