-- ===== src/Examples/Transfer.antt =====
-- A kernel image of three bytes sent after one character of noise.
use rp4os.Base.{
  ℕ, zero, suc, ◌+◌, ◌≤◌, ◌<◌, ◌≡◌, refl, ◌⊎◌, some, List, [], ◌∷◌, ◌++◌, get_elem?, arith,
}
use rp4os.Base.Outcome.{err}
use rp4os.Loader.{Loaded, Memory, kernel_addr, load, send_kernel}
use rp4os.Loader.Transfer.{Bytes, send_kernel-load}

abbrev image : List ℕ
image = 200 ∷ 1 ∷ 3 ∷ []

abbrev cleared : Memory
cleared a = 0

image-Bytes : Bytes image
image-Bytes zero b h = ground arith
image-Bytes (suc zero) b h = ground arith
image-Bytes (suc (suc zero)) b h = ground arith
image-Bytes (suc (suc (suc i))) b h = absurd (ground arith)

send_kernel-load_example :
    (loaded : Loaded) × (load cleared
        (65 ∷ ((send_kernel image loaded.size_reply loaded.reply).1 ++ 66 ∷ []))
      ≡ some loaded)
    × ((i b : ℕ) → get_elem? image i ≡ some b → loaded.memory (kernel_addr + i) ≡ b)
    × ((a : ℕ) → (a < kernel_addr) ⊎ (kernel_addr + 3 ≤ a) → loaded.memory a ≡ 0)
    × (loaded.input ≡ 66 ∷ [])
    × ((send_kernel image loaded.size_reply loaded.reply).0
        ≡ err "Did not receive responce to kernel successuf upload")
send_kernel-load_example =
    send_kernel-load image (65 ∷ []) (66 ∷ []) cleared image-Bytes (refl, tt) (omega arith)
