-- ===== src/Memory/Address.antt =====
-- `Address` of src/memory/mod.rs. The address-space marker is a phantom type with no run-time
-- content and is dropped: an address is its `usize` value, below 2 ^ 64.
use rp4os.Base.{
  ℕ, zero, suc, ◌/◌, ◌%◌, ◌==◌, ◌-◌, ◌*◌, Bool, bit_and, checked_add, checked_sub, if◌then◌else◌,
}
use rp4os.Base.Outcome.{Outcome, unwrap}
use rp4os.Memory.Align.{is_aligned, align_down, align_up}

-- `trailing_zeros` of a number with at most `width` digits.
abbrev pub trailing_zeros : ℕ → ℕ → ℕ
trailing_zeros zero n = 0
trailing_zeros (suc width) n =
    let rest = trailing_zeros width (n / 2) in if n % 2 == 1 then 0 else suc rest

-- `MemorySize<SIZE>`, whose constants are evaluated at compile time.
abbrev pub granule_mask : ℕ → ℕ
granule_mask size = size - 1

abbrev pub granule_shift : ℕ → ℕ
granule_shift size = trailing_zeros 64 size

-- `MSKernel`, the translation granule, is `MS64KiB`.
abbrev pub ms_kernel : ℕ
ms_kernel = 64 * 1024

abbrev pub ms_64_kib : ℕ
ms_64_kib = 64 * 1024

abbrev pub ms_512_mib : ℕ
ms_512_mib = 512 * 1024 * 1024

unfoldable pub align_down_page : ℕ → Outcome ℕ
align_down_page addr = align_down addr ms_kernel

unfoldable pub align_up_page : ℕ → Outcome ℕ
align_up_page addr = align_up addr ms_kernel

unfoldable pub is_page_aligned : ℕ → Outcome Bool
is_page_aligned addr = is_aligned addr ms_kernel

unfoldable pub offset_into_page : ℕ → ℕ
offset_into_page addr = bit_and addr (granule_mask ms_kernel)

-- `Address + usize` and `Address - Address`: the checked operations, which panic.
unfoldable pub address_add : ℕ → ℕ → Outcome ℕ
address_add addr rhs = unwrap (checked_add addr rhs) "Overflow on Address::add"

unfoldable pub address_sub : ℕ → ℕ → Outcome ℕ
address_sub addr rhs = unwrap (checked_sub addr rhs) "Overflow on Address::sub"
