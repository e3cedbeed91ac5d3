-- ===== src/Mmu/Kernel/Mmio.antt =====
-- `kernel_map_mmio`: a device that is already mapped is shared, any other gets the next free pages.
use rp4os.Base.{
  ℕ, ◌+◌, ◌%◌, ◌^◌, ◌≤◌, ◌<◌, ◌≡◌, refl, false, String, arith, ◌==◌, none, some, u64_mod, set,
}
use rp4os.Base.Bits.{bit_and-low}
use rp4os.Base.Outcome.{ok}
use rp4os.Registers.{Tock}
use rp4os.Memory.Address.{ms_kernel, address_add, offset_into_page}
use rp4os.Sync.{Machine, lock}
use rp4os.Sync.Locks.{lock_lem, Returns}
use rp4os.Mmu.Region.{MemoryRegion, MmioDescriptor, IsRegion, pages, region_from_descriptor}
use rp4os.Mmu.Region.Split.{num_pages_lem, left_part, right_part}
use rp4os.Mmu.PageAlloc.{PageAllocator, alloc}
use rp4os.Mmu.PageAlloc.Tiling.{alloc_front}
use rp4os.Mmu.Table.{TranslationTable, map_at}
use rp4os.Mmu.Records.{MappingRecordEntry, Slots, try_add_user}
use rp4os.Mmu.Records.Slots.{filled}
use rp4os.Mmu.Records.Users.{NoneDescribes, First, with_user, try_add_user-none, try_add_user-First}
use rp4os.Mmu.Kernel.{
  KernelMmu, num_tables, kernel_map_mmio, map_new_device, device_attributes,
  kernel_try_add_device_record_mmio_user, on_records, on_allocator,
}
use rp4os.Mmu.Kernel.Setup.{
  Ready, write_ready, with_tables, with_records, recorded, unchecked_success,
}

pub offset_lem : (addr : ℕ) → offset_into_page addr ≡ addr % ms_kernel
unfolding offset_into_page
offset_lem addr = bit_and-low 16 addr

-- A page below the end of the address space takes any offset.
pub address_add-offset :
    (page addr : ℕ)
    → page % ms_kernel ≡ 0
    → page < u64_mod
    → address_add page (offset_into_page addr) ≡ ok (page + addr % ms_kernel)
unfolding address_add
address_add-offset page addr a fits = rw (offset_lem addr) (ground arith)

abbrev pub with_allocator : Machine KernelMmu → PageAllocator → Machine KernelMmu
with_allocator m allocator = record m { shared = record shared { mmio_va_allocator = allocator } }
  where
    open m use {shared}

module _ (tock : Tock) (name : String) (desc : MmioDescriptor) (phys : MemoryRegion)
    (p : IsRegion phys) (from : region_from_descriptor desc ≡ ok phys) (m : Machine KernelMmu)
    (ready : Ready m) where
  -- The records after the first record that describes the memory took the user.
  abbrev pub with_new_user : ℕ → MappingRecordEntry → Slots
  with_new_user i e = filled (set ready.records.entries i (with_user name e)) ready.records.free

  try_add_user_known :
      (i : ℕ) (e : MappingRecordEntry)
      → First phys ready.records.entries i e
      → kernel_try_add_device_record_mmio_user name desc m
        ≡ (ok (some e.virt_start_addr), with_records m (with_new_user i e))
  unfolding kernel_try_add_device_record_mmio_user
  try_add_user_known i e f =
      rw (from, write_ready (on_records (try_add_user name phys)) m ready.init_phase ready.masked)
        (rw
          (
            ready.records.shape,
            try_add_user-First phys p name ready.records.entries ready.records.free i e f,
          )
          refl)

  -- In the init phase with IRQs masked and the tables initialized, for a device whose pages a
  -- record describes: the answer is the first such record's address plus the offset into the
  -- page, the record takes the user, and nothing else changes.
  pub kernel_map_mmio_known :
      (i : ℕ) (e : MappingRecordEntry)
      → First phys ready.records.entries i e
      → kernel_map_mmio tock name desc m ≡ (
        address_add e.virt_start_addr (offset_into_page desc.start_addr),
        with_records m (with_new_user i e),
      )
  unfolding kernel_map_mmio
  kernel_map_mmio_known i e f = rw (from, try_add_user_known i e f) refl

  try_add_user_unknown :
      NoneDescribes phys ready.records.entries
      → kernel_try_add_device_record_mmio_user name desc m ≡ (ok none, m)
  unfolding kernel_try_add_device_record_mmio_user
  try_add_user_unknown fresh =
      rw (from, write_ready (on_records (try_add_user name phys)) m ready.init_phase ready.masked)
        (rw
          (
            ready.records.shape,
            try_add_user-none phys p name ready.records.entries ready.records.free fresh,
          )
          refl)

  pub kernel_map_mmio_unknown :
      NoneDescribes phys ready.records.entries
      → (addr : ℕ) (after : Machine KernelMmu) → map_new_device tock name phys m ≡ (ok addr, after)
      → kernel_map_mmio tock name desc m
        ≡ (address_add addr (offset_into_page desc.start_addr), after)
  unfolding kernel_map_mmio
  kernel_map_mmio_unknown fresh addr after e =
      let unknown : kernel_try_add_device_record_mmio_user name desc m ≡ (ok none, m) =
        try_add_user_unknown fresh in
      rw (from, unknown, e) refl

  -- The front pages of the pool, which keeps the rest.
  alloc_taken :
      (pool : MemoryRegion)
      → m.shared.mmio_va_allocator ≡ record { pool = some pool }
      → IsRegion pool
      → pages phys < 2 ^ 63
      → pages phys ≤ pages pool
      → lock (on_allocator (alloc (pages phys))) m ≡ (
        ok (left_part (pages phys) pool),
        with_allocator m (record { pool = some (right_part (pages phys) pool) }),
      )
  alloc_taken pool has q small room =
      let front : alloc (pages phys) m.shared.mmio_va_allocator ≡ (
        ok (left_part (pages phys) pool),
        record { pool = some (right_part (pages phys) pool) },
      ) =
        rw has (alloc_front pool (pages phys) q small room) in
      let back : Returns (alloc (pages phys) m.shared.mmio_va_allocator).0 = rw front tt in
      rw (lock_lem (on_allocator (alloc (pages phys))) m back, front) refl

  -- The pool is split and its front pages are mapped, recorded and handed out.
  pub map_new_device_success :
      (pool : MemoryRegion) (tables : TranslationTable)
      → m.shared.mmio_va_allocator ≡ record { pool = some pool }
      → IsRegion pool
      → 0 < pages phys
      → pages phys ≤ pages pool
      → map_at tock num_tables (left_part (pages phys) pool) phys device_attributes m.shared.tables
        ≡ (ok tt, tables)
      → map_new_device tock name phys m ≡ (
        ok pool.start_page,
        with_records
            (with_tables
              (with_allocator m (record { pool = some (right_part (pages phys) pool) }))
              tables)
            (recorded tock name (left_part (pages phys) pool) phys device_attributes m ready),
      )
  unfolding map_new_device
  map_new_device_success pool tables has q some_pages room mapped =
      let taken = alloc_taken pool has q (omega (arith, p.end_fits)) room in
      let test : (pages phys == 0) ≡ false = ground arith in
      let m' : Machine KernelMmu =
        with_allocator m (record { pool = some (right_part (pages phys) pool) }) in
      let ready' : Ready m' = record {
        init_phase = ready.init_phase;
        masked = ready.masked;
        initialized = ready.initialized;
        records = ready.records;
      } in
      rw
        (
          num_pages_lem phys p,
          test,
          taken,
          unchecked_success tock name (left_part (pages phys) pool) phys device_attributes m' ready'
              tables p mapped,
        )
        refl
