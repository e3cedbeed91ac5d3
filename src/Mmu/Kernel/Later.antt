-- ===== src/Mmu/Kernel/Later.antt =====
-- Calls of `kernel_map_mmio` for pages that are recorded already, any number of them.
use rp4os.Base.{ℕ, ◌+◌, ◌%◌, ◌<◌, ◌≡◌, refl, ap, ◌∙◌, String, List, [], ◌∷◌, map, u64_mod}
use rp4os.Base.Outcome.{Outcome, ok}
use rp4os.Base.Exec.{Exec, pure, ◌>>=◌}
use rp4os.Registers.{Tock}
use rp4os.Memory.Address.{ms_kernel, address_add, offset_into_page}
use rp4os.Sync.{Machine}
use rp4os.Mmu.Region.{MemoryRegion, MmioDescriptor, IsRegion, region_from_descriptor}
use rp4os.Mmu.Records.{MappingRecordEntry}
use rp4os.Mmu.Records.Users.{First, used, with_user, with_user-virt}
use rp4os.Mmu.Records.Kept.{used-First}
use rp4os.Mmu.Kernel.{KernelMmu, kernel_map_mmio}
use rp4os.Mmu.Kernel.Setup.{Ready, with_records}
use rp4os.Mmu.Kernel.Mmio.{address_add-offset, kernel_map_mmio_known, with_new_user}

-- Users with the registers that they ask for.
abbrev pub Requests : Type 0
Requests = List (String × MmioDescriptor)

-- All of the registers lie on these pages.
abbrev pub OnPages : MemoryRegion → Requests → Type 0
OnPages phys [] = Unit {0}
OnPages phys ((name, desc) ∷ later) = (region_from_descriptor desc ≡ ok phys) × OnPages phys later

-- Where registers are when their first page is at `start`.
abbrev pub address_from : ℕ → String × MmioDescriptor → ℕ
address_from start (name, desc) = start + desc.start_addr % ms_kernel

module _ (tock : Tock) where
  -- One call after another, with the answers in order.
  unfoldable pub map_each : Requests → Exec (Machine KernelMmu) (List ℕ)
  map_each [] = pure []
  map_each ((name, desc) ∷ later) =
      kernel_map_mmio tock name desc >>= λ addr. map_each later >>= λ addrs. pure (addr ∷ addrs)

  module _ (phys : MemoryRegion) (p : IsRegion phys) (start : ℕ) (aligned : start % ms_kernel ≡ 0)
      (fits : start < u64_mod) where
    -- The answers come from the first record for the pages; only the records change.
    pub map_each-known :
        (requests : Requests) (m : Machine KernelMmu) (ready : Ready m) (i : ℕ)
        (e : MappingRecordEntry)
        → OnPages phys requests
        → First phys ready.records.entries i e
        → e.virt_start_addr ≡ start
        → (after : Machine KernelMmu) × (map_each requests m
            ≡ (ok (map (address_from start) requests), after))
          × (after.shared.tables ≡ m.shared.tables)
          × (after.shared.mmio_va_allocator ≡ m.shared.mmio_va_allocator)
    unfolding map_each
    map_each-known [] m ready i e on f at_start = (m, refl, refl, refl)
    map_each-known ((name, desc) ∷ later) m ready i e on f at_start =
        let next : Machine KernelMmu =
          with_records m (with_new_user tock name desc phys p on.0 m ready i e) in
        let ready' : Ready next = record {
          init_phase = ready.init_phase;
          masked = ready.masked;
          initialized = ready.initialized;
          records = used phys p name m.shared.records ready.records i e f;
        } in
        let known : kernel_map_mmio tock name desc m
            ≡ (ok (start + desc.start_addr % ms_kernel), next) =
          kernel_map_mmio_known tock name desc phys p on.0 m ready i e f
          ∙ ap (λ (o : Outcome ℕ). (o, next))
              (ap (λ (page : ℕ). address_add page (offset_into_page desc.start_addr)) at_start
                ∙ address_add-offset start desc.start_addr aligned fits) in
        let (after, answers, tables, allocator) =
          map_each-known later next ready' i (with_user name e) on.1
            (used-First phys name ready.records.entries i e f) (with_user-virt name e ∙ at_start) in
        (after, rw (known, answers) refl, tables, allocator)
