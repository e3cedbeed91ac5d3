-- ===== src/Mmu/Kernel/Section.antt =====
-- One section of the kernel binary, identity mapped by `kernel_map_at`.
use rp4os.Base.{
  ℕ, suc, ◌+◌, ◌-◌, ◌*◌, ◌≤◌, ◌<◌, ◌≡◌, refl, ◌∙◌, true, arith, ltb, leb, ◌&&◌, Bool-cases, inl,
  inr, if◌then◌else◌, none, some, String,
}
use rp4os.Base.Outcome.{ok}
use rp4os.Registers.{Tock}
use rp4os.Memory.Address.{ms_kernel, ms_512_mib}
use rp4os.Sync.{Machine, Daif}
use rp4os.Bsp.Layout.{LinkerSymbols, virt_mmio_remap_region}
use rp4os.Mmu.Region.{MemoryRegion, IsRegion, pages}
use rp4os.Mmu.Region.Overlap.{Shared}
use rp4os.Mmu.Descriptor.{AttributeFields, cacheable_dram}
use rp4os.Mmu.Table.{TranslationTable}
use rp4os.Mmu.Table.Mapping.{Unmapped, within, map_at_success}
use rp4os.Mmu.Table.Space.{Space}
use rp4os.Mmu.Table.Walk.{Running}
use rp4os.Mmu.Table.Translation.{with_run, Written-Running, same-Running, Running-Unmapped}
use rp4os.Mmu.PageAlloc.{PageAllocator}
use rp4os.Mmu.Records.Adding.{entry_of}
use rp4os.Mmu.Records.Kept.{added, added-NoneDescribes}
use rp4os.Mmu.Records.Users.{NoneDescribes}
use rp4os.Mmu.Kernel.{KernelMmu, num_tables, kernel_map_at}
use rp4os.Mmu.Kernel.Setup.{Ready, with_tables, with_records, recorded, unchecked_success}
use rp4os.Mmu.Kernel.MapAt.{kernel_map_at_passes}

-- The pages of a region, each at its own address.
abbrev pub identity : MemoryRegion → AttributeFields → Space → Space
identity region attr space page =
    if leb region.start_page page && ltb page region.end_page_exclusive
    then some (page, attr)
    else space page

-- No page of the region is in the space.
abbrev pub Free : MemoryRegion → Space → Type 0
Free region space =
    (page : ℕ) → region.start_page ≤ page → page < region.end_page_exclusive → space page ≡ none

module _ (tock : Tock) (region : MemoryRegion) (v : IsRegion region) where
  within_lem :
      (page : ℕ)
      → within region.start_page (pages region) page
        ≡ (leb region.start_page page && ltb page region.end_page_exclusive)
  within_lem page =
      let end : region.start_page + pages region * ms_kernel ≡ region.end_page_exclusive =
        omega (arith, v.start_aligned, v.end_aligned, v.ordered) in
      rw end refl

  Free-Unmapped :
      (base : ℕ) (space : Space) (table : TranslationTable)
      → Running tock num_tables base space table
      → Free region space
      → Unmapped tock (pages region) region.start_page table
  Free-Unmapped base space table run free =
      Running-Unmapped tock num_tables base (pages region) region.start_page space table run
        (λ page inside.
          let bounds : (leb region.start_page page && ltb page region.end_page_exclusive) ≡ true =
            rw (within_lem page) at inside in
          free page (ground arith) (ground arith))

  identity_run :
      (attr : AttributeFields) (space : Space) (page : ℕ)
      → identity region attr space page
        ≡ with_run (pages region) region.start_page region.start_page attr space page
  identity_run attr space page =
      rw (within_lem page)
        (elim (Bool-cases (leb region.start_page page && ltb page region.end_page_exclusive)) [
          | inl hit ↦
              let same : region.start_page + (page - region.start_page) ≡ page = ground arith in
              rw (hit, same) refl
          | inr miss ↦ rw miss refl
        ])

below_apart :
    (remap region : MemoryRegion)
    → region.end_page_exclusive ≤ remap.start_page
    → ¬ Shared remap region
below_apart remap region below (page, aligned, from, to, from', to') = omega arith

-- What mapping a section leaves alone.
abbrev pub rest_of : Machine KernelMmu → ℕ × Daif × PageAllocator
rest_of m = (m.kernel_state, m.daif, m.shared.mmio_va_allocator)

-- The kernel's tables stand at `base` and hold the space, `k` slots for records are left and none
-- describes a device; all else is as in `m`.
pub record Laying (tock : Tock) (base : ℕ) (space : Space) (k : ℕ) (m now : Machine KernelMmu)
    : Type 0 where
  pub ready : Ready now
  pub slots_left : ready.records.free ≡ k
  pub no_device : (q : MemoryRegion) → NoneDescribes q ready.records.entries
  pub run : Running tock num_tables base space now.shared.tables
  pub rest_same : rest_of now ≡ rest_of m

module _ (tock : Tock) (ld : LinkerSymbols) (remap : MemoryRegion) (r : IsRegion remap)
    (layout : virt_mmio_remap_region ld ≡ ok remap)
    (inside : remap.start_page ≤ num_tables * ms_512_mib) where
  -- A non-empty section below the MMIO region whose pages are free.
  pub kernel_map_at-Laying :
      (name : String) (region : MemoryRegion) (v : IsRegion region)
      → region.start_page < region.end_page_exclusive
      → region.end_page_exclusive ≤ remap.start_page
      → (attr : AttributeFields) → attr.mem_attributes ≡ cacheable_dram
      → (base : ℕ) (space : Space) (k : ℕ) (m now : Machine KernelMmu)
      → Laying tock base space (suc k) m now
      → Free region space
      → (after : Machine KernelMmu) × (kernel_map_at tock ld name region region attr now
          ≡ (ok tt, after))
        × Laying tock base (identity region attr space) k m after
  kernel_map_at-Laying name region v full below attr dram base space k m now l free =
      let (tables, e, w) =
        map_at_success tock num_tables attr region region v v now.shared.tables l.run.ready refl
          (omega arith) (omega arith) (omega arith)
          (Free-Unmapped tock region v base space now.shared.tables l.run free) in
      let after : Machine KernelMmu =
        with_records (with_tables now tables) (recorded tock name region region attr now l.ready) in
      (
        after,
        kernel_map_at_passes tock ld remap r layout name region region v full attr now
              (below_apart remap region below)
            ∙ unchecked_success tock name region region attr now l.ready tables v e,
        record {
          ready = record {
            init_phase = l.ready.init_phase;
            masked = l.ready.masked;
            initialized = w.initialized_same ∙ l.ready.initialized;
            records =
                added name region region attr now.shared.records l.ready.records k v l.slots_left;
          };
          slots_left = refl;
          no_device = λ q.
              added-NoneDescribes q l.ready.records.entries (entry_of name region region attr)
                (l.no_device q) (rw dram refl);
          run =
              same-Running tock num_tables base
                (with_run (pages region) region.start_page region.start_page attr space)
                (identity region attr space) tables (identity_run tock region v attr space)
                (Written-Running tock num_tables base attr (pages region) region.start_page
                  region.start_page space now.shared.tables tables l.run w);
          rest_same = l.rest_same;
        },
      )
