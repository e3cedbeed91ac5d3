-- ===== src/Mmu/Kernel.antt =====
-- The kernel's mapping calls of src/memory/mmu/mod.rs, mapping_record.rs and
-- src/bsp/memory/mmu.rs, over the three statics that they change behind their locks.
pub mod Setup
pub mod Mmio
pub mod Later
pub mod Sharing
pub mod MapAt
pub mod Section
pub mod Sections
pub mod Binary
use rp4os.Base.{ℕ, Bool, true, false, ◌==◌, Option, none, some, String}
use rp4os.Base.Outcome.{Outcome, ok, err, panic, unfinished}
use rp4os.Base.Exec.{Exec, lift, pure, fail_if, ◌>>=◌, ◌>>◌}
use rp4os.Registers.{Tock}
use rp4os.Memory.Address.{offset_into_page, address_add}
use rp4os.Sync.{Machine, write, lock, read}
use rp4os.Bsp.Layout.{
  LinkerSymbols, virt_mmio_remap_region, virt_heap_region, virt_code_region, virt_data_region,
  virt_boot_core_stack_region, kernel_virt_to_phys_region,
}
use rp4os.Mmu.Region.{MemoryRegion, MmioDescriptor, num_pages, overlaps, region_from_descriptor}
use rp4os.Mmu.PageAlloc.{PageAllocator}
use rp4os.Mmu.PageAlloc
use rp4os.Mmu.Descriptor.{AttributeFields, cacheable_dram, device, read_only, read_write}
use rp4os.Mmu.Table.{TranslationTable, map_at, phys_base_address}
use rp4os.Mmu.Table
use rp4os.Mmu.Records.{Slots, try_add_user}
use rp4os.Mmu.Records

pub record KernelMmu : Type 0 where
  pub tables : TranslationTable
  pub records : Slots
  pub mmio_va_allocator : PageAllocator

abbrev pub KernelExec : Type 0 → Type 0
KernelExec A = Exec (Machine KernelMmu) A

abbrev pub on_tables : {A : Type 0} → Exec TranslationTable A → Exec KernelMmu A
on_tables f k = let r = f k.tables in (r.0, record k { tables = r.1 })

abbrev pub on_records : {A : Type 0} → Exec Slots A → Exec KernelMmu A
on_records f k = let r = f k.records in (r.0, record k { records = r.1 })

abbrev pub on_allocator : {A : Type 0} → Exec PageAllocator A → Exec KernelMmu A
on_allocator f k = let r = f k.mmio_va_allocator in (r.0, record k { mmio_va_allocator = r.1 })

-- `if let Err(x) = … { warn!("{}", x) }`
abbrev warned : Outcome (Unit {0}) → Outcome (Unit {0})
warned (ok u) = ok u
warned (err e) = ok tt
warned (panic e) = panic e
warned unfinished = unfinished

abbrev pub warn_on_error : {S : Type 0} → Exec S (Unit {0}) → Exec S (Unit {0})
warn_on_error f s = let r = f s in (warned r.0, r.1)

-- The size of the kernel's address space, 1 GiB, in tables of 512 MiB.
abbrev pub num_tables : ℕ
num_tables = 2

unfoldable pub kernel_add_mapping_record :
    String → MemoryRegion → MemoryRegion → AttributeFields → KernelExec (Unit {0})
kernel_add_mapping_record name virt_region phys_region attr =
    write (on_records (Records.add name virt_region phys_region attr))

unfoldable pub kernel_try_add_device_record_mmio_user :
    String → MmioDescriptor → KernelExec (Option ℕ)
kernel_try_add_device_record_mmio_user new_user mmio_descriptor = do
  phys_region ← lift (region_from_descriptor mmio_descriptor)
  write (on_records (try_add_user new_user phys_region))

abbrev pub device_attributes : AttributeFields
device_attributes = record { mem_attributes = device; acc_perms = read_write; executable = false }

module _ (tock : Tock) where
  unfoldable pub kernel_map_at_unchecked :
      String → MemoryRegion → MemoryRegion → AttributeFields → KernelExec (Unit {0})
  unfolding kernel_add_mapping_record
  kernel_map_at_unchecked name virt_region phys_region attr = do
    write (on_tables (map_at tock num_tables virt_region phys_region attr))
    warn_on_error (kernel_add_mapping_record name virt_region phys_region attr)

  unfoldable pub kernel_map_at :
      LinkerSymbols → String → MemoryRegion → MemoryRegion → AttributeFields → KernelExec (Unit {0})
  kernel_map_at ld name virt_region phys_region attr = do
    remap ← lift (virt_mmio_remap_region ld)
    overlap ← lift (overlaps remap virt_region)
    fail_if overlap "Attempt to manually map into MMIO region"
    kernel_map_at_unchecked name virt_region phys_region attr

  -- The region allocated and mapped for a device that is not recorded yet.
  unfoldable pub map_new_device : String → MemoryRegion → KernelExec ℕ
  map_new_device name phys_region = do
    count ← lift (num_pages phys_region)
    fail_if (count == 0) "Requested 0 pages"
    virt_region ← lock (on_allocator (PageAlloc.alloc count))
    kernel_map_at_unchecked name virt_region phys_region device_attributes
    pure virt_region.start_page

  unfoldable pub kernel_map_mmio : String → MmioDescriptor → KernelExec ℕ
  kernel_map_mmio name mmio_descriptor = do
    phys_region ← lift (region_from_descriptor mmio_descriptor)
    known ← kernel_try_add_device_record_mmio_user name mmio_descriptor
    virt_addr ← elim known [ some addr ↦ pure addr | none ↦ map_new_device name phys_region ]
    lift (address_add virt_addr (offset_into_page mmio_descriptor.start_addr))

  -- `bsp::memory::mmu::kernel_map_binary`; the tables stand at `base`.
  unfoldable pub bsp_kernel_map_binary : LinkerSymbols → KernelExec (Unit {0})
  bsp_kernel_map_binary ld = do
    stack ← lift (virt_boot_core_stack_region ld)
    stack_phys ← lift (kernel_virt_to_phys_region stack)
    kernel_map_at ld "Kernel boot-core stack" stack stack_phys
        (record { mem_attributes = cacheable_dram; acc_perms = read_write; executable = false })
    heap ← lift (virt_heap_region ld)
    heap_phys ← lift (kernel_virt_to_phys_region heap)
    kernel_map_at ld "Kernel heap" heap heap_phys
        (record { mem_attributes = cacheable_dram; acc_perms = read_write; executable = false })
    code ← lift (virt_code_region ld)
    code_phys ← lift (kernel_virt_to_phys_region code)
    kernel_map_at ld "Kernel code and RO data" code code_phys
        (record { mem_attributes = cacheable_dram; acc_perms = read_only; executable = true })
    data_region ← lift (virt_data_region ld)
    data_phys ← lift (kernel_virt_to_phys_region data_region)
    kernel_map_at ld "Kernel data and bss" data_region data_phys
        (record { mem_attributes = cacheable_dram; acc_perms = read_write; executable = false })

  unfoldable pub init_tables : ℕ → Exec TranslationTable ℕ
  init_tables base tables = (ok (phys_base_address num_tables base), Table.init tock base tables)

  unfoldable pub kernel_map_binary : LinkerSymbols → ℕ → KernelExec ℕ
  kernel_map_binary ld base = do
    phys_kernel_tables_base_addr ← write (on_tables (init_tables base))
    bsp_kernel_map_binary ld
    pure phys_kernel_tables_base_addr

unfoldable pub kernel_init_mmio_va_allocator : LinkerSymbols → KernelExec (Unit {0})
kernel_init_mmio_va_allocator ld = do
  region ← lift (virt_mmio_remap_region ld)
  lock (on_allocator (λ allocator. (ok tt, PageAlloc.init region allocator)))
