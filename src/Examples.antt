-- ===== src/Examples.antt =====
-- Concrete inputs on which the theorems are applied: a UART at 0xFE20_1000, a heap, and the statics
-- at the start of the kernel.
pub mod Mapping
mod Devices
mod Regions
mod Locks
pub mod Interrupts
mod Serial
mod Transfer
pub mod Boards
pub mod System
mod Start
mod Timing
mod Spaces
use rp4os.Base.{
  ℕ, Bool, true, false, ◌+◌, ◌*◌, ◌≡◌, refl, List, [], ◌∷◌, none, some, arith, replicate,
}
use rp4os.Base.Outcome.{ok}
use rp4os.Registers.Concrete.{concrete}
use rp4os.Sync.{Machine, Daif}
use rp4os.Memory.Address.{ms_kernel}
use rp4os.Mmu.Region.{MemoryRegion, MmioDescriptor, IsRegion}
use rp4os.Mmu.Descriptor.{
  AttributeFields, cacheable_dram, device, read_write, read_only, new_zeroed,
}
use rp4os.Mmu.Table.{TranslationTable}
use rp4os.Mmu.Records.{max_mappings}
use rp4os.Mmu.Records.Adding.{IsRecords}
use rp4os.Mmu.Kernel.{KernelMmu}
use rp4os.Mmu.Kernel.Setup.{Ready}

abbrev pub region : ℕ → ℕ → MemoryRegion
region start count = record {
  start_page = start * ms_kernel;
  end_page_exclusive = start * ms_kernel + count * ms_kernel;
}

-- The remap region for devices: 128 pages from page 16 on.
abbrev pub mmio_region : MemoryRegion
mmio_region = region 16 128

-- The page of the UART and the GPIO registers.
abbrev pub uart_page : MemoryRegion
uart_page = region 0xFE20 1

-- Two pages of memory, and where they are mapped.
abbrev pub heap_phys : MemoryRegion
heap_phys = region 64 2

abbrev pub heap_virt : MemoryRegion
heap_virt = region 200 2

pub mmio_region-IsRegion : IsRegion mmio_region
mmio_region-IsRegion = record {
  start_aligned = refl;
  end_aligned = refl;
  ordered = omega arith;
  end_fits = omega arith;
}

pub uart_page-IsRegion : IsRegion uart_page
uart_page-IsRegion = record {
  start_aligned = refl;
  end_aligned = refl;
  ordered = omega arith;
  end_fits = omega arith;
}

pub heap_phys-IsRegion : IsRegion heap_phys
heap_phys-IsRegion = record {
  start_aligned = refl;
  end_aligned = refl;
  ordered = omega arith;
  end_fits = omega arith;
}

pub heap_virt-IsRegion : IsRegion heap_virt
heap_virt-IsRegion = record {
  start_aligned = refl;
  end_aligned = refl;
  ordered = omega arith;
  end_fits = omega arith;
}

abbrev pub heap_attributes : AttributeFields
heap_attributes = record {
  mem_attributes = cacheable_dram;
  acc_perms = read_write;
  executable = false;
}

abbrev pub code_attributes : AttributeFields
code_attributes = record {
  mem_attributes = cacheable_dram;
  acc_perms = read_only;
  executable = true;
}

abbrev pub empty_table : TranslationTable
empty_table = record { lvl3 = λ i j. new_zeroed; lvl2 = 0 ∷ 0 ∷ []; initialized = true }

abbrev pub masked_daif : Daif
masked_daif = record { d = true; a = true; i = true; f = true }

-- The UART's registers and the GPIO's, on one page.
abbrev pub uart : MmioDescriptor
uart = record { start_addr = 0xFE20_1000; end_addr_exclusive = 0xFE20_1000 + 0x48 }

abbrev pub gpio : MmioDescriptor
gpio = record { start_addr = 0xFE20_0000; end_addr_exclusive = 0xFE20_0000 + 0xA0 }

abbrev pub at_start : Machine KernelMmu
at_start = record {
  kernel_state = 0;
  daif = masked_daif;
  shared = record {
    tables = empty_table;
    records = replicate max_mappings none;
    mmio_va_allocator = record { pool = some mmio_region };
  };
}

abbrev pub no_records : IsRecords (replicate max_mappings none)
no_records = record { entries = []; free = 20; shape = refl; capacity = refl; sorted = tt }

abbrev pub at_start-Ready : Ready at_start
at_start-Ready = record {
  init_phase = refl;
  masked = refl;
  initialized = refl;
  records = no_records;
}
