-- ===== src/Examples/Devices.antt =====
-- The UART and the GPIO at the start of the kernel.
use rp4os.Base.{ℕ, suc, ◌+◌, ◌*◌, ◌≤◌, ◌<◌, ◌≡◌, refl, arith, none, some, replicate, [], ◌∷◌, ◌⊎◌}
use mathlib.Core.List.{Perm}
use rp4os.Base.Outcome.{ok, err}
use rp4os.Registers.Concrete.{concrete}
use rp4os.Memory.Address.{ms_kernel}
use rp4os.Sync.{Machine}
use rp4os.Bsp.Layout.{LinkerSymbols}
use rp4os.Bsp.Layout
use rp4os.Bsp.Layout.Regions.{region_between_lem}
use rp4os.Mmu.Region.{MemoryRegion, IsRegion, region_from_descriptor}
use rp4os.Mmu.Region.Descriptors.{region_from_descriptor_lem, region_from_descriptor-covers}
use rp4os.Mmu.Region.Overlap.{Shared}
use rp4os.Mmu.PageAlloc.Tiling.{alloc_all, alloc_all-Tiles, Tiles}
use rp4os.Mmu.Records.{Slots, MappingRecordEntry, add, try_add_user, max_mappings}
use rp4os.Mmu.Records.Adding.{IsRecords, add-IsRecords, entry_of}
use rp4os.Mmu.Records.Users.{First, NoneDescribes, try_add_user-IsRecords}
use rp4os.Mmu.Kernel.{
  KernelMmu, kernel_map_mmio, kernel_map_at, kernel_map_at_unchecked, device_attributes,
}
use rp4os.Mmu.Kernel.Setup.{Ready, with_records}
use rp4os.Mmu.Kernel.Later.{map_each}
use rp4os.Mmu.Kernel.Sharing.{kernel_map_mmio_shared}
use rp4os.Mmu.Kernel.MapAt.{kernel_map_at_refuses, kernel_map_at_enclosing}
use rp4os.Examples.{
  region, mmio_region, mmio_region-IsRegion, uart_page, uart_page-IsRegion, heap_attributes, uart,
  gpio, at_start, at_start-Ready, no_records, heap_virt, heap_phys, heap_phys-IsRegion,
}
use rp4os.Examples.Mapping.{empty_table-Unmapped}

uart-region : region_from_descriptor uart ≡ ok uart_page
uart-region = region_from_descriptor_lem uart (omega arith) (omega arith)

gpio-region : region_from_descriptor gpio ≡ ok uart_page
gpio-region = region_from_descriptor_lem gpio (omega arith) (omega arith)

region_from_descriptor-covers_example :
    (pages_of : MemoryRegion) × (region_from_descriptor uart ≡ ok pages_of)
    × IsRegion pages_of
    × (pages_of.start_page ≤ 0xFE20_1000)
    × (0xFE20_1000 < pages_of.start_page + ms_kernel)
    × (0xFE20_1048 ≤ pages_of.end_page_exclusive)
    × (pages_of.end_page_exclusive < 0xFE20_1048 + ms_kernel)
region_from_descriptor-covers_example =
    region_from_descriptor-covers uart (omega arith) (omega arith)

-- The GPIO twice after the UART: one mapping, two addresses in it.
kernel_map_mmio_shared_example :
    (first last : Machine KernelMmu) × (kernel_map_mmio concrete "BCM PL011 UART" uart at_start
      ≡ (ok (mmio_region.start_page + 0x1000), first))
    × (map_each concrete (("BCM GPIO", gpio) ∷ ("again", gpio) ∷ []) first
        ≡ (ok (mmio_region.start_page ∷ mmio_region.start_page ∷ []), last))
    × (last.shared.tables ≡ first.shared.tables)
    × (last.shared.mmio_va_allocator ≡ first.shared.mmio_va_allocator)
kernel_map_mmio_shared_example =
    kernel_map_mmio_shared concrete "BCM PL011 UART" uart uart_page mmio_region uart_page-IsRegion
      mmio_region-IsRegion uart-region at_start at_start-Ready refl (omega arith) (omega arith)
      (omega arith) (omega arith) (empty_table-Unmapped 1 mmio_region.start_page) tt 19
      (("BCM GPIO", gpio) ∷ ("again", gpio) ∷ []) refl (gpio-region, (gpio-region, tt))

-- The GPIO's page is recorded by hand.
abbrev gpio_entry : MappingRecordEntry
gpio_entry = entry_of "BCM GPIO" mmio_region uart_page device_attributes

abbrev gpio_known : Machine KernelMmu
gpio_known = with_records at_start (some gpio_entry ∷ replicate 19 none)

abbrev gpio_records : IsRecords gpio_known.shared.records
gpio_records = record {
  entries = gpio_entry ∷ [];
  free = 19;
  shape = refl;
  capacity = refl;
  sorted = (tt, tt);
}

abbrev gpio_ready : Ready gpio_known
gpio_ready = record { init_phase = refl; masked = refl; initialized = refl; records = gpio_records }

add-IsRecords_example :
    ((◌≡◌ {A = ℕ} 20 0)
      × (add "Kernel heap" heap_virt heap_phys heap_attributes (replicate max_mappings none)
          ≡ (err "Storage for mapping info exhausted", replicate max_mappings none)))
    ⊎ ((after : Slots) × (add "Kernel heap" heap_virt heap_phys heap_attributes
            (replicate max_mappings none)
          ≡ (ok tt, after))
        × (r' : IsRecords after) × Perm r'.entries
            (entry_of "Kernel heap" heap_virt heap_phys heap_attributes ∷ [])
        × (◌≡◌ {A = ℕ} 20 (suc r'.free)))
add-IsRecords_example =
    add-IsRecords "Kernel heap" heap_virt heap_phys heap_attributes (replicate max_mappings none)
      no_records heap_phys-IsRegion

try_add_user-IsRecords_example :
    IsRecords (try_add_user "BCM PL011 UART" uart_page gpio_known.shared.records).1
    × (((try_add_user "BCM PL011 UART" uart_page gpio_known.shared.records
            ≡ (ok none, gpio_known.shared.records))
          × NoneDescribes uart_page (gpio_entry ∷ []))
        ⊎ ((i : ℕ) × (e : MappingRecordEntry) × First uart_page (gpio_entry ∷ []) i e
            × ((try_add_user "BCM PL011 UART" uart_page gpio_known.shared.records).0
                ≡ ok (some e.virt_start_addr))))
try_add_user-IsRecords_example =
    try_add_user-IsRecords uart_page uart_page-IsRegion "BCM PL011 UART" gpio_known.shared.records
      gpio_records

alloc_all-Tiles_example :
    (free : MemoryRegion) × ((alloc_all (1 ∷ 200 ∷ 2 ∷ []) (record { pool = some mmio_region })).1
      ≡ record { pool = some free })
    × Tiles mmio_region.start_page
        (alloc_all (1 ∷ 200 ∷ 2 ∷ []) (record { pool = some mmio_region })).0
        free.start_page
    × (free.end_page_exclusive ≡ mmio_region.end_page_exclusive)
    × IsRegion free
alloc_all-Tiles_example =
    alloc_all-Tiles (1 ∷ 200 ∷ 2 ∷ []) mmio_region mmio_region-IsRegion
      (omega arith, omega arith, (omega arith, omega arith, (omega arith, omega arith, tt)))

-- A kernel whose code, data, heap and stack lie below page 16 and whose MMIO region is the pool.
abbrev symbols : LinkerSymbols
symbols = record {
  code_start = 8 * ms_kernel;
  code_end_exclusive = 10 * ms_kernel;
  data_start = 10 * ms_kernel;
  data_end_exclusive = 12 * ms_kernel;
  heap_start = 12 * ms_kernel;
  heap_end_exclusive = 16 * ms_kernel;
  mmio_remap_start = 16 * ms_kernel;
  mmio_remap_end_exclusive = 144 * ms_kernel;
  boot_core_stack_start = 0;
  boot_core_stack_end_exclusive = 8 * ms_kernel;
}

mmio_layout : Layout.virt_mmio_remap_region symbols ≡ ok mmio_region
unfolding Layout.virt_mmio_remap_region
mmio_layout =
    region_between_lem (16 * ms_kernel) (144 * ms_kernel) refl refl (omega arith) (omega arith)

-- Pages 140 to 150 reach into the MMIO region, pages 10 to 200 enclose it.
kernel_map_at_refuses_example :
    kernel_map_at concrete symbols "stray" (region 140 10) heap_phys heap_attributes at_start
    ≡ (err "Attempt to manually map into MMIO region", at_start)
kernel_map_at_refuses_example =
    kernel_map_at_refuses concrete symbols mmio_region mmio_region-IsRegion mmio_layout "stray"
      (region 140 10) heap_phys
      (record {
        start_aligned = refl;
        end_aligned = refl;
        ordered = omega arith;
        end_fits = omega arith;
      })
      (omega arith) heap_attributes at_start
      (140 * ms_kernel, refl, omega arith, omega arith, omega arith, omega arith)
      (λ e. omega (arith, e.0))

kernel_map_at_enclosing_example :
    (kernel_map_at concrete symbols "stray" (region 10 190) heap_phys heap_attributes at_start
      ≡ kernel_map_at_unchecked concrete "stray" (region 10 190) heap_phys heap_attributes at_start)
    × Shared mmio_region (region 10 190)
kernel_map_at_enclosing_example =
    kernel_map_at_enclosing concrete symbols mmio_region mmio_region-IsRegion mmio_layout "stray"
      (region 10 190) heap_phys
      (record {
        start_aligned = refl;
        end_aligned = refl;
        ordered = omega arith;
        end_fits = omega arith;
      })
      (omega arith) heap_attributes at_start (omega arith) (omega arith, omega arith)
