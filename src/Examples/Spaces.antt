-- ===== src/Examples/Spaces.antt =====
-- Tables at 0x8_0000 that the kernel has initialized, and the heap mapped in them.
use rp4os.Base.{◌+◌, ◌*◌, ◌≡◌, refl, none, some, arith}
use rp4os.Registers.Concrete.{concrete}
use rp4os.Memory.Address.{ms_kernel, ms_512_mib}
use rp4os.Mmu.Table.{TranslationTable, init, map_at, phys_base_address}
use rp4os.Mmu.Table
use rp4os.Mmu.Table.Space.{Space, claim_region, claim_pages, Refines, map_at-Refines}
use rp4os.Mmu.Table.Walk.{Running, init-Running, walk}
use rp4os.Mmu.Table.Translation.{map_at-walk}
use rp4os.Examples.{heap_virt, heap_phys, heap_virt-IsRegion, heap_phys-IsRegion, heap_attributes}

abbrev tables : TranslationTable
tables = init concrete 0x8_0000 (Table.new 2)

abbrev unmapped : Space
unmapped page = none

abbrev running : Running concrete 2 0x8_0000 unmapped tables
running = init-Running concrete 2 0x8_0000 refl (omega arith)

map_at-Refines_example :
    Refines concrete 2
      (omega arith)
      (map_at concrete 2 heap_virt heap_phys heap_attributes tables)
      (claim_region (2 * ms_512_mib) heap_virt heap_phys heap_attributes unmapped)
map_at-Refines_example =
    map_at-Refines concrete 2 (omega arith) heap_virt heap_phys heap_virt-IsRegion
      heap_phys-IsRegion heap_attributes unmapped tables running.ready running.holds

-- A byte in the heap's second page.
map_at-walk_example :
    walk concrete 2
      (phys_base_address 2 0x8_0000)
      0x8_0000
      (map_at concrete 2 heap_virt heap_phys heap_attributes tables).1
      (201 * ms_kernel + 5)
    ≡ some (65 * ms_kernel + 5)
unfolding claim_region claim_pages
map_at-walk_example =
    map_at-walk concrete 2 (omega arith) heap_virt heap_phys heap_virt-IsRegion heap_phys-IsRegion
      heap_attributes 0x8_0000 unmapped tables running (201 * ms_kernel + 5) (omega arith)
