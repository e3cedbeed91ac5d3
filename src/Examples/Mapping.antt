-- ===== src/Examples/Mapping.antt =====
-- The translation tables at the heap's two pages.
use rp4os.Base.{ℕ, ◌*◌, ◌≡◌, refl, true, false, arith, if◌then◌else◌, ◌==◌}
use rp4os.Base.Outcome.{ok, err}
use rp4os.Registers.Concrete.{concrete}
use rp4os.Memory.Address.{ms_kernel}
use rp4os.Mmu.Descriptor.{AttributeFields, output_addr, new_zeroed, is_valid, try_attributes}
use rp4os.Mmu.Descriptor
use rp4os.Mmu.Descriptor.Bits.{
  new-Reads, Reads, try_attributes-new, new-is_valid, new_zeroed-is_valid,
}
use rp4os.Mmu.Table.{TranslationTable, map_at, try_page_attributes}
use rp4os.Mmu.Table.Index.{lvl3_of}
use rp4os.Mmu.Table.Mapping.{Unmapped, Written, map_at_success, map_at_conflict}
use rp4os.Mmu.Table.Safety.{map_at-Keeps, Written-try_page_attributes}
use rp4os.Examples.{
  heap_phys, heap_virt, heap_phys-IsRegion, heap_virt-IsRegion, heap_attributes, code_attributes,
  empty_table,
}

abbrev pub empty_table-Unmapped : (n virt : ℕ) → Unmapped concrete n virt empty_table
empty_table-Unmapped n virt page aligned inside = new_zeroed-is_valid concrete

abbrev heap_mapped :
    (after : TranslationTable) × (map_at concrete 2 heap_virt heap_phys heap_attributes empty_table
      ≡ (ok tt, after))
    × Written concrete 2 heap_attributes 2 heap_phys.start_page heap_virt.start_page empty_table
        after
heap_mapped =
    map_at_success concrete 2 heap_attributes heap_virt heap_phys heap_virt-IsRegion
      heap_phys-IsRegion empty_table refl refl (omega arith) (omega arith) (omega arith)
      (empty_table-Unmapped 2 heap_virt.start_page)

-- The heap's second page is mapped already.
abbrev second_taken : TranslationTable
second_taken = record empty_table {
  lvl3 = λ i j.
      if j == 201 then Descriptor.new concrete (70 * ms_kernel) code_attributes else new_zeroed;
}

second_taken-Unmapped : Unmapped concrete 1 heap_virt.start_page second_taken
second_taken-Unmapped page aligned inside =
    let other : (lvl3_of page == 201) ≡ false = ground arith in
    rw other (new_zeroed-is_valid concrete)

map_at-Keeps_example :
    (map_at concrete 2 heap_virt heap_phys heap_attributes second_taken).1.lvl3 0 201
    ≡ Descriptor.new concrete (70 * ms_kernel) code_attributes
map_at-Keeps_example =
    map_at-Keeps concrete 2 (omega arith) heap_virt heap_phys heap_attributes second_taken 0 201
      (new-is_valid concrete (70 * ms_kernel) code_attributes)

map_at_conflict_example :
    (after : TranslationTable) × (map_at concrete 2 heap_virt heap_phys heap_attributes second_taken
      ≡ (err "Virtual page is already mapped", after))
    × Written concrete 2 heap_attributes 1 heap_phys.start_page heap_virt.start_page second_taken
        after
map_at_conflict_example =
    map_at_conflict concrete 2 heap_attributes heap_virt heap_phys heap_virt-IsRegion
      heap_phys-IsRegion second_taken refl 1 (omega arith) refl (omega arith) (omega arith)
      (omega arith) second_taken-Unmapped (new-is_valid concrete (70 * ms_kernel) code_attributes)

new-Reads_example : Reads concrete (64 * ms_kernel) code_attributes
new-Reads_example = new-Reads concrete (64 * ms_kernel) code_attributes

try_attributes-new_example :
    try_attributes concrete (Descriptor.new concrete (64 * ms_kernel) code_attributes)
    ≡ ok (record code_attributes { executable = false })
try_attributes-new_example = try_attributes-new concrete (64 * ms_kernel) code_attributes

Written-try_page_attributes_example :
    (try_page_attributes concrete 2 (201 * ms_kernel) heap_mapped.0).0
    ≡ ok (record heap_attributes { executable = true })
Written-try_page_attributes_example =
    Written-try_page_attributes concrete 2 (omega arith) heap_attributes heap_phys.start_page
      heap_virt.start_page 2 empty_table heap_mapped.0 heap_mapped.2 (201 * ms_kernel) refl
      (omega arith)
