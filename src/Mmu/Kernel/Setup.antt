-- ===== src/Mmu/Kernel/Setup.antt =====
-- The state in which the kernel maps memory, and the shared part of its mapping calls.
use rp4os.Base.{◌≡◌, refl, true, String, arith}
use rp4os.Base.Outcome.{ok, err}
use rp4os.Base.Exec.{Exec}
use rp4os.Registers.{Tock}
use rp4os.Sync.{Machine, write, on_shared}
use rp4os.Sync.Locks.{write_lem}
use rp4os.Mmu.Region.{MemoryRegion, IsRegion}
use rp4os.Mmu.Descriptor.{AttributeFields}
use rp4os.Mmu.Table.{TranslationTable, map_at}
use rp4os.Mmu.Records.{Slots}
use rp4os.Mmu.Records
use rp4os.Mmu.Records.Adding.{IsRecords, add-IsRecords}
use rp4os.Mmu.Kernel.{KernelMmu, num_tables, kernel_map_at_unchecked}

-- The init phase with IRQs masked and the tables initialized.
pub record Ready (m : Machine KernelMmu) : Type 0 where
  pub init_phase : m.kernel_state ≡ 0
  pub masked : m.daif.i ≡ true
  pub initialized : m.shared.tables.initialized ≡ true
  pub records : IsRecords m.shared.records

pub write_ready :
    {A : Type 0} (f : Exec KernelMmu A) (m : Machine KernelMmu)
    → m.kernel_state ≡ 0
    → m.daif.i ≡ true
    → write f m ≡ on_shared f m
write_ready f m init masked = ground (arith, write_lem f m)

abbrev pub with_tables : Machine KernelMmu → TranslationTable → Machine KernelMmu
with_tables m tables = record m { shared = record shared { tables = tables } }
  where
    open m use {shared}

abbrev pub with_records : Machine KernelMmu → Slots → Machine KernelMmu
with_records m records = record m { shared = record shared { records = records } }
  where
    open m use {shared}

module _ (tock : Tock) (name : String) (virt_region phys_region : MemoryRegion)
    (attr : AttributeFields) (m : Machine KernelMmu) (ready : Ready m) where
  abbrev pub recorded : Slots
  recorded = (Records.add name virt_region phys_region attr m.shared.records).1

  -- The tables first; a full record array is only warned about.
  pub unchecked_success :
      (after : TranslationTable)
      → IsRegion phys_region
      → map_at tock num_tables virt_region phys_region attr m.shared.tables ≡ (ok tt, after)
      → kernel_map_at_unchecked tock name virt_region phys_region attr m
        ≡ (ok tt, with_records (with_tables m after) recorded)
  unfolding kernel_map_at_unchecked
  unchecked_success after p e =
      rw (write_ready _ m ready.init_phase ready.masked, e)
        (rw (write_ready _ (with_tables m after) ready.init_phase ready.masked) (
          ground (
            arith,
            add-IsRecords name virt_region phys_region attr m.shared.records ready.records p,
          )))

  -- When the tables refuse, nothing is recorded.
  pub unchecked_failure :
      (message : String) (after : TranslationTable)
      → map_at tock num_tables virt_region phys_region attr m.shared.tables ≡ (err message, after)
      → kernel_map_at_unchecked tock name virt_region phys_region attr m
        ≡ (err message, with_tables m after)
  unfolding kernel_map_at_unchecked
  unchecked_failure message after e = rw (write_ready _ m ready.init_phase ready.masked, e) refl
