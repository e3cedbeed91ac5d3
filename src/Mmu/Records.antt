-- ===== src/Mmu/Records.antt =====
-- The mapping records of src/memory/mmu/mapping_record.rs: 20 slots, sorted by virtual address.
pub mod Sorting
pub mod Slots
pub mod Adding
pub mod Users
pub mod Kept
use rp4os.Base.{
  ℕ, zero, suc, ◌+◌, Bool, true, false, ◌&&◌, Option, none, some, String, List, [], ◌∷◌, ◌++◌, map,
  leb, ◌==◌, if◌then◌else◌, set, get_elem?, replicate, refl, not,
}
use rp4os.Base.Lists.{take, drop}
use rp4os.Base.Outcome.{Outcome, ok, err, panic, unfinished}
use rp4os.Base.Outcome
use rp4os.Base.Exec.{Exec, lift, pure, get, put, fail_if, ◌>>=◌, ◌>>◌}
use rp4os.Mmu.Region.{MemoryRegion, MmioDescriptor, num_pages, region_from_descriptor}
use rp4os.Mmu.Descriptor.{AttributeFields, MemAttributes, cacheable_dram, device}

abbrev pub max_mappings : ℕ
max_mappings = 20

pub record MappingRecordEntry : Type 0 where
  pub users : List (Option String)
  pub phys_start_addr : ℕ
  pub virt_start_addr : ℕ
  pub num_pages : ℕ
  pub attribute_fields : AttributeFields

abbrev pub Slots : Type 0
Slots = List (Option MappingRecordEntry)

abbrev shift : Option ℕ → Option ℕ
shift none = none
shift (some i) = some (suc i)

-- `iter_mut().find(|x| x.is_none())`, as a position; for the records and for their users.
pub find_next_free {ℓ} : {A : Type ℓ} → List (Option A) → Option ℕ
find_next_free [] = none
find_next_free (none ∷ slots) = some 0
find_next_free (some a ∷ slots) = shift (find_next_free slots)

unfoldable pub new_entry :
    String → MemoryRegion → MemoryRegion → AttributeFields → Outcome MappingRecordEntry
new_entry name virt_region phys_region attr = Outcome.◌>>=◌ (num_pages phys_region) λ n.
    ok (record {
      users = some name ∷ none ∷ none ∷ none ∷ none ∷ [];
      phys_start_addr = phys_region.start_page;
      virt_start_addr = virt_region.start_page;
      num_pages = n;
      attribute_fields = attr;
    })

unfoldable pub add_user : String → Exec MappingRecordEntry (Unit {0})
unfolding find_next_free
add_user user = do
  entry ← get
  i ← lift (Outcome.ok_or (find_next_free entry.users) "Storage for user info exhausted")
  put (record entry { users = set entry.users i (some user) })

unfoldable pub empty : Slots
empty = replicate max_mappings none

abbrev count_some : Option MappingRecordEntry → ℕ → ℕ
count_some none n = n
count_some (some e) n = suc n

-- `size`: the filled slots, wherever they stand.
unfoldable pub size : Slots → ℕ
size [] = 0
size (slot ∷ slots) = count_some slot (size slots)

-- `item.unwrap()` over a slice.
unfoldable pub unwrap_all : Slots → Outcome (List MappingRecordEntry)
unwrap_all [] = ok []
unwrap_all (none ∷ slots) = panic "called `Option::unwrap()` on a `None` value"
unwrap_all (some e ∷ slots) = Outcome.◌>>=◌ (unwrap_all slots) λ entries. ok (e ∷ entries)

abbrev pub starts_below : ℕ → List MappingRecordEntry → Bool
starts_below key [] = true
starts_below key (e ∷ entries) = leb key e.virt_start_addr

-- `is_sorted_by_key`.
pub is_sorted : List MappingRecordEntry → Bool
is_sorted [] = true
is_sorted (e ∷ entries) = starts_below e.virt_start_addr entries && is_sorted entries

pub insert : MappingRecordEntry → List MappingRecordEntry → List MappingRecordEntry
insert e [] = e ∷ []
insert e (x ∷ entries) =
    if leb e.virt_start_addr x.virt_start_addr then e ∷ x ∷ entries else x ∷ insert e entries

-- `sort_unstable_by_key`; the order of equal keys, which the library leaves open, is one choice.
pub sort_by_key : List MappingRecordEntry → List MappingRecordEntry
sort_by_key [] = []
sort_by_key (e ∷ entries) = insert e (sort_by_key entries)

-- The unwrapped slice is sorted in place, before the slots behind it.
sort_slice : Outcome (List MappingRecordEntry) → Slots → Slots → Outcome (Unit {0}) × Slots
unfolding is_sorted sort_by_key insert
sort_slice (ok entries) rest slots =
    if is_sorted entries then (ok tt, slots) else (ok tt, map some (sort_by_key entries) ++ rest)
sort_slice (err e) rest slots = (err e, slots)
sort_slice (panic e) rest slots = (panic e, slots)
sort_slice unfinished rest slots = (unfinished, slots)

unfoldable pub sort : Exec Slots (Unit {0})
unfolding sort_slice
sort slots =
    let upper_bound_exclusive = size slots in
    sort_slice (unwrap_all (take upper_bound_exclusive slots)) (drop upper_bound_exclusive slots)
      slots

-- `MappingRecords::add`.
unfoldable pub add : String → MemoryRegion → MemoryRegion → AttributeFields → Exec Slots (Unit {0})
unfolding find_next_free
add name virt_region phys_region attr = do
  slots ← get
  i ← lift (Outcome.ok_or (find_next_free slots) "Storage for mapping info exhausted")
  entry ← lift (new_entry name virt_region phys_region attr)
  put (set slots i (some entry))
  sort

abbrev is_device : MemAttributes → Bool
is_device cacheable_dram = false
is_device device = true

-- The filters of `find_device_record` at one entry; the pages are compared last.
unfoldable pub is_device_record : MemoryRegion → MappingRecordEntry → Outcome Bool
is_device_record phys_region entry =
    if is_device entry.attribute_fields.mem_attributes
      && entry.phys_start_addr == phys_region.start_page
    then (Outcome.◌>>=◌ (num_pages phys_region) λ n. ok (entry.num_pages == n))
    else ok false

abbrev shifted : Outcome (Option ℕ) → Outcome (Option ℕ)
shifted (ok found) = ok (shift found)
shifted (err e) = err e
shifted (panic e) = panic e
shifted unfinished = unfinished

-- The position of the first record for the same device memory.
pub find_device_record : MemoryRegion → Slots → Outcome (Option ℕ)
unfolding is_device_record
find_device_record phys_region [] = ok none
find_device_record phys_region (none ∷ slots) = shifted (find_device_record phys_region slots)
find_device_record phys_region (some e ∷ slots) =
    let rest = shifted (find_device_record phys_region slots) in
    Outcome.◌>>=◌ (is_device_record phys_region e) λ same. if same then ok (some 0) else rest

-- The record found takes the new user, or a warning is printed, and its address is the answer.
use_record : ℕ → String → Option (Option MappingRecordEntry) → Exec Slots (Option ℕ)
unfolding add_user
use_record i user (some (some e)) slots =
    let r = add_user user e in (ok (some e.virt_start_addr), set slots i (some r.1))
use_record i user _ slots = (panic "unreachable", slots)

-- The closure of `kernel_try_add_device_record_mmio_user`.
unfoldable pub try_add_user : String → MemoryRegion → Exec Slots (Option ℕ)
unfolding find_device_record use_record
try_add_user new_user phys_region = do
  slots ← get
  found ← lift (find_device_record phys_region slots)
  elim found [ none ↦ pure none | some i ↦ use_record i new_user (get_elem? slots i) ]
