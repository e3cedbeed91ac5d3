-- ===== src/Mmu/Records/Adding.antt =====
-- `add` on records that are filled from the front and sorted.
use mathlib.Core.List.{Perm}
use rp4os.Base.{
  ℕ, zero, suc, ◌+◌, ◌≡◌, refl, ap, ◌⊎◌, inl, inr, String, List, [], ◌∷◌, ◌++◌, length, arith,
  length-append, none, some,
}
use rp4os.Base.Outcome.{ok, err}
use rp4os.Mmu.Region.{MemoryRegion, IsRegion, pages}
use rp4os.Mmu.Region.Split.{num_pages_lem}
use rp4os.Mmu.Descriptor.{AttributeFields}
use rp4os.Mmu.Records.{MappingRecordEntry, Slots, max_mappings, add, new_entry, empty}
use rp4os.Mmu.Records.Sorting.{
  Sorted, sorted_entries, sorted_entries-Sorted, sorted_entries-perm, length-sorted_entries,
}
use rp4os.Mmu.Records.Slots.{
  filled, find_next_free-full, find_next_free-free, set-filled, sort-filled,
}

-- 20 slots, the filled ones first and sorted by virtual address.
pub record IsRecords (slots : Slots) : Type 0 where
  pub entries : List MappingRecordEntry
  pub free : ℕ
  pub shape : slots ≡ filled entries free
  pub capacity : length entries + free ≡ max_mappings
  pub sorted : Sorted entries

pub empty-IsRecords : IsRecords empty
unfolding empty
empty-IsRecords = record {
  entries = [];
  free = max_mappings;
  shape = refl;
  capacity = refl;
  sorted = tt;
}

abbrev pub entry_of : String → MemoryRegion → MemoryRegion → AttributeFields → MappingRecordEntry
entry_of name virt_region phys_region attr = record {
  users = some name ∷ none ∷ none ∷ none ∷ none ∷ [];
  phys_start_addr = phys_region.start_page;
  virt_start_addr = virt_region.start_page;
  num_pages = pages phys_region;
  attribute_fields = attr;
}

module _ (name : String) (virt_region phys_region : MemoryRegion) (attr : AttributeFields) where
  pub add-full :
      (es : List MappingRecordEntry)
      → add name virt_region phys_region attr (filled es 0)
        ≡ (err "Storage for mapping info exhausted", filled es 0)
  unfolding add
  add-full es = rw (find_next_free-full es) refl

  pub add-free :
      (es : List MappingRecordEntry) (k : ℕ)
      → IsRegion phys_region
      → add name virt_region phys_region attr (filled es (suc k))
        ≡ (ok tt, filled (sorted_entries (es ++ entry_of name virt_region phys_region attr ∷ [])) k)
  unfolding add new_entry
  add-free es k p =
      rw
        (
          find_next_free-free es k,
          num_pages_lem phys_region p,
          set-filled es k (entry_of name virt_region phys_region attr),
        )
        (sort-filled (es ++ entry_of name virt_region phys_region attr ∷ []) k)

  pub added-shape :
      (slots : Slots) (es : List MappingRecordEntry) (k : ℕ)
      → slots ≡ filled es (suc k)
      → IsRegion phys_region
      → (add name virt_region phys_region attr slots).1
        ≡ filled (sorted_entries (es ++ entry_of name virt_region phys_region attr ∷ [])) k
  added-shape slots es k e p = rw e (ap (λ r. r.1) (add-free es k p))

  -- On well-formed records (20 slots, the filled ones first and sorted): with a slot free,
  -- `add` keeps them well-formed, and they hold the old entries and the new one, each once;
  -- with none free, it reports that and changes nothing.
  pub add-IsRecords :
      (slots : Slots) (r : IsRecords slots)
      → IsRegion phys_region
      → ((r.free ≡ 0)
          × (add name virt_region phys_region attr slots
              ≡ (err "Storage for mapping info exhausted", slots)))
        ⊎ ((after : Slots) × (add name virt_region phys_region attr slots ≡ (ok tt, after))
            × (r' : IsRecords after) × Perm r'.entries
                (r.entries ++ entry_of name virt_region phys_region attr ∷ [])
            × (r.free ≡ suc r'.free))
  add-IsRecords slots r p = by_room r.free refl
    where
      new : List MappingRecordEntry
      new = r.entries ++ entry_of name virt_region phys_region attr ∷ []

      by_room :
          (k : ℕ)
          → r.free ≡ k
          → ((k ≡ 0)
              × (add name virt_region phys_region attr slots
                  ≡ (err "Storage for mapping info exhausted", slots)))
            ⊎ ((after : Slots) × (add name virt_region phys_region attr slots ≡ (ok tt, after))
                × (r' : IsRecords after) × Perm r'.entries
                    (r.entries ++ entry_of name virt_region phys_region attr ∷ [])
                × (k ≡ suc r'.free))
      by_room zero e = inl (refl, rw (r.shape, e) (add-full r.entries))
      by_room (suc k) e = inr (
        filled (sorted_entries new) k,
        rw (r.shape, e) (add-free r.entries k p),
        record {
          entries = sorted_entries new;
          free = k;
          shape = refl;
          capacity = omega (
            arith,
            r.capacity,
            e,
            length-sorted_entries new,
            length-append r.entries (entry_of name virt_region phys_region attr ∷ []),
          );
          sorted = sorted_entries-Sorted new;
        },
        sorted_entries-perm new,
        refl,
      )
