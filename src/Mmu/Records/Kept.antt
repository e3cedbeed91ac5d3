-- ===== src/Mmu/Records/Kept.antt =====
-- What the records do not describe, while entries are added and take users.
use rp4os.Base.{
  ℕ, zero, suc, ◌≡◌, refl, ap, sym, ◌∙◌, false, inl, inr, String, List, [], ◌∷◌, ◌++◌, arith,
  Bool-cases, leb, set, length-append,
}
use rp4os.Mmu.Region.{MemoryRegion, IsRegion}
use rp4os.Mmu.Descriptor.{AttributeFields}
use rp4os.Mmu.Records.{MappingRecordEntry, Slots, insert, sort_by_key, is_sorted, add, add_user}
use rp4os.Mmu.Records.Sorting.{sorted_entries, sorted_entries-Sorted, length-sorted_entries}
use rp4os.Mmu.Records.Slots.{filled}
use rp4os.Mmu.Records.Adding.{IsRecords, entry_of, added-shape}
use rp4os.Mmu.Records.Users.{describes, NoneDescribes, First, with_user}

module _ (q : MemoryRegion) where
  append-NoneDescribes :
      (es : List MappingRecordEntry) (e : MappingRecordEntry)
      → NoneDescribes q es
      → describes q e ≡ false
      → NoneDescribes q (es ++ e ∷ [])
  append-NoneDescribes [] e n h = (h, tt)
  append-NoneDescribes (x ∷ es) e n h = (n.0, append-NoneDescribes es e n.1 h)

  insert-NoneDescribes :
      (x : MappingRecordEntry) (es : List MappingRecordEntry)
      → describes q x ≡ false
      → NoneDescribes q es
      → NoneDescribes q (insert x es)
  unfolding insert
  insert-NoneDescribes x [] h n = (h, tt)
  insert-NoneDescribes x (y ∷ es) h n =
      elim (Bool-cases (leb x.virt_start_addr y.virt_start_addr)) [
        | inl first ↦ rw first (h, n)
        | inr later ↦ rw later (n.0, insert-NoneDescribes x es h n.1)
      ]

  sort_by_key-NoneDescribes :
      (es : List MappingRecordEntry) → NoneDescribes q es → NoneDescribes q (sort_by_key es)
  unfolding sort_by_key
  sort_by_key-NoneDescribes [] n = tt
  sort_by_key-NoneDescribes (x ∷ es) n =
      insert-NoneDescribes x (sort_by_key es) n.0 (sort_by_key-NoneDescribes es n.1)

  -- An entry for something else changes nothing, sorted or not.
  pub added-NoneDescribes :
      (es : List MappingRecordEntry) (e : MappingRecordEntry)
      → NoneDescribes q es
      → describes q e ≡ false
      → NoneDescribes q (sorted_entries (es ++ e ∷ []))
  unfolding sorted_entries
  added-NoneDescribes es e n h = elim (Bool-cases (is_sorted (es ++ e ∷ []))) [
    | inl done ↦ rw done (append-NoneDescribes es e n h)
    | inr open_ ↦
        rw open_ (sort_by_key-NoneDescribes (es ++ e ∷ []) (append-NoneDescribes es e n h))
  ]

  with_user-describes :
      (user : String) (e : MappingRecordEntry) → describes q (with_user user e) ≡ describes q e
  unfolding add_user
  with_user-describes user e = ground arith

  -- Nor does a further user.
  pub used-NoneDescribes :
      (p : MemoryRegion) (user : String) (es : List MappingRecordEntry) (i : ℕ)
      (e : MappingRecordEntry)
      → First p es i e
      → NoneDescribes q es
      → NoneDescribes q (set es i (with_user user e))
  used-NoneDescribes p user [] i e f n = tt
  used-NoneDescribes p user (x ∷ es) zero e f n =
      (with_user-describes user e ∙ ap (describes q) (sym f.1) ∙ n.0, n.1)
  used-NoneDescribes p user (x ∷ es) (suc i) e f n = (n.0, used-NoneDescribes p user es i e f.1 n.1)

-- The entry that took a user is still the first one for its device.
pub used-First :
    (p : MemoryRegion) (user : String) (es : List MappingRecordEntry) (i : ℕ)
    (e : MappingRecordEntry)
    → First p es i e
    → First p (set es i (with_user user e)) i (with_user user e)
used-First p user [] i e f = elim f [ ]
used-First p user (x ∷ es) zero e f =
    (with_user-describes p user e ∙ ap (describes p) (sym f.1) ∙ f.0, refl)
used-First p user (x ∷ es) (suc i) e f = (f.0, used-First p user es i e f.1)

-- The records after `add` with `k` slots left.
abbrev pub added :
    (name : String) (virt_region phys_region : MemoryRegion) (attr : AttributeFields)
    (slots : Slots) (r : IsRecords slots) (k : ℕ)
    → IsRegion phys_region
    → r.free ≡ suc k
    → IsRecords (add name virt_region phys_region attr slots).1
added name virt_region phys_region attr slots r k p slot =
    let e : MappingRecordEntry = entry_of name virt_region phys_region attr in
    record {
      entries = sorted_entries (r.entries ++ e ∷ []);
      free = k;
      shape =
          added-shape name virt_region phys_region attr slots r.entries k
            (r.shape ∙ ap (filled r.entries) slot) p;
      capacity = omega (
        arith,
        r.capacity,
        slot,
        length-sorted_entries (r.entries ++ e ∷ []),
        length-append r.entries (e ∷ []),
      );
      sorted = sorted_entries-Sorted (r.entries ++ e ∷ []);
    }
