-- ===== src/Mmu/Records/Users.antt =====
-- `try_add_user`: which record is found, and what it does to the records.
use rp4os.Base.{
  ℕ, zero, suc, ◌≡◌, refl, ap, Bool, true, false, ◌&&◌, ◌⊎◌, inl, inr, none, some, String, List, [],
  ◌∷◌, ◌++◌, arith, Bool-cases, ◌==◌, leb, set, get_elem?, length, length-set,
}
use rp4os.Base.Outcome.{ok}
use rp4os.Mmu.Region.{MemoryRegion, IsRegion, pages}
use rp4os.Mmu.Region.Split.{num_pages_lem}
use rp4os.Mmu.Records.{
  MappingRecordEntry, Slots, is_device, is_device_record, find_device_record, add_user, use_record,
  try_add_user, is_sorted, insert, sort_by_key,
}
use rp4os.Mmu.Records.Sorting.{Sorted, Above, sorted_entries}
use rp4os.Mmu.Records.Slots.{filled}
use rp4os.Mmu.Records.Adding.{IsRecords}

-- The record describes exactly this device memory.
abbrev pub describes : MemoryRegion → MappingRecordEntry → Bool
describes phys_region e =
    is_device e.attribute_fields.mem_attributes
    && e.phys_start_addr == phys_region.start_page
    && e.num_pages == pages phys_region

abbrev pub NoneDescribes : MemoryRegion → List MappingRecordEntry → Type 0
NoneDescribes phys_region [] = Unit {0}
NoneDescribes phys_region (e ∷ es) =
    (describes phys_region e ≡ false) × NoneDescribes phys_region es

-- `e` at position `i` is the first record that describes the memory.
abbrev pub First : MemoryRegion → List MappingRecordEntry → ℕ → MappingRecordEntry → Type 0
First p [] i e = ⊥
First p (x ∷ es) zero e = (describes p x ≡ true) × (x ≡ e)
First p (x ∷ es) (suc i) e = (describes p x ≡ false) × First p es i e

abbrev pub with_user : String → MappingRecordEntry → MappingRecordEntry
with_user user e = (add_user user e).1

pub with_user-virt :
    (user : String) (e : MappingRecordEntry)
    → (with_user user e).virt_start_addr ≡ e.virt_start_addr
unfolding add_user
with_user-virt user e = ground arith

module _ (p : MemoryRegion) (r : IsRegion p) where
  is_device_record_lem : (e : MappingRecordEntry) → is_device_record p e ≡ ok (describes p e)
  unfolding is_device_record
  is_device_record_lem e = ground (arith, num_pages_lem p r)

  find_none-free : (k : ℕ) → find_device_record p (filled [] k) ≡ ok none
  unfolding find_device_record
  find_none-free zero = refl
  find_none-free (suc k) = rw (find_none-free k) refl

  -- No record describes the memory: nothing is found.
  pub find_none :
      (es : List MappingRecordEntry) (k : ℕ)
      → NoneDescribes p es
      → find_device_record p (filled es k) ≡ ok none
  unfolding find_device_record
  find_none [] k h = find_none-free k
  find_none (e ∷ es) k h = rw (is_device_record_lem e, h.0, find_none es k h.1) refl

  pub First-cases :
      (es : List MappingRecordEntry)
      → NoneDescribes p es ⊎ ((i : ℕ) × (e : MappingRecordEntry) × First p es i e)
  First-cases [] = inl tt
  First-cases (x ∷ es) = elim (Bool-cases (describes p x)) [
    | inl yes' ↦ inr (0, x, (yes', refl))
    | inr no' ↦ elim (First-cases es) [
      | inl rest ↦ inl (no', rest)
      | inr (i, e, f) ↦ inr (suc i, e, (no', f))
    ]
  ]

  find-First :
      (es : List MappingRecordEntry) (k i : ℕ) (e : MappingRecordEntry)
      → First p es i e
      → find_device_record p (filled es k) ≡ ok (some i)
  unfolding find_device_record
  find-First [] k i e f = elim f [ ]
  find-First (x ∷ es) k zero e f = rw (is_device_record_lem x, f.0) refl
  find-First (x ∷ es) k (suc i) e f = rw (is_device_record_lem x, f.0, find-First es k i e f.1) refl

  get-First :
      (es : List MappingRecordEntry) (k i : ℕ) (e : MappingRecordEntry)
      → First p es i e
      → get_elem? (filled es k) i ≡ some (some e)
  get-First [] k i e f = elim f [ ]
  get-First (x ∷ es) k zero e f = ap (λ (y : MappingRecordEntry). some (some y)) f.1
  get-First (x ∷ es) k (suc i) e f = get-First es k i e f.1

  set-First :
      (es : List MappingRecordEntry) (k i : ℕ) (e e' : MappingRecordEntry)
      → First p es i e
      → set (filled es k) i (some e') ≡ filled (set es i e') k
  set-First [] k i e e' f = elim f [ ]
  set-First (x ∷ es) k zero e e' f = refl
  set-First (x ∷ es) k (suc i) e e' f = ap (◌∷◌ (some x)) (set-First es k i e e' f.1)

  set-Above :
      (key : ℕ) (es : List MappingRecordEntry) (i : ℕ) (e e' : MappingRecordEntry)
      → First p es i e
      → e'.virt_start_addr ≡ e.virt_start_addr
      → Above key es
      → Above key (set es i e')
  set-Above key [] i e e' f same a = tt
  set-Above key (x ∷ es) zero e e' f same a =
      omega (arith, same, ap (λ (y : MappingRecordEntry). y.virt_start_addr) f.1)
  set-Above key (x ∷ es) (suc i) e e' f same a = a

  pub set-Sorted :
      (es : List MappingRecordEntry) (i : ℕ) (e e' : MappingRecordEntry)
      → First p es i e
      → e'.virt_start_addr ≡ e.virt_start_addr
      → Sorted es
      → Sorted (set es i e')
  set-Sorted [] i e e' f same s = tt
  set-Sorted (x ∷ es) zero e e' f same s =
      let key : e'.virt_start_addr ≡ x.virt_start_addr =
        omega (arith, same, ap (λ (y : MappingRecordEntry). y.virt_start_addr) f.1) in
      (rw key s.0, s.1)
  set-Sorted (x ∷ es) (suc i) e e' f same s =
      (set-Above x.virt_start_addr es i e e' f.1 same s.0, set-Sorted es i e e' f.1 same s.1)

  -- A device that is not recorded is not found, and nothing changes.
  pub try_add_user-none :
      (user : String) (es : List MappingRecordEntry) (k : ℕ)
      → NoneDescribes p es
      → try_add_user user p (filled es k) ≡ (ok none, filled es k)
  unfolding try_add_user
  try_add_user-none user es k h = rw (find_none es k h) refl

  -- A recorded device is found: the first record that describes it takes the user, and the
  -- address of its mapping is the answer.
  pub try_add_user-First :
      (user : String) (es : List MappingRecordEntry) (k i : ℕ) (e : MappingRecordEntry)
      → First p es i e
      → try_add_user user p (filled es k)
        ≡ (ok (some e.virt_start_addr), filled (set es i (with_user user e)) k)
  unfolding try_add_user use_record
  try_add_user-First user es k i e f =
      rw (find-First es k i e f, get-First es k i e f)
        (rw (set-First es k i e (with_user user e) f) refl)

  -- The records after an entry took a user.
  abbrev pub used :
      (user : String) (slots : Slots) (w : IsRecords slots) (i : ℕ) (e : MappingRecordEntry)
      → First p w.entries i e
      → IsRecords (filled (set w.entries i (with_user user e)) w.free)
  used user slots w i e f = record {
    entries = set w.entries i (with_user user e);
    free = w.free;
    shape = refl;
    capacity = omega (arith, w.capacity, length-set w.entries i (with_user user e));
    sorted = set-Sorted w.entries i e (with_user user e) f (with_user-virt user e) w.sorted;
  }

  -- Well-formed records stay well-formed, and the answer is the address of the first record for
  -- this very device memory, or none exists and nothing changes.
  pub try_add_user-IsRecords :
      (user : String) (slots : Slots) (w : IsRecords slots)
      → IsRecords (try_add_user user p slots).1
        × (((try_add_user user p slots ≡ (ok none, slots)) × NoneDescribes p w.entries)
            ⊎ ((i : ℕ) × (e : MappingRecordEntry) × First p w.entries i e
                × ((try_add_user user p slots).0 ≡ ok (some e.virt_start_addr))))
  try_add_user-IsRecords user slots w = elim (First-cases w.entries) [
    | inl fresh ↦
        let same : try_add_user user p slots ≡ (ok none, slots) =
          rw w.shape (try_add_user-none user w.entries w.free fresh) in
        (rw same w, inl (same, fresh))
    | inr (i, e, f) ↦
        let found : try_add_user user p slots
            ≡ (ok (some e.virt_start_addr), filled (set w.entries i (with_user user e)) w.free) =
          rw w.shape (try_add_user-First user w.entries w.free i e f) in
        (rw found (used user slots w i e f), inr (i, e, f, rw found refl))
  ]

  appended-First :
      (es : List MappingRecordEntry) (e : MappingRecordEntry)
      → NoneDescribes p es
      → describes p e ≡ true
      → First p (es ++ e ∷ []) (length es) e
  appended-First [] e n h = (h, refl)
  appended-First (x ∷ es) e n h = (n.0, appended-First es e n.1 h)

  insert-First :
      (x e : MappingRecordEntry) (es : List MappingRecordEntry) (i : ℕ)
      → describes p x ≡ false
      → First p es i e
      → (j : ℕ) × First p (insert x es) j e
  unfolding insert
  insert-First x e [] i h f = elim f [ ]
  insert-First x e (y ∷ es) zero h f = elim (Bool-cases (leb x.virt_start_addr y.virt_start_addr)) [
    | inl first ↦ rw first (1, (h, f))
    | inr later ↦ rw later (0, f)
  ]
  insert-First x e (y ∷ es) (suc i) h f =
      let (j, rest) = insert-First x e es i h f.1 in
      elim (Bool-cases (leb x.virt_start_addr y.virt_start_addr)) [
        | inl first ↦ rw first (suc (suc i), (h, f))
        | inr later ↦ rw later (suc j, (f.0, rest))
      ]

  sorted-First :
      (es : List MappingRecordEntry) (e : MappingRecordEntry)
      → NoneDescribes p es
      → describes p e ≡ true
      → (j : ℕ) × First p (sort_by_key (es ++ e ∷ [])) j e
  unfolding sort_by_key insert
  sorted-First [] e n h = (0, (h, refl))
  sorted-First (x ∷ es) e n h =
      let (j, f) = sorted-First es e n.1 h in insert-First x e (sort_by_key (es ++ e ∷ [])) j n.0 f

  -- A record that is added for a device not recorded before is the one found later.
  pub added-First :
      (es : List MappingRecordEntry) (e : MappingRecordEntry)
      → NoneDescribes p es
      → describes p e ≡ true
      → (j : ℕ) × First p (sorted_entries (es ++ e ∷ [])) j e
  unfolding sorted_entries
  added-First es e n h = elim (Bool-cases (is_sorted (es ++ e ∷ []))) [
    | inl done ↦ rw done (length es, appended-First es e n h)
    | inr open_ ↦ rw open_ (sorted-First es e n h)
  ]
