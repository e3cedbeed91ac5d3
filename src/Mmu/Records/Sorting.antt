-- ===== src/Mmu/Records/Sorting.antt =====
-- The sort of the records: sorted by virtual address, and a permutation.
use mathlib.Core.List.{Perm}
use mathlib.Core.List.Perm
use rp4os.Base.{
  ℕ, ◌≤◌, ◌≡◌, refl, true, List, [], ◌∷◌, arith, leb, if◌then◌else◌, length, suc, Bool-cases, inl,
  inr,
}
use rp4os.Mmu.Records.{MappingRecordEntry, starts_below, is_sorted, insert, sort_by_key}

abbrev pub Above : ℕ → List MappingRecordEntry → Type 0
Above key [] = Unit {0}
Above key (e ∷ entries) = key ≤ e.virt_start_addr

abbrev pub Sorted : List MappingRecordEntry → Type 0
Sorted [] = Unit {0}
Sorted (e ∷ entries) = Above e.virt_start_addr entries × Sorted entries

starts_below-Above :
    (key : ℕ) (entries : List MappingRecordEntry)
    → starts_below key entries ≡ true
    → Above key entries
starts_below-Above key [] h = tt
starts_below-Above key (e ∷ entries) h = ground arith

is_sorted-Sorted : (entries : List MappingRecordEntry) → is_sorted entries ≡ true → Sorted entries
unfolding is_sorted
is_sorted-Sorted [] h = tt
is_sorted-Sorted (e ∷ entries) h = (
  starts_below-Above e.virt_start_addr entries (ground arith),
  is_sorted-Sorted entries (ground arith),
)

insert-Above :
    (key : ℕ) (e : MappingRecordEntry) (entries : List MappingRecordEntry)
    → key ≤ e.virt_start_addr
    → Above key entries
    → Above key (insert e entries)
unfolding insert
insert-Above key e [] h a = h
insert-Above key e (x ∷ entries) h a = ground arith

insert-Sorted :
    (e : MappingRecordEntry) (entries : List MappingRecordEntry)
    → Sorted entries
    → Sorted (insert e entries)
unfolding insert
insert-Sorted e [] s = (tt, tt)
insert-Sorted e (x ∷ entries) s =
    ground (arith, insert-Sorted e entries s.1, insert-Above x.virt_start_addr e entries)

sort_by_key-Sorted : (entries : List MappingRecordEntry) → Sorted (sort_by_key entries)
unfolding sort_by_key
sort_by_key-Sorted [] = tt
sort_by_key-Sorted (e ∷ entries) =
    insert-Sorted e (sort_by_key entries) (sort_by_key-Sorted entries)

insert-perm :
    (e : MappingRecordEntry) (entries : List MappingRecordEntry)
    → Perm (insert e entries) (e ∷ entries)
unfolding insert
insert-perm e [] = Perm.refl (e ∷ [])
insert-perm e (x ∷ entries) = elim (Bool-cases (leb e.virt_start_addr x.virt_start_addr)) [
  | inl first ↦ rw first (Perm.refl (e ∷ x ∷ entries))
  | inr later ↦ rw later (Perm.trans (Perm.cons x (insert-perm e entries)) (Perm.swap e x entries))
]

sort_by_key-perm : (entries : List MappingRecordEntry) → Perm (sort_by_key entries) entries
unfolding sort_by_key
sort_by_key-perm [] = Perm.refl []
sort_by_key-perm (e ∷ entries) =
    Perm.trans (insert-perm e (sort_by_key entries)) (Perm.cons e (sort_by_key-perm entries))

length-insert :
    (e : MappingRecordEntry) (entries : List MappingRecordEntry)
    → length (insert e entries) ≡ suc (length entries)
unfolding insert
length-insert e [] = refl
length-insert e (x ∷ entries) = ground (arith, length-insert e entries)

length-sort_by_key :
    (entries : List MappingRecordEntry) → length (sort_by_key entries) ≡ length entries
unfolding sort_by_key
length-sort_by_key [] = refl
length-sort_by_key (e ∷ entries) =
    omega (arith, length-insert e (sort_by_key entries), length-sort_by_key entries)

-- What `sort` makes of the entries: it leaves a sorted array alone.
unfoldable pub sorted_entries : List MappingRecordEntry → List MappingRecordEntry
sorted_entries entries = if is_sorted entries then entries else sort_by_key entries

pub sorted_entries-Sorted : (entries : List MappingRecordEntry) → Sorted (sorted_entries entries)
unfolding sorted_entries
sorted_entries-Sorted entries = elim (Bool-cases (is_sorted entries)) [
  | inl done ↦ rw done (is_sorted-Sorted entries done)
  | inr open_ ↦ rw open_ (sort_by_key-Sorted entries)
]

pub sorted_entries-perm :
    (entries : List MappingRecordEntry) → Perm (sorted_entries entries) entries
unfolding sorted_entries
sorted_entries-perm entries = elim (Bool-cases (is_sorted entries)) [
  | inl done ↦ rw done (Perm.refl entries)
  | inr open_ ↦ rw open_ (sort_by_key-perm entries)
]

pub length-sorted_entries :
    (entries : List MappingRecordEntry) → length (sorted_entries entries) ≡ length entries
unfolding sorted_entries
length-sorted_entries entries = ground (arith, length-sort_by_key entries)
