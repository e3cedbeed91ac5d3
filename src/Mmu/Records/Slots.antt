-- ===== src/Mmu/Records/Slots.antt =====
-- The slots as they always are: filled ones first, then free ones.
use rp4os.Base.{
  ℕ, zero, suc, ◌≡◌, refl, ap, Option, none, some, List, [], ◌∷◌, ◌++◌, map, length, set, replicate,
  arith,
}
use rp4os.Base.Lists.{take, drop}
use rp4os.Base.Outcome.{ok}
use rp4os.Mmu.Records.{MappingRecordEntry, find_next_free, size, unwrap_all, sort, sort_by_key}
use rp4os.Mmu.Records.Sorting.{sorted_entries}

abbrev pub filled {ℓ} : {A : Type ℓ} → List A → ℕ → List (Option A)
filled [] k = replicate k none
filled (x ∷ xs) k = some x ∷ filled xs k

module _ {ℓ} {A : Type ℓ} where
  pub find_next_free-full : (xs : List A) → find_next_free (filled xs 0) ≡ none
  unfolding find_next_free
  find_next_free-full [] = refl
  find_next_free-full (x ∷ xs) = rw (find_next_free-full xs) refl

  pub find_next_free-free :
      (xs : List A) (k : ℕ) → find_next_free (filled xs (suc k)) ≡ some (length xs)
  unfolding find_next_free
  find_next_free-free [] k = refl
  find_next_free-free (x ∷ xs) k = rw (find_next_free-free xs k) refl

  pub set-filled :
      (xs : List A) (k : ℕ) (a : A)
      → set (filled xs (suc k)) (length xs) (some a) ≡ filled (xs ++ a ∷ []) k
  set-filled [] k a = refl
  set-filled (x ∷ xs) k a = ap (◌∷◌ (some x)) (set-filled xs k a)

  take-filled : (xs : List A) (k : ℕ) → take (length xs) (filled xs k) ≡ map some xs
  take-filled [] k = refl
  take-filled (x ∷ xs) k = ap (◌∷◌ (some x)) (take-filled xs k)

  drop-filled : (xs : List A) (k : ℕ) → drop (length xs) (filled xs k) ≡ replicate k none
  drop-filled [] k = refl
  drop-filled (x ∷ xs) k = drop-filled xs k

  map-some-filled : (xs : List A) (k : ℕ) → map some xs ++ replicate k none ≡ filled xs k
  map-some-filled [] k = refl
  map-some-filled (x ∷ xs) k = ap (◌∷◌ (some x)) (map-some-filled xs k)

size-none : (k : ℕ) → size (replicate k none) ≡ 0
unfolding size
size-none zero = refl
size-none (suc k) = size-none k

size-filled : (es : List MappingRecordEntry) (k : ℕ) → size (filled es k) ≡ length es
unfolding size
size-filled [] k = size-none k
size-filled (e ∷ es) k = ap suc (size-filled es k)

unwrap_all-some : (es : List MappingRecordEntry) → unwrap_all (map some es) ≡ ok es
unfolding unwrap_all
unwrap_all-some [] = refl
unwrap_all-some (e ∷ es) = rw (unwrap_all-some es) refl

-- No slot of the sorted part is empty, so `sort` does not panic.
pub sort-filled :
    (es : List MappingRecordEntry) (k : ℕ)
    → sort (filled es k) ≡ (ok tt, filled (sorted_entries es) k)
unfolding sort sorted_entries
sort-filled es k =
    rw (size-filled es k, take-filled es k, drop-filled es k, unwrap_all-some es)
      (ground (arith, map-some-filled (sort_by_key es) k))
