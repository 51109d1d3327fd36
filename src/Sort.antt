-- ===== src/Sort.antt =====
-- `sort.Slice` and `slices.SortFunc` of Go's standard library, by the test `less`. Go does not fix
-- the order of elements that tie; here they keep their order.
pub mod Keys
pub mod Laws
pub mod Ranked
use dialtone_watcher.Prelude.{
  ℕ, suc, Bool, true, false, List, [], ◌∷◌, ◌≡◌, if◌then◌else◌, All, length, take, ltb,
}

module _ {ℓ} {A : Type ℓ} (less : A → A → Bool) where
  unfoldable pub insert_by : A → List A → List A
  insert_by x [] = x ∷ []
  insert_by x (y ∷ ys) = let rest = insert_by x ys in if less y x then y ∷ rest else x ∷ y ∷ ys

  unfoldable pub sort_slice : List A → List A
  unfolding insert_by
  sort_slice [] = []
  sort_slice (x ∷ xs) = insert_by x (sort_slice xs)

  -- No element comes before one that is less.
  abbrev pub IsSortedBy : List A → Type 0
  IsSortedBy [] = Unit
  IsSortedBy (x ∷ xs) = All (λ y. less y x ≡ false) xs × IsSortedBy xs

-- `if limit > len(records) { limit = len(records) }` and `records[:limit]`
unfoldable pub first {ℓ} : {A : Type ℓ} → ℕ → List A → List A
first limit records =
    let limit' = if ltb (length records) limit then length records else limit in take limit' records
