-- ===== src/Dict.antt =====
-- Go's maps, as association lists: the order of the entries stands for the order in which a
-- `range` meets them, which Go does not fix. `IsDict` says that no key stands twice.
pub mod Laws
pub mod Sum
use dialtone_watcher.Prelude.{
  ℕ, suc, Bool, true, false, Option, none, some, List, [], ◌∷◌, map, ◌≡◌, Eq, ◌==◌, if◌then◌else◌,
  All, length,
}

abbrev pub Dict {ℓ κ} : Type ℓ → Type κ → Type (ℓ ⊔ κ)
Dict K V = List (K × V)

-- `record := m[k]; if record == nil { record = fresh }`
abbrev pub found_or {ℓ} : {A : Type ℓ} → Option A → A → A
found_or none fresh = fresh
found_or (some a) fresh = a

module _ {ℓ κ} {K : Type ℓ} {V : Type κ} where
  abbrev pub keys : Dict K V → List K
  keys = map (λ e. e.0)

  abbrev pub values : Dict K V → List V
  values = map (λ e. e.1)

  -- `for k, v := range m { if drop(k, v) { delete(m, k) } }`
  unfoldable pub delete_if : (K → V → Bool) → Dict K V → Dict K V
  delete_if p [] = []
  delete_if p ((k, v) ∷ m) = let rest = delete_if p m in if p k v then rest else (k, v) ∷ rest

  -- The same loop with another statement for a body, which writes `m[k]`.
  unfoldable pub update_values : (K → V → V) → Dict K V → Dict K V
  update_values f [] = []
  update_values f ((k, v) ∷ m) = (k, f k v) ∷ update_values f m

module _ {ℓ κ} {K : Type ℓ} {V : Type κ} ⦃e : Eq K⦄ where
  -- `m[k]`, and whether it is there
  unfoldable pub lookup : K → Dict K V → Option V
  lookup key [] = none
  lookup key ((k, v) ∷ m) = if k == key then some v else lookup key m

  -- `m[k] = v`
  unfoldable pub insert : K → V → Dict K V → Dict K V
  insert key new [] = (key, new) ∷ []
  insert key new ((k, old) ∷ m) = if k == key then (key, new) ∷ m else (k, old) ∷ insert key new m

  -- `for k, v := range new { m[k] = v }`
  unfoldable pub insert_all : Dict K V → Dict K V → Dict K V
  unfolding insert
  insert_all [] m = m
  insert_all ((k, v) ∷ new) m = insert_all new (insert k v m)

  -- `delete(m, k)`
  abbrev pub delete : K → Dict K V → Dict K V
  delete k = delete_if (λ j _. j == k)

  -- `_, ok := m[k]`
  abbrev pub contains : K → Dict K V → Bool
  contains k m = elim (lookup k m) [ none ↦ false | some _ ↦ true ]

  -- Every key stands once.
  abbrev pub IsDict : Dict K V → Type 0
  IsDict [] = Unit
  IsDict ((k, v) ∷ m) = (contains k m ≡ false) × IsDict m
