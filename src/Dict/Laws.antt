-- ===== src/Dict/Laws.antt =====
-- Maps: reading behind each operation.
use dialtone_watcher.Prelude.{
  ◌+◌, ◌≤◌, Bool, true, false, Option, none, some, [], ◌∷◌, ◌≡◌, refl, Eq, ◌==◌, eq_iff, eq_refl,
  if◌then◌else◌, All, length, arith, Bool-cases, Option-cases, inl, inr,
}
use dialtone_watcher.Dict.{Dict, found_or, delete_if, update_values, lookup, insert, IsDict}

-- What is left of an entry under a test that drops it.
abbrev pub unless {ℓ} : {V : Type ℓ} → (V → Bool) → Option V → Option V
unless drop none = none
unless drop (some v) = if drop v then none else some v

abbrev pub map_option {ℓ κ} : {V : Type ℓ} {W : Type κ} → (V → W) → Option V → Option W
map_option f none = none
map_option f (some v) = some (f v)

module _ {ℓ κ} {K : Type ℓ} {V : Type κ} ⦃e : Eq K⦄ where
  pub lookup-insert :
      (written read : K) (new : V) (m : Dict K V)
      → lookup read (insert written new m) ≡ (if written == read then some new else lookup read m)
  unfolding insert lookup
  lookup-insert written read new [] = refl
  lookup-insert written read new ((k, old) ∷ m) = ground (
    arith,
    eq_iff k read,
    eq_iff k written,
    eq_iff written read,
    lookup-insert written read new m,
  )

  pub lookup-insert_self : (k : K) (v : V) (m : Dict K V) → lookup k (insert k v m) ≡ some v
  lookup-insert_self k v m = ground (arith, lookup-insert k k v m, eq_refl k)

  pub insert-IsDict : (k : K) (v : V) (m : Dict K V) → IsDict m → IsDict (insert k v m)
  unfolding lookup insert
  insert-IsDict k v [] h = (refl, tt)
  insert-IsDict k v ((i, w) ∷ m) h =
      ground (arith, eq_iff i k, insert-IsDict k v m, lookup-insert k i v m, eq_iff k i)

  pub lookup-delete_if :
      (p : K → V → Bool) (k : K) (m : Dict K V)
      → IsDict m
      → lookup k (delete_if p m) ≡ unless (p k) (lookup k m)
  unfolding lookup delete_if
  lookup-delete_if p k [] h = refl
  lookup-delete_if p k ((i, w) ∷ m) h = ground (arith, eq_iff i k, lookup-delete_if p k m)

  pub delete_if-IsDict : (p : K → V → Bool) (m : Dict K V) → IsDict m → IsDict (delete_if p m)
  unfolding delete_if
  delete_if-IsDict p [] h = tt
  delete_if-IsDict p ((i, w) ∷ m) h = ground (arith, delete_if-IsDict p m, lookup-delete_if p i m)

  pub lookup-update_values :
      (f : K → V → V) (k : K) (m : Dict K V)
      → lookup k (update_values f m) ≡ map_option (f k) (lookup k m)
  unfolding lookup update_values
  lookup-update_values f k [] = refl
  lookup-update_values f k ((i, w) ∷ m) = ground (arith, eq_iff i k, lookup-update_values f k m)

  pub update_values-IsDict : (f : K → V → V) (m : Dict K V) → IsDict m → IsDict (update_values f m)
  unfolding update_values
  update_values-IsDict f [] h = tt
  update_values-IsDict f ((i, w) ∷ m) h =
      ground (arith, update_values-IsDict f m, lookup-update_values f i m)

  pub length-insert-le : (k : K) (v : V) (m : Dict K V) → length (insert k v m) ≤ length m + 1
  unfolding insert
  length-insert-le k v [] = omega arith
  length-insert-le k v ((i, w) ∷ m) = ground (arith, length-insert-le k v m)

-- A property of every entry.
module _ {ℓ κ μ} {K : Type ℓ} {V : Type κ} (P : K → V → Type μ) where
  abbrev pub AllEntries : Dict K V → Type μ
  AllEntries m = All (λ (e : K × V). P e.0 e.1) m

  pub delete_if-AllEntries :
      (p : K → V → Bool) (m : Dict K V) → AllEntries m → AllEntries (delete_if p m)
  unfolding delete_if
  delete_if-AllEntries p [] h = tt
  delete_if-AllEntries p ((i, w) ∷ m) (hd, tl) =
      elim (p i w)
        as (λ b. AllEntries (let rest = delete_if p m in if b then rest else (i, w) ∷ rest)) [
          | true ↦ delete_if-AllEntries p m tl
          | false ↦ (hd, delete_if-AllEntries p m tl)
        ]

  pub update_values-AllEntries :
      (f : K → V → V) (m : Dict K V)
      → ((k : K) (v : V) → P k v → P k (f k v))
      → AllEntries m
      → AllEntries (update_values f m)
  unfolding update_values
  update_values-AllEntries f [] keep h = tt
  update_values-AllEntries f ((i, w) ∷ m) keep (hd, tl) =
      (keep i w hd, update_values-AllEntries f m keep tl)

  module _ ⦃e : Eq K⦄ where
    pub insert-AllEntries :
        (k : K) (v : V) (m : Dict K V) → P k v → AllEntries m → AllEntries (insert k v m)
    unfolding insert
    insert-AllEntries k v [] p h = (p, tt)
    insert-AllEntries k v ((i, w) ∷ m) p (hd, tl) =
        elim (i == k) as (λ b. AllEntries (if b then (k, v) ∷ m else (i, w) ∷ insert k v m)) [
          | true ↦ (p, tl)
          | false ↦ (hd, insert-AllEntries k v m p tl)
        ]

    pub AllEntries-lookup :
        (k : K) (v : V) (m : Dict K V) → AllEntries m → lookup k m ≡ some v → P k v
    unfolding lookup
    AllEntries-lookup k v [] h q = absurd (ground arith)
    AllEntries-lookup k v ((i, w) ∷ m) (hd, tl) q = elim (Bool-cases (i == k)) [
      | inl same ↦
          let here : i ≡ k = (eq_iff i k).0 same in
          let value : w ≡ v = ground arith in rw (← here, ← value) hd
      | inr other ↦ AllEntries-lookup k v m tl (ground arith)
    ]

    -- A record that is made where it is missing, and then changed.
    pub upsert-AllEntries :
        (k : K) (fresh : V) (step : V → V) (m : Dict K V)
        → P k fresh
        → ((v : V) → P k v → P k (step v))
        → AllEntries m
        → AllEntries (insert k (step (found_or (lookup k m) fresh)) m)
    upsert-AllEntries k fresh step m p keep h = insert-AllEntries k _ m (keep _ (found m h)) h
      where
        found : (m' : Dict K V) → AllEntries m' → P k (found_or (lookup k m') fresh)
        found m' h' = elim (Option-cases (lookup k m')) [
          | inl absent ↦ rw absent p
          | inr (v, there) ↦ rw there (AllEntries-lookup k v m' h' there)
        ]
