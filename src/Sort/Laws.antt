-- ===== src/Sort/Laws.antt =====
-- Sorted slices of Go's standard library and their prefixes, in general.
use mathlib.Core.List.{Perm}
use mathlib.Core.List.Perm
use dialtone_watcher.Prelude.{
  ℕ, suc, Bool, true, false, List, [], ◌∷◌, ◌≡◌, refl, if◌then◌else◌, All, All-take, All-drop,
  length, take, drop, Bool-cases, inl, inr, arith,
}
use dialtone_watcher.Sort.{insert_by, sort_slice, IsSortedBy}

-- `less` is a strict weak order on the elements with the property `P`.
pub record IsOrder {ℓ} {A : Type ℓ} (P : A → Type 0) (less : A → A → Bool) : Type ℓ where
  pub asymm : (a b : A) → P a → P b → less a b ≡ true → less b a ≡ false
  pub trans : (a b c : A) → P a → P b → P c → less b a ≡ false → less c b ≡ false → less c a ≡ false

module _ {ℓ} {A : Type ℓ} (less : A → A → Bool) where
  insert_by-perm : (x : A) (xs : List A) → Perm (insert_by less x xs) (x ∷ xs)
  unfolding insert_by
  insert_by-perm x [] = Perm.refl (x ∷ [])
  insert_by-perm x (y ∷ ys) =
      elim (less y x)
        as (λ b.
          Perm (let rest = insert_by less x ys in if b then y ∷ rest else x ∷ y ∷ ys)
            (x ∷ y ∷ ys)) [
              | true ↦ Perm.trans (Perm.cons y (insert_by-perm x ys)) (Perm.swap x y ys)
              | false ↦ Perm.refl (x ∷ y ∷ ys)
            ]

  length-insert_by : (x : A) (xs : List A) → length (insert_by less x xs) ≡ suc (length xs)
  unfolding insert_by
  length-insert_by x [] = refl
  length-insert_by x (y ∷ ys) = ground (arith, length-insert_by x ys)

  pub length-sort_slice : (xs : List A) → length (sort_slice less xs) ≡ length xs
  unfolding sort_slice
  length-sort_slice [] = refl
  length-sort_slice (x ∷ xs) =
      omega (arith, length-insert_by x (sort_slice less xs), length-sort_slice xs)

  pub sort_slice-perm : (xs : List A) → Perm (sort_slice less xs) xs
  unfolding sort_slice
  sort_slice-perm [] = Perm.refl []
  sort_slice-perm (x ∷ xs) =
      Perm.trans (insert_by-perm x (sort_slice less xs)) (Perm.cons x (sort_slice-perm xs))

  module _ {κ} (P : A → Type κ) where
    insert_by-All : (x : A) (xs : List A) → P x → All P xs → All P (insert_by less x xs)
    unfolding insert_by
    insert_by-All x [] p h = (p, tt)
    insert_by-All x (y ∷ ys) p (hd, tl) =
        elim (less y x)
          as (λ b. All P (let rest = insert_by less x ys in if b then y ∷ rest else x ∷ y ∷ ys)) [
            | true ↦ (hd, insert_by-All x ys p tl)
            | false ↦ (p, (hd, tl))
          ]

    pub sort_slice-All : (xs : List A) → All P xs → All P (sort_slice less xs)
    unfolding sort_slice
    sort_slice-All [] h = tt
    sort_slice-All (x ∷ xs) (hd, tl) =
        insert_by-All x (sort_slice less xs) hd (sort_slice-All xs tl)

module _ {ℓ} {A : Type ℓ} (P : A → Type 0) (less : A → A → Bool) (o : IsOrder P less) where
  All-chain :
      (x y : A) (ys : List A)
      → P x
      → P y
      → All P ys
      → less y x ≡ false
      → All (λ z. less z y ≡ false) ys
      → All (λ z. less z x ≡ false) ys
  All-chain x y [] px py ps h hs = tt
  All-chain x y (z ∷ zs) px py (pz, ps) h (hz, hs) =
      (o.trans x y z px py pz h hz, All-chain x y zs px py ps h hs)

  insert_by-IsSortedBy :
      (x : A) (xs : List A)
      → P x
      → All P xs
      → IsSortedBy less xs
      → IsSortedBy less (insert_by less x xs)
  unfolding insert_by
  insert_by-IsSortedBy x [] p ps h = (tt, tt)
  insert_by-IsSortedBy x (y ∷ ys) p (py, ps) (hd, tl) = elim (Bool-cases (less y x)) [
    | inl lt ↦ rw lt (
      insert_by-All less (λ z. less z y ≡ false) x ys (o.asymm y x py p lt) hd,
      insert_by-IsSortedBy x ys p ps tl,
    )
    | inr ge ↦ rw ge ((ge, All-chain x y ys p py ps ge hd), (hd, tl))
  ]

  pub sort_slice-IsSortedBy : (xs : List A) → All P xs → IsSortedBy less (sort_slice less xs)
  unfolding sort_slice
  sort_slice-IsSortedBy [] h = tt
  sort_slice-IsSortedBy (x ∷ xs) (hd, tl) =
      insert_by-IsSortedBy x (sort_slice less xs) hd (sort_slice-All less P xs tl)
        (sort_slice-IsSortedBy xs tl)

module _ {ℓ} {A : Type ℓ} (less : A → A → Bool) where
  pub take-IsSortedBy : (n : ℕ) (xs : List A) → IsSortedBy less xs → IsSortedBy less (take n xs)
  take-IsSortedBy ℕ.zero xs h = tt
  take-IsSortedBy (suc n) [] h = tt
  take-IsSortedBy (suc n) (x ∷ xs) (hd, tl) = (All-take _ n xs hd, take-IsSortedBy n xs tl)

  -- Adds an element in front of the chosen ones.
  best-cons :
      (x : A) (top rest : List A)
      → All (λ b. less b x ≡ false) rest
      → All (λ b. All (λ a. less b a ≡ false) top) rest
      → All (λ b. All (λ a. less b a ≡ false) (x ∷ top)) rest
  best-cons x top [] h k = tt
  best-cons x top (b ∷ rest) (hb, h) (kb, k) = ((hb, kb), best-cons x top rest h k)

  best-nil : (rest : List A) → All (λ b. All (λ a. less b a ≡ false) []) rest
  best-nil [] = tt
  best-nil (b ∷ rest) = (tt, best-nil rest)

  pub take-best :
      (n : ℕ) (xs : List A)
      → IsSortedBy less xs
      → All (λ b. All (λ a. less b a ≡ false) (take n xs)) (drop n xs)
  take-best ℕ.zero xs h = best-nil xs
  take-best (suc n) [] h = tt
  take-best (suc n) (x ∷ xs) (hd, tl) =
      best-cons x (take n xs) (drop n xs) (All-drop _ n xs hd) (take-best n xs tl)
