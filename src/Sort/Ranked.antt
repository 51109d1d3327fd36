-- ===== src/Sort/Ranked.antt =====
-- Sorted slices of Go's standard library and their prefixes by an order that is stated as a relation,
-- beside the test that the program makes.
use mathlib.Core.List.{Perm}
use dialtone_watcher.Prelude.{
  ℕ, min, Bool, false, List, [], ◌∷◌, ◌++◌, ◌≡◌, All, length, keep, arith, refl, All-take, All-drop,
  take, drop, length-take, take-append-drop,
}
use dialtone_watcher.Sort.{sort_slice, first, IsSortedBy}
use dialtone_watcher.Sort.Laws.{
  IsOrder, sort_slice-All, sort_slice-IsSortedBy, sort_slice-perm, length-sort_slice,
  take-IsSortedBy, take-best,
}

-- No element stands behind one that `R` does not let it stand behind.
abbrev pub IsRanked : {A : Type 0} → (A → A → Type 0) → List A → Type 0
IsRanked R [] = Unit {0}
IsRanked R (x ∷ xs) = All (λ y. R x y) xs × IsRanked R xs

-- `top` holds as many elements of `xs` as `limit` lets through, ranked, and each that is left out may
-- stand behind each that is in.
pub record IsTopBy {A : Type 0} (R : A → A → Type 0) (limit : ℕ) (xs top : List A) : Type 0 where
  pub count : length top ≡ min limit (length xs)
  pub ranked : IsRanked R top
  pub rest : List A
  pub split : Perm (top ++ rest) xs
  pub best : All (λ b. All (λ a. R a b) top) rest

module _ {A : Type 0} (P : A → Type 0) (less : A → A → Bool) (R : A → A → Type 0)
    (reads : (a b : A) → P a → P b → less b a ≡ false → R a b) where
  ranked-one :
      (x : A) (ys : List A) → P x → All P ys → All (λ y. less y x ≡ false) ys → All (λ y. R x y) ys
  ranked-one x [] p ps h = tt
  ranked-one x (y ∷ ys) p (py, ps) (hy, h) = (reads x y p py hy, ranked-one x ys p ps h)

  pub IsSortedBy-IsRanked : (xs : List A) → All P xs → IsSortedBy less xs → IsRanked R xs
  IsSortedBy-IsRanked [] ps h = tt
  IsSortedBy-IsRanked (x ∷ xs) (p, ps) (hx, h) =
      (ranked-one x xs p ps hx, IsSortedBy-IsRanked xs ps h)

  best_one :
      (b : A) (top : List A)
      → P b
      → All P top
      → All (λ a. less b a ≡ false) top
      → All (λ a. R a b) top
  best_one b [] p ps h = tt
  best_one b (a ∷ top) p (pa, ps) (ha, h) = (reads a b pa p ha, best_one b top p ps h)

  best-All :
      (top rest : List A)
      → All P top
      → All P rest
      → All (λ b. All (λ a. less b a ≡ false) top) rest
      → All (λ b. All (λ a. R a b) top) rest
  best-All top [] ps qs h = tt
  best-All top (b ∷ rest) ps (q, qs) (hb, h) = (best_one b top q ps hb, best-All top rest ps qs h)

-- What `sort.Slice` by `less` followed by the cut to `limit` returns, by what `less` means.
module _ {A : Type 0} (P : A → Type 0) (less : A → A → Bool) (R : A → A → Type 0)
    (reads : (a b : A) → P a → P b → less b a ≡ false → R a b) (o : IsOrder P less) where
  pub sort_slice-IsRanked : (xs : List A) → All P xs → IsRanked R (sort_slice less xs)
  sort_slice-IsRanked xs h =
      IsSortedBy-IsRanked P less R reads (sort_slice less xs) (sort_slice-All less P xs h)
        (sort_slice-IsSortedBy P less o xs h)

  take-IsTopBy :
      (limit n : ℕ) (xs : List A)
      → All P xs
      → n ≡ min limit (length xs)
      → IsTopBy R limit xs (take n (sort_slice less xs))
  take-IsTopBy limit n xs h e =
      let sorted = sort_slice-IsSortedBy P less o xs h in
      let all = sort_slice-All less P xs h in
      record {
        count = omega (arith, length-take n (sort_slice less xs), length-sort_slice less xs);
        ranked =
            IsSortedBy-IsRanked P less R reads (take n (sort_slice less xs))
              (All-take P n (sort_slice less xs) all)
              (take-IsSortedBy less n (sort_slice less xs) sorted);
        rest = drop n (sort_slice less xs);
        split = rw (take-append-drop n (sort_slice less xs)) (sort_slice-perm less xs);
        best =
            best-All P less R reads (take n (sort_slice less xs)) (drop n (sort_slice less xs))
              (All-take P n (sort_slice less xs) all) (All-drop P n (sort_slice less xs) all)
              (take-best less n (sort_slice less xs) sorted);
      }

  pub first-IsTopBy :
      (limit : ℕ) (xs : List A) → All P xs → IsTopBy R limit xs (first limit (sort_slice less xs))
  unfolding first
  first-IsTopBy limit xs h = take-IsTopBy limit _ xs h (ground (arith, length-sort_slice less xs))

-- Two tests that agree let the same elements through.
pub keep_congr :
    {A : Type 0} (p q : A → Bool) (xs : List A) → ((x : A) → p x ≡ q x) → keep p xs ≡ keep q xs
keep_congr p q [] h = refl
keep_congr p q (x ∷ xs) h = rw (h x, keep_congr p q xs h) refl
