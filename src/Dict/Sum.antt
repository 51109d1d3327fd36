-- ===== src/Dict/Sum.antt =====
-- Totals over the entries of a map.
use dialtone_watcher.Prelude.{ℕ, ◌+◌, Option, none, some, [], ◌∷◌, ◌≡◌, Eq, eq_iff, arith}
use dialtone_watcher.Dict.{Dict, lookup, insert}

abbrev pub or_zero {ℓ} : {V : Type ℓ} → (V → ℕ) → Option V → ℕ
or_zero f none = 0
or_zero f (some v) = f v

module _ {ℓ κ} {K : Type ℓ} {V : Type κ} where
  unfoldable pub sum_by : (V → ℕ) → Dict K V → ℕ
  sum_by f [] = 0
  sum_by f ((k, v) ∷ m) = f v + sum_by f m

module _ {ℓ κ} {K : Type ℓ} {V : Type κ} ⦃e : Eq K⦄ where
  -- A write replaces the old value's share.
  pub sum_by-insert :
      (f : V → ℕ) (k : K) (v : V) (m : Dict K V)
      → sum_by f (insert k v m) + or_zero f (lookup k m) ≡ sum_by f m + f v
  unfolding sum_by lookup insert
  sum_by-insert f k v [] = omega arith
  sum_by-insert f k v ((i, w) ∷ m) = ground (arith, eq_iff i k, sum_by-insert f k v m)
