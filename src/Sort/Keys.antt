-- ===== src/Sort/Keys.antt =====
-- Comparisons by one key after another, as the program's `less` functions make them.
use dialtone_watcher.Prelude.{ℕ, Bool, true, false, ◌≡◌, ◌↔◌, if◌then◌else◌, ltb, nat_beq, arith}
use dialtone_watcher.Sort.Laws.{IsOrder}

-- `before` compares by a key, and `tie` says that the keys are equal.
pub record IsKey {ℓ} {A : Type ℓ} (P : A → Type 0) (tie before : A → A → Bool) : Type ℓ where
  pub asymm : (a b : A) → P a → P b → before a b ≡ true → before b a ≡ false
  pub trans :
      (a b c : A) → P a → P b → P c → before b a ≡ false → before c b ≡ false → before c a ≡ false
  pub tie_iff :
      (a b : A) → P a → P b → (tie a b ≡ true) ↔ ((before a b ≡ false) × (before b a ≡ false))

-- `if tie(a, b) { return later(a, b) }; return before(a, b)`
abbrev pub by_key {ℓ} : {A : Type ℓ} (tie before later : A → A → Bool) → A → A → Bool
by_key tie before later a b = if tie a b then later a b else before a b

module _ {ℓ} {A : Type ℓ} (P : A → Type 0) (tie before : A → A → Bool)
    (k : IsKey P tie before) where
  pub key-IsOrder : IsOrder P before
  key-IsOrder = record { asymm = k.asymm; trans = k.trans }

  module _ (later : A → A → Bool) (o : IsOrder P later) where
    by_key_asymm :
        (a b : A)
        → P a
        → P b
        → by_key tie before later a b ≡ true
        → by_key tie before later b a ≡ false
    by_key_asymm a b pa pb h =
        ground
          (arith, k.asymm a b pa pb, k.tie_iff a b pa pb, k.tie_iff b a pb pa, o.asymm a b pa pb)

    by_key_trans :
        (a b c : A)
        → P a
        → P b
        → P c
        → by_key tie before later b a ≡ false
        → by_key tie before later c b ≡ false
        → by_key tie before later c a ≡ false
    by_key_trans a b c pa pb pc h g = ground (
      arith,
      k.trans a b c pa pb pc,
      k.trans c b a pc pb pa,
      k.trans b c a pb pc pa,
      k.trans b a c pb pa pc,
      k.trans c a b pc pa pb,
      k.trans a c b pa pc pb,
      k.tie_iff b a pb pa,
      k.tie_iff c b pc pb,
      k.tie_iff c a pc pa,
      k.asymm a c pa pc,
      o.trans a b c pa pb pc,
    )

    pub by_key-IsOrder : IsOrder P (by_key tie before later)
    by_key-IsOrder = record { asymm = by_key_asymm; trans = by_key_trans }

-- A larger number comes first.
module _ {ℓ} {A : Type ℓ} (P : A → Type 0) (f : A → ℕ) where
  pub descending-IsKey : IsKey P (λ a b. nat_beq (f a) (f b)) (λ a b. ltb (f b) (f a))
  descending-IsKey = record {
    asymm = λ a b _ _ h. ground arith;
    trans = λ a b c _ _ _ h g. ground arith;
    tie_iff = λ a b _ _. ground arith;
  }
