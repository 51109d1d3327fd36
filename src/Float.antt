-- ===== src/Float.antt =====
-- `float64`: the operations that the program makes, and what IEEE 754 says of its comparisons
-- between values that are no NaN. The type is a parameter of the model.
use dialtone_watcher.Prelude.{ℕ, Bool, true, false, ◌≡◌, ◌↔◌}

pub record Float64 (F : Type 0) : Type 0 where
  pub fzero : F
  pub fadd : F → F → F
  pub fdiv : F → F → F
  pub flt : F → F → Bool
  pub feq : F → F → Bool
  -- `float64(n)` of a `uint64`
  pub from_uint : ℕ → F
  pub is_nan : F → Bool
  pub flt_asymm : (a b : F) → is_nan a ≡ false → is_nan b ≡ false → flt a b ≡ true → flt b a ≡ false
  pub flt_trans :
      (a b c : F)
      → is_nan a ≡ false
      → is_nan b ≡ false
      → is_nan c ≡ false
      → flt a b ≡ false
      → flt b c ≡ false
      → flt a c ≡ false
  pub feq_iff :
      (a b : F)
      → is_nan a ≡ false
      → is_nan b ≡ false
      → (feq a b ≡ true) ↔ ((flt a b ≡ false) × (flt b a ≡ false))
