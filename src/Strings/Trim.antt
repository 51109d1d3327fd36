-- ===== src/Strings/Trim.antt =====
-- The functions of Go's package `strings` that trim, where there is nothing or something to trim.
use dialtone_watcher.Prelude.{
  ◌≡◌, refl, ℕ, Bool, true, false, [], ◌∷◌, ◌++◌, Text, is_empty, All, if◌then◌else◌, ◌&&◌,
}
use dialtone_watcher.Strings.{is_space, trim_left, trim_right, trim_space}

module _ (p : ℕ → Bool) where
  -- Bytes that stay.
  abbrev pub Stays : Text → Type 0
  Stays = All (λ c. p c ≡ false)

  abbrev pub Goes : Text → Type 0
  Goes = All (λ c. p c ≡ true)

  pub trim_left-Stays : (s : Text) → Stays s → trim_left p s ≡ s
  unfolding trim_left
  trim_left-Stays [] h = refl
  trim_left-Stays (c ∷ s) (hc, h) = rw hc refl

  trim_right_step :
      (c : ℕ) (s : Text)
      → trim_right p (c ∷ s) ≡ (if is_empty (trim_right p s) && p c then [] else c ∷ trim_right p s)
  unfolding trim_right
  trim_right_step c s = refl

  trim_right-nil : trim_right p [] ≡ []
  unfolding trim_right
  trim_right-nil = refl

  trim_right-Goes : (s : Text) → Goes s → trim_right p s ≡ []
  trim_right-Goes [] h = trim_right-nil
  trim_right-Goes (c ∷ s) (hc, h) = rw (trim_right_step c s, trim_right-Goes s h, hc) refl

  trim_right_one : (c : ℕ) (s : Text) → p c ≡ false → trim_right p (c ∷ s) ≡ c ∷ trim_right p s
  trim_right_one c s h = rw (trim_right_step c s, h) (neither (is_empty (trim_right p s)))
    where
      neither : (e : Bool) → (if e && false then [] else c ∷ trim_right p s) ≡ c ∷ trim_right p s
      neither true = refl
      neither false = refl

  pub trim_right-append : (s t : Text) → Stays s → Goes t → trim_right p (s ++ t) ≡ s
  trim_right-append [] t h g = trim_right-Goes t g
  trim_right-append (c ∷ s) t (hc, h) g =
      rw (trim_right_one c (s ++ t) hc, trim_right-append s t h g) refl

  pub trim_right-Stays : (s : Text) → Stays s → trim_right p s ≡ s
  trim_right-Stays [] h = trim_right-nil
  trim_right-Stays (c ∷ s) (hc, h) = rw (trim_right_one c s hc, trim_right-Stays s h) refl

  -- What ends in bytes that stay is not trimmed on the right.
  pub trim_right_end :
      (s : Text) (c : ℕ) (t : Text) → Stays (c ∷ t) → trim_right p (s ++ c ∷ t) ≡ s ++ c ∷ t
  trim_right_end [] c t h = trim_right-Stays (c ∷ t) h
  trim_right_end (b ∷ s) c t h =
      rw (trim_right_step b (s ++ c ∷ t), trim_right_end s c t h) (after s)
    where
      after :
          (s : Text)
          → (if is_empty (s ++ c ∷ t) && p b then [] else b ∷ (s ++ c ∷ t)) ≡ b ∷ (s ++ c ∷ t)
      after [] = refl
      after (d ∷ s) = refl

pub trim_space-Stays : (s : Text) → Stays is_space s → trim_space s ≡ s
unfolding trim_space
trim_space-Stays s h = rw (trim_left-Stays is_space s h, trim_right-Stays is_space s h) refl
