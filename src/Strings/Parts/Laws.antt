-- ===== src/Strings/Parts/Laws.antt =====
-- What the parts of a text are, where the text is put together from them.
use dialtone_watcher.Prelude.{
  ℕ, ◌≡◌, ◌≢◌, inl, inr, refl, Bool, true, false, none, some, List, [], ◌∷◌, ◌++◌, Text, ◌==◌,
  nat_eq, eq_iff, All, Bool-cases, arith,
}
use dialtone_watcher.Strings.{cut_prefix}
use dialtone_watcher.Strings.Parts.{add_front, split, join, cut_at, cut_last, cut}

abbrev pub Lacks : ℕ → Text → Type 0
Lacks b = All (λ c. c ≢ b)

-- A text splits at the first bar in one way.
pub split_unique :
    (b : ℕ) (s s' t t' : Text)
    → Lacks b s
    → Lacks b s'
    → s ++ b ∷ t ≡ s' ++ b ∷ t'
    → (s ≡ s') × (t ≡ t')
split_unique b [] [] t t' h h' e = ground arith
split_unique b [] (c ∷ s') t t' h (hc, h') e = absurd (ground arith)
split_unique b (c ∷ s) [] t t' (hc, h) h' e = absurd (ground arith)
split_unique b (c ∷ s) (d ∷ s') t t' (hc, h) (hd, h') e =
    ground (arith, split_unique b s s' t t' h h')

join-add_front : (d c : ℕ) (ws : List Text) → ws ≢ [] → join d (add_front c ws) ≡ c ∷ join d ws
unfolding join
join-add_front d c [] h = absurd (h refl)
join-add_front d c (w ∷ []) h = refl
join-add_front d c (w ∷ v ∷ ws) h = refl

join-empty : (d : ℕ) (ws : List Text) → ws ≢ [] → join d ([] ∷ ws) ≡ d ∷ join d ws
unfolding join
join-empty d [] h = absurd (h refl)
join-empty d (v ∷ ws) h = refl

add_front_some : (c : ℕ) (ws : List Text) → add_front c ws ≢ []
add_front_some c [] = λ e. ground arith
add_front_some c (w ∷ ws) = λ e. ground arith

split_some : (d : ℕ) (s : Text) → split d s ≢ []
unfolding split
split_some d [] = λ e. ground arith
split_some d (c ∷ s) = elim (Bool-cases (c == d)) [
  | inl same ↦ rw same (λ e. ground arith)
  | inr other ↦ rw other (add_front_some c (split d s))
]

pub join-split : (d : ℕ) (s : Text) → join d (split d s) ≡ s
unfolding split join
join-split d [] = refl
join-split d (c ∷ s) = elim (Bool-cases (c == d)) [
  | inl same ↦
      rw (same, join-empty d (split d s) (split_some d s), join-split d s, (eq_iff c d).0 same) refl
  | inr other ↦ rw (other, join-add_front d c (split d s) (split_some d s), join-split d s) refl
]

-- The first byte that passes a test, behind bytes that fail it.
pub cut_at-append :
    (p : ℕ → Bool) (a : Text) (d : ℕ) (b : Text)
    → All (λ c. p c ≡ false) a
    → p d ≡ true
    → cut_at p (a ++ d ∷ b) ≡ some (a, b)
unfolding cut_at
cut_at-append p [] d b h hd = rw hd refl
cut_at-append p (c ∷ a) d b (hc, h) hd = rw (hc, cut_at-append p a d b h hd) refl

pub cut_last-Lacks : (d : ℕ) (b : Text) → Lacks d b → cut_last d b ≡ none
unfolding cut_last
cut_last-Lacks d [] h = refl
cut_last-Lacks d (c ∷ b) (hc, h) = ground (arith, cut_last-Lacks d b h)

pub cut_last-append : (d : ℕ) (a b : Text) → Lacks d b → cut_last d (a ++ d ∷ b) ≡ some (a, b)
unfolding cut_last
cut_last-append d [] b h = rw (cut_last-Lacks d b h) (ground arith)
cut_last-append d (c ∷ a) b h = rw (cut_last-append d a b h) refl

pub cut_prefix-append : (sep b : Text) → cut_prefix (sep ++ b) sep ≡ some b
unfolding cut_prefix
cut_prefix-append [] [] = refl
cut_prefix-append [] (c ∷ b) = refl
cut_prefix-append (c ∷ sep) b = rw (cut_prefix-append sep b) (ground arith)

-- The first occurrence of a separator, behind a text without its first byte.
pub cut-append :
    (d : ℕ) (sep a b : Text) → Lacks d a → cut (d ∷ sep) (a ++ d ∷ (sep ++ b)) ≡ some (a, b)
unfolding cut cut_prefix
cut-append d sep [] b h = ground (arith, cut_prefix-append sep b)
cut-append d sep (c ∷ a) b (hc, h) = ground (arith, cut-append d sep a b h)

pub cut_at-none : (p : ℕ → Bool) (s : Text) → All (λ c. p c ≡ false) s → cut_at p s ≡ none
unfolding cut_at
cut_at-none p [] h = refl
cut_at-none p (c ∷ s) (hc, h) = rw (hc, cut_at-none p s h) refl
