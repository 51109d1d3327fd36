-- ===== src/Strings/Order.antt =====
-- The order of Go's strings, byte by byte.
use dialtone_watcher.Prelude.{false, true, [], ◌∷◌, ◌≡◌, refl, Text, arith}
use dialtone_watcher.Strings.{text_ltb}

-- A smaller text comes first.
pub text_ltb_asymm : (a b : Text) → text_ltb a b ≡ true → text_ltb b a ≡ false
text_ltb_asymm [] [] h = refl
text_ltb_asymm [] (d ∷ b) h = refl
text_ltb_asymm (c ∷ a) [] h = ground arith
text_ltb_asymm (c ∷ a) (d ∷ b) h = ground (arith, text_ltb_asymm a b)

pub text_ltb_trans :
    (a b c : Text) → text_ltb b a ≡ false → text_ltb c b ≡ false → text_ltb c a ≡ false
text_ltb_trans [] b [] h g = refl
text_ltb_trans [] [] (z ∷ c) h g = refl
text_ltb_trans [] (y ∷ b) (z ∷ c) h g = refl
text_ltb_trans (x ∷ a) [] c h g = absurd (ground arith)
text_ltb_trans (x ∷ a) (y ∷ b) [] h g = absurd (ground arith)
text_ltb_trans (x ∷ a) (y ∷ b) (z ∷ c) h g = ground (arith, text_ltb_trans a b c)

pub text_eq_of_ties : (a b : Text) → text_ltb a b ≡ false → text_ltb b a ≡ false → a ≡ b
text_eq_of_ties [] [] h g = refl
text_eq_of_ties [] (d ∷ b) h g = absurd (ground arith)
text_eq_of_ties (c ∷ a) [] h g = absurd (ground arith)
text_eq_of_ties (c ∷ a) (d ∷ b) h g = ground (arith, text_eq_of_ties a b)

pub text_ltb_irrefl : (a : Text) → text_ltb a a ≡ false
text_ltb_irrefl [] = refl
text_ltb_irrefl (c ∷ a) = ground (arith, text_ltb_irrefl a)
