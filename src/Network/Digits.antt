-- ===== src/Network/Digits.antt =====
-- `isDigits` of internal/watcher/network.go on the prints of numbers.
use dialtone_watcher.Prelude.{◌≡◌, ◌≢◌, refl, true, [], ◌∷◌, Text, All, arith}
use dialtone_watcher.Decimal.Injective.{IsDigit}
use dialtone_watcher.Network.{all_digits, is_digits}

all_digits-IsDigit : (s : Text) → All IsDigit s → all_digits s ≡ true
unfolding all_digits
all_digits-IsDigit [] h = refl
all_digits-IsDigit (c ∷ s) (hc, h) = ground (arith, all_digits-IsDigit s h)

pub is_digits-IsDigit : (s : Text) → s ≢ [] → All IsDigit s → is_digits s ≡ true
unfolding is_digits
is_digits-IsDigit [] some h = absurd (some refl)
is_digits-IsDigit (c ∷ s) some h = all_digits-IsDigit (c ∷ s) h
