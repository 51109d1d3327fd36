-- ===== src/Decimal.antt =====
-- The decimal print of numbers, the verb `%d` of Go's package `fmt`.
pub mod Injective
pub mod Parse
use dialtone_watcher.Prelude.{
  ℕ, zero, suc, ◌+◌, ◌/◌, ◌%◌, List, [], ◌∷◌, ◌++◌, ◌≡◌, refl, Text, codes, ltb, if◌then◌else◌,
}
use dialtone_watcher.Prelude.Int.{ℤ, pos, negsuc}

-- the digits of a number below the fuel
pub digits : ℕ → ℕ → Text
digits zero n = []
digits (suc fuel) n =
    let earlier = digits fuel (n / 10) in
    if ltb n 10 then (b'0' + n) ∷ [] else earlier ++ (b'0' + n % 10) ∷ []

unfoldable pub format_uint : ℕ → Text
unfolding digits
format_uint n = digits (suc n) n

unfoldable pub format_int : ℤ → Text
unfolding format_uint
format_int (pos n) = format_uint n
format_int (negsuc n) = b'-' ∷ format_uint (suc n)

format_int_test : format_int (negsuc 4095) ≡ codes "-4096"
unfolding format_int
format_int_test = refl
