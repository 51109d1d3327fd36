-- ===== src/Decimal/Injective.antt =====
-- The verb `%d` of Go's package `fmt`: what tells prints apart.
use dialtone_watcher.Prelude.{
  ℕ, zero, suc, ◌+◌, ◌-◌, ◌*◌, ◌/◌, ◌%◌, ◌≤◌, ◌<◌, [], ◌∷◌, ◌++◌, ◌≡◌, ◌≢◌, refl, ap, sym, Text,
  arith, All, All-append,
}
use dialtone_watcher.Prelude.Int.{ℤ, pos, negsuc}
use dialtone_watcher.Decimal.{digits, format_uint, format_int}

-- the number that digits spell behind `n`
abbrev pub value : ℕ → Text → ℕ
value n [] = n
value n (c ∷ s) = value (n * 10 + (c - b'0')) s

value-append : (n : ℕ) (s t : Text) → value n (s ++ t) ≡ value (value n s) t
value-append n [] t = refl
value-append n (c ∷ s) t = value-append (n * 10 + (c - b'0')) s t

value-digits : (fuel n : ℕ) → n < fuel → value 0 (digits fuel n) ≡ n
unfolding digits
value-digits zero n h = elim h [ ]
value-digits (suc fuel) n h = ground (
  arith,
  value-digits fuel (n / 10),
  value-append 0 (digits fuel (n / 10)) ((b'0' + n % 10) ∷ []),
)

abbrev pub IsDigit : ℕ → Type 0
IsDigit c = (b'0' ≤ c) × (c ≤ b'9')

digits-IsDigit : (fuel n : ℕ) → All IsDigit (digits fuel n)
unfolding digits
digits-IsDigit zero n = tt
digits-IsDigit (suc fuel) n = ground (
  arith,
  digits-IsDigit fuel (n / 10),
  All-append IsDigit (digits fuel (n / 10)) ((b'0' + n % 10) ∷ []),
)

pub format_uint-IsDigit : (n : ℕ) → All IsDigit (format_uint n)
unfolding format_uint
format_uint-IsDigit n = digits-IsDigit (suc n) n

pub value-format_uint : (n : ℕ) → value 0 (format_uint n) ≡ n
unfolding format_uint
value-format_uint n = value-digits (suc n) n (omega arith)

pub format_uint-injective : (m n : ℕ) → format_uint m ≡ format_uint n → m ≡ n
format_uint-injective m n h =
    omega (arith, value-format_uint m, value-format_uint n, ap (value 0) h)

-- no print of a natural number begins with a minus sign
not_minus : (n : ℕ) (s : Text) → format_uint n ≢ b'-' ∷ s
not_minus n s h = omega (arith, (rw h at (format_uint-IsDigit n)).0)

pub format_int-injective : (a b : ℤ) → format_int a ≡ format_int b → a ≡ b
unfolding format_int
format_int-injective (pos m) (pos n) h = ap pos (format_uint-injective m n h)
format_int-injective (pos m) (negsuc n) h = absurd (not_minus m _ h)
format_int-injective (negsuc m) (pos n) h = absurd (not_minus n _ (sym h))
format_int-injective (negsuc m) (negsuc n) h = ground (arith, format_uint-injective (suc m) (suc n))
